-- ===== src/X86Backend/Total.antt =====
-- The x86 backend writes each fragment of a ready program.
use mcp_forth.Prelude.{
  ℕ, zero, suc, ◌+◌, ◌≤◌, ◌<◌, ◌≡◌, refl, sym, ap, ◌∙◌, subst, true, some, List, ◌∷◌, ◌++◌, arith,
  leb, length, get_elem?, take, drop, some-eq_some, >>=-eq-some, All-get_elem?, get_elem?-lt,
  length-drop,
}
use mcp_forth.Fragment.{
  Opcode, builtin_word, defined_word, push_literal, exit_word, push_data_address,
  use_variable_or_constant, branch_if_zero, branch, loop, push_offset_address, push_callback,
  declare_constant, Fragment,
}
use mcp_forth.Chores.{Flags}
use mcp_forth.X86Backend.{Generated, fragment_bin_size, op_flags, flags_of, get_flags}
use mcp_forth.X86Backend.Dump.{
  cpy_and_inc, ser_le32_and_inc, dump_exit, dump_branch_if_zero, dump_branch, dump_loop,
  dump_add_offset, dump_offset_address, dump_builtin, dump_of, bytes_if, fragment_bin_dump,
}
use mcp_forth.X86Backend.Ready.{refers, reads_next, limit, IsReady}
use mcp_forth.X86Backend.{IsGenerated, pushes, pops}
use mcp_forth.Chores.{no_flags}
use mcp_forth.Chores.Boundary.{IsPaired}
use mcp_forth.X86Backend.Sizes.{fragment_bin_dump-size}
use mcp_forth.X86Backend.Ready.{
  fragment_at-total, fragment_bin_size-total, target-total, needs_at-total, branch_offset-total,
  loop_offset-total, address_offset-total,
}

-- The code of a builtin word is within the generated array.
dump_builtin-total :
    (gen : Generated) (param : ℕ)
    → IsGenerated gen
    → param < length gen.table
    → (code : List ℕ) × (dump_builtin gen param ≡ some code)
unfolding dump_builtin cpy_and_inc
dump_builtin-total gen param ok h =
    let (word, e) = get_elem?-lt gen.table param h in
    let inside = All-get_elem? (λ w. w.pos + w.len ≤ length gen.code) gen.table param ok.inside e in
    let fits : leb word.len (length (drop word.pos gen.code)) ≡ true =
      enough word.len (length (drop word.pos gen.code))
        (omega (arith, length-drop word.pos gen.code, inside)) in
    (take word.len (drop word.pos gen.code), rw (e, fits) refl)
  where
    enough : (a b : ℕ) → a ≤ b → leb a b ≡ true
    enough a b h = ground arith

dump_offset_address-total :
    (r offset : ℕ) → r ≤ 2 → (code : List ℕ) × (dump_offset_address r offset ≡ some code)
unfolding dump_offset_address dump_add_offset
dump_offset_address-total zero offset h = (_, refl)
dump_offset_address-total (suc zero) offset h = (_, refl)
dump_offset_address-total (suc (suc zero)) offset h = (_, refl)
dump_offset_address-total (suc (suc (suc r))) offset h = absurd (omega arith)

module _ (gen : Generated) (n : ℕ) (sequence : List ℕ) (all : List Fragment) (ok : IsGenerated gen)
    (ready : IsReady gen n sequence all) (i : ℕ) (needs : Flags) where
  dump_of-total :
      (op : Opcode) (f : Fragment)
      → (op ≡ builtin_word → f.param < length gen.table)
      → (refers op ≡ true → f.param < n)
      → (reads_next op ≡ true → suc i < length sequence)
      → f.relaxation ≤ limit op
      → (code : List ℕ) × (dump_of gen op all sequence i needs f ≡ some code)
  unfolding dump_of refers reads_next limit
  dump_of-total builtin_word f b r m l = dump_builtin-total gen f.param ok (b refl)
  dump_of-total defined_word f b r m l =
      let (offset, e) = branch_offset-total gen n sequence all ready i f (r refl) (m refl) in
      (0xe8 ∷ ser_le32_and_inc offset, rw e refl)
  dump_of-total branch_if_zero f b r m l =
      let (offset, e) = branch_offset-total gen n sequence all ready i f (r refl) (m refl) in
      (dump_branch_if_zero f.relaxation offset, rw e refl)
  dump_of-total branch f b r m l =
      let (offset, e) = branch_offset-total gen n sequence all ready i f (r refl) (m refl) in
      (dump_branch f.relaxation offset, rw e refl)
  dump_of-total loop f b r m l =
      let (offset, e) = loop_offset-total gen n sequence all ready i f (r refl) (m refl) in
      (dump_loop f.relaxation offset, rw e refl)
  dump_of-total exit_word f b r m l =
      let (location, e) = target-total gen n sequence all ready i f (r refl) in
      (dump_exit location.param, rw e refl)
  dump_of-total push_offset_address f b r m l =
      let (offset, e) = address_offset-total gen n sequence all ready i f (r refl) needs in
      let (code, e') = dump_offset_address-total f.relaxation offset l in (code, rw e e')
  dump_of-total op f b r m l = (_, refl)

-- For generated arrays that cover the builtin words, a ready program and each index of its sequence: the
-- dump reads nothing out of bounds and fails no assertion, and it writes exactly as many bytes as the
-- size says, the chores around the instruction included.
pub fragment_bin_dump-total :
    (gen : Generated) (n : ℕ) (sequence : List ℕ) (all : List Fragment) (i : ℕ)
    → IsGenerated gen
    → IsReady gen n sequence all
    → i < length sequence
    → (bytes : List ℕ) × (fragment_bin_dump gen all sequence i ≡ some bytes)
      × (fragment_bin_size gen all sequence i ≡ some (length bytes))
unfolding fragment_bin_dump
fragment_bin_dump-total gen n sequence all i ok ready h =
    let (needs, e) = needs_at-total gen n sequence all ready i h in
    let (f, here, known) = fragment_at-total gen n sequence all ready i h in
    let (code, written) =
      dump_of-total gen n sequence all ok ready i needs f.op f known.builtin known.referred
        (λ m. ready.followed i f here m) known.relaxed in
    let (size, sized) = fragment_bin_size-total gen n sequence all ready i h in
    let bytes =
      bytes_if gen needs.a gen.chore_a
      ++ bytes_if gen needs.b gen.chore_b
      ++ code
      ++ bytes_if gen needs.y gen.chore_y
      ++ bytes_if gen needs.z gen.chore_z in
    let run : fragment_bin_dump gen all sequence i ≡ some bytes = rw (e, here, written) refl in
    (
      bytes,
      run,
      sized ∙ ap some (sym (fragment_bin_dump-size gen all sequence i size bytes sized run)),
    )

pushes-IsPaired : IsPaired pushes
pushes-IsPaired = record { b_a = λ e. refl; clob_b = λ e. refl; y_z = λ e. cc e }

pops-IsPaired : IsPaired pops
pops-IsPaired = record { b_a = λ e. cc e; clob_b = λ e. cc e; y_z = λ e. refl }

no_flags-IsPaired : IsPaired no_flags
no_flags-IsPaired = record { b_a = λ e. cc e; clob_b = λ e. cc e; y_z = λ e. cc e }

op_flags-IsPaired : (op : Opcode) → IsPaired (op_flags op)
unfolding op_flags
op_flags-IsPaired push_literal = pushes-IsPaired
op_flags-IsPaired push_data_address = pushes-IsPaired
op_flags-IsPaired use_variable_or_constant = pushes-IsPaired
op_flags-IsPaired push_offset_address = pushes-IsPaired
op_flags-IsPaired push_callback = pushes-IsPaired
op_flags-IsPaired declare_constant = pops-IsPaired
op_flags-IsPaired op = no_flags-IsPaired

flags_of-IsPaired :
    (gen : Generated) (op : Opcode) (f : Fragment) (flags : Flags)
    → IsGenerated gen
    → flags_of gen op f ≡ some flags
    → IsPaired flags
unfolding flags_of
flags_of-IsPaired gen builtin_word f flags ok e =
    let (word, w, e') = >>=-eq-some (get_elem? gen.table f.param) _ e in
    subst IsPaired (some-eq_some e')
      (All-get_elem? (λ w. IsPaired w.flags) gen.table f.param ok.paired w)
flags_of-IsPaired gen op f flags ok e = subst IsPaired (some-eq_some e) (op_flags-IsPaired op)

-- For generated arrays whose flags are paired, the flags that the x86 backend gives for any fragment
-- are.
pub get_flags-IsPaired :
    (gen : Generated) (f : Fragment) (flags : Flags)
    → IsGenerated gen
    → get_flags gen f ≡ some flags
    → IsPaired flags
unfolding get_flags
get_flags-IsPaired gen f flags ok e = flags_of-IsPaired gen f.op f flags ok e
