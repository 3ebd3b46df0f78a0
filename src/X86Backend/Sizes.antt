-- ===== src/X86Backend/Sizes.antt =====
-- The x86 backend writes as many bytes as it announces.
use mcp_forth.Prelude.{
  ℕ, zero, suc, ◌+◌, ◌≡◌, refl, sym, ap, ◌∙◌, inl, inr, Bool, true, false, some, List, [], ◌∷◌,
  ◌++◌, arith, leb, ◌==◌, if◌then◌else◌, Bool-cases, length, get_elem?, length-append, drop,
  some-eq_some, >>=-eq-some, length-take,
}
use mcp_forth.Fragment.{
  Opcode, builtin_word, defined_word, runtime_word, push_literal, exit_word, defined_word_location,
  push_data_address, declare_variable, use_variable_or_constant, halt, branch_location,
  branch_if_zero, branch, do_loop, loop, push_offset_address, push_callback, declare_constant,
  execute, thread_create, thread_join, entry, Fragment, fragment_at,
}
use mcp_forth.Chores.{Flags}
use mcp_forth.X86Backend.{
  Generated, TableEntry, asm_num_is_small, runtime_word_offset, variable_offset, callback_offset,
  needs_at, branch_offset, loop_offset, address_offset, fragment_bin_size, by_value, by_relaxation,
  push_offset_size, size_of, size_if,
}
use mcp_forth.X86Backend.Dump.{
  cpy_and_inc, ser_le_loop, ser_le32_and_inc, ser_i8_and_inc, ser_i8_or_le32_and_inc,
  dump_runtime_word, dump_literal, dump_exit, dump_location, dump_data_address,
  dump_declare_variable, dump_use_variable, dump_declare_constant, dump_callback, dump_jump,
  dump_branch_if_zero, dump_branch, dump_loop, dump_add_offset, dump_offset_address, dump_builtin,
  dump_of, bytes_if, fragment_bin_dump,
}

length-ser_le32 : (x : ℕ) → length (ser_le32_and_inc x) ≡ 4
unfolding ser_le32_and_inc ser_le_loop
length-ser_le32 x = refl

length-ser_i8_or_le32 : (x : ℕ) → length (ser_i8_or_le32_and_inc x) ≡ by_value x 1 4
unfolding ser_i8_or_le32_and_inc ser_i8_and_inc ser_le32_and_inc ser_le_loop
length-ser_i8_or_le32 x = elim (Bool-cases (asm_num_is_small x)) [
  | inl small ↦ rw small refl
  | inr large ↦ rw large refl
]

if-add : (b : Bool) (m n k : ℕ) → (if b then m + k else n + k) ≡ (if b then m else n) + k
if-add true m n k = refl
if-add false m n k = refl

-- An operand with bytes behind it.
length-operand :
    (x : ℕ) (rest : List ℕ)
    → length (ser_i8_or_le32_and_inc x ++ rest) ≡ by_value x 1 4 + length rest
length-operand x rest =
    length-append (ser_i8_or_le32_and_inc x) rest
    ∙ ap (λ n. n + length rest) (length-ser_i8_or_le32 x)

length-dump_runtime_word : (x : ℕ) → length (dump_runtime_word x) ≡ 3 + by_value x 3 6
unfolding dump_runtime_word
length-dump_runtime_word x =
    omega (arith, length-operand x (0xff ∷ 0x56 ∷ 0x24 ∷ []), if-add (asm_num_is_small x) 1 4 2)

length-dump_declare_variable : (x : ℕ) → length (dump_declare_variable x) ≡ 9 + by_value x 3 6
unfolding dump_declare_variable
length-dump_declare_variable x =
    omega (arith, length-operand x (0x83 ∷ 0xc2 ∷ 0x04 ∷ []), if-add (asm_num_is_small x) 1 4 2)

length-dump_use_variable : (x : ℕ) → length (dump_use_variable x) ≡ by_value x 3 6
unfolding dump_use_variable
length-dump_use_variable x =
    omega (arith, length-ser_i8_or_le32 x, if-add (asm_num_is_small x) 1 4 2)

length-dump_declare_constant : (x : ℕ) → length (dump_declare_constant x) ≡ by_value x 3 6
unfolding dump_declare_constant
length-dump_declare_constant x =
    omega (arith, length-ser_i8_or_le32 x, if-add (asm_num_is_small x) 1 4 2)

length-dump_callback : (x : ℕ) → length (dump_callback x) ≡ 3 + by_value x 3 6
unfolding dump_callback
length-dump_callback x = omega (arith, length-ser_i8_or_le32 x, if-add (asm_num_is_small x) 1 4 2)

length-dump_literal : (x : ℕ) → length (dump_literal x) ≡ (if x == 0 then 2 else 5)
unfolding dump_literal ser_le32_and_inc ser_le_loop
length-dump_literal x = elim (Bool-cases (x == 0)) [ inl e ↦ rw e refl | inr e ↦ rw e refl ]

length-dump_exit : (x : ℕ) → length (dump_exit x) ≡ 1 + (if x == 0 then 0 else 1)
unfolding dump_exit
length-dump_exit x = elim (Bool-cases (x == 0)) [ inl e ↦ rw e refl | inr e ↦ rw e refl ]

length-dump_location : (x : ℕ) → length (dump_location x) ≡ (if x == 0 then 0 else 3)
unfolding dump_location
length-dump_location x = elim (Bool-cases (x == 0)) [ inl e ↦ rw e refl | inr e ↦ rw e refl ]

length-dump_data_address :
    (x : ℕ) → length (dump_data_address x) ≡ 3 + (if x == 0 then 0 else by_value x 3 5)
unfolding dump_data_address ser_i8_or_le32_and_inc ser_i8_and_inc ser_le32_and_inc ser_le_loop
length-dump_data_address x = elim (Bool-cases (x == 0)) [
  | inl e ↦ rw e refl
  | inr e ↦ elim (Bool-cases (asm_num_is_small x)) [
    | inl t ↦ rw (e, t) refl
    | inr t ↦ rw (e, t) refl
  ]
]

length-dump_jump :
    (short long : List ℕ) (relaxation offset : ℕ)
    → length (dump_jump short long relaxation offset)
      ≡ by_relaxation relaxation (length short + 1) (length long + 4)
unfolding dump_jump ser_i8_and_inc ser_le32_and_inc ser_le_loop
length-dump_jump short long relaxation offset = elim (Bool-cases (relaxation == 0)) [
  | inl e ↦ rw e (length-append short _)
  | inr e ↦ rw e (length-append long _)
]

length-dump_branch_if_zero : (r x : ℕ) → length (dump_branch_if_zero r x) ≡ 8 + by_relaxation r 2 6
unfolding dump_branch_if_zero
length-dump_branch_if_zero r x = omega (arith, length-dump_jump (0x74 ∷ []) (0x0f ∷ 0x84 ∷ []) r x)

length-dump_branch : (r x : ℕ) → length (dump_branch r x) ≡ by_relaxation r 2 5
unfolding dump_branch
length-dump_branch r x = length-dump_jump (0xeb ∷ []) (0xe9 ∷ []) r x

length-dump_loop : (r x : ℕ) → length (dump_loop r x) ≡ 9 + by_relaxation r 2 6
unfolding dump_loop
length-dump_loop r x =
    let jump = dump_jump (0x7c ∷ []) (0x0f ∷ 0x8c ∷ []) r x in
    omega (
      arith,
      length-append jump (0x83 ∷ 0xc4 ∷ 0x08 ∷ []),
      length-dump_jump (0x7c ∷ []) (0x0f ∷ 0x8c ∷ []) r x,
    )

length-dump_offset_address :
    (relaxation offset : ℕ) {n : ℕ} {bytes : List ℕ}
    → push_offset_size relaxation ≡ some n
    → dump_offset_address relaxation offset ≡ some bytes
    → length bytes ≡ n
unfolding push_offset_size dump_offset_address dump_add_offset ser_i8_and_inc ser_le32_and_inc
    ser_le_loop
length-dump_offset_address zero offset s e = rw (← some-eq_some e) (some-eq_some s)
length-dump_offset_address (suc zero) offset s e = rw (← some-eq_some e) (some-eq_some s)
length-dump_offset_address (suc (suc zero)) offset s e = rw (← some-eq_some e) (some-eq_some s)
length-dump_offset_address (suc (suc (suc r))) offset s e = cc

length-dump_builtin :
    (gen : Generated) (param : ℕ) {bytes : List ℕ}
    → dump_builtin gen param ≡ some bytes
    → (word : TableEntry) × (get_elem? gen.table param ≡ some word) × (length bytes ≡ word.len)
unfolding dump_builtin cpy_and_inc
length-dump_builtin gen param e =
    let (word, w, c) = >>=-eq-some (get_elem? gen.table param) _ e in
    elim (Bool-cases (leb word.len (length (drop word.pos gen.code)))) [
      | inl fits ↦ (
        word,
        w,
        rw (← some-eq_some (rw fits at c))
            (length-take word.len (drop word.pos gen.code) ∙ ground arith),
      )
      | inr no_room ↦ cc (rw no_room at c)
    ]

-- From a known length to the lengths that the two functions give.
fixed :
    {n k : ℕ} {bytes code : List ℕ}
    → length code ≡ k
    → some k ≡ some n
    → some code ≡ some bytes
    → length bytes ≡ n
fixed h s e = rw (← some-eq_some e) (h ∙ some-eq_some s)

module _ (gen : Generated) (all : List Fragment) (sequence : List ℕ) (i : ℕ) (needs : Flags) where
  -- For each opcode, the bytes written are as many as the size, where both are defined.
  length-dump_of :
      (op : Opcode) (f : Fragment) {n : ℕ} {bytes : List ℕ}
      → size_of gen op all f ≡ some n
      → dump_of gen op all sequence i needs f ≡ some bytes
      → length bytes ≡ n
  unfolding size_of dump_of
  length-dump_of builtin_word f s e =
      let (word, w, l) = length-dump_builtin gen f.param e in l ∙ some-eq_some (rw w at s)
  length-dump_of defined_word f s e =
      let (offset, _, e') = >>=-eq-some (branch_offset gen all sequence i f) _ e in
      fixed (ap suc (length-ser_le32 offset)) s e'
  length-dump_of runtime_word f s e =
      fixed (length-dump_runtime_word (runtime_word_offset f.param)) s e
  length-dump_of push_literal f s e = fixed (length-dump_literal f.param) s e
  length-dump_of exit_word f s e =
      let (location, l, e') = >>=-eq-some (get_elem? all f.param) _ e in
      fixed (length-dump_exit location.param) (rw l at s) e'
  length-dump_of defined_word_location f s e = fixed (length-dump_location f.param) s e
  length-dump_of push_data_address f s e = fixed (length-dump_data_address f.param) s e
  length-dump_of declare_variable f s e =
      fixed (length-dump_declare_variable (variable_offset f.param)) s e
  length-dump_of use_variable_or_constant f s e =
      fixed (length-dump_use_variable (variable_offset f.param)) s e
  length-dump_of halt f s e = fixed refl s e
  length-dump_of branch_location f s e = fixed refl s e
  length-dump_of branch_if_zero f s e =
      let (offset, _, e') = >>=-eq-some (branch_offset gen all sequence i f) _ e in
      fixed (length-dump_branch_if_zero f.relaxation offset) s e'
  length-dump_of branch f s e =
      let (offset, _, e') = >>=-eq-some (branch_offset gen all sequence i f) _ e in
      fixed (length-dump_branch f.relaxation offset) s e'
  length-dump_of do_loop f s e = fixed refl s e
  length-dump_of loop f s e =
      let (offset, _, e') = >>=-eq-some (loop_offset gen all sequence i f) _ e in
      fixed (length-dump_loop f.relaxation offset) s e'
  length-dump_of push_offset_address f s e =
      let (offset, _, e') = >>=-eq-some (address_offset gen all needs f) _ e in
      length-dump_offset_address f.relaxation offset s e'
  length-dump_of push_callback f s e = fixed (length-dump_callback (callback_offset f.param)) s e
  length-dump_of declare_constant f s e =
      fixed (length-dump_declare_constant (variable_offset f.param)) s e
  length-dump_of execute f s e = fixed refl s e
  length-dump_of thread_create f s e = fixed refl s e
  length-dump_of thread_join f s e = fixed refl s e
  length-dump_of entry f s e = fixed refl s e

length-if : (b : Bool) (xs : List ℕ) → length (if b then xs else []) ≡ (if b then length xs else 0)
length-if true xs = refl
length-if false xs = refl

-- The bytes of an instruction between its chores.
length-between :
    (gen : Generated) (needs : Flags) (code : List ℕ)
    → length (
        bytes_if gen needs.a gen.chore_a
        ++ bytes_if gen needs.b gen.chore_b
        ++ code
        ++ bytes_if gen needs.y gen.chore_y
        ++ bytes_if gen needs.z gen.chore_z)
      ≡ length code
        + size_if gen needs.a gen.chore_a
        + size_if gen needs.b gen.chore_b
        + size_if gen needs.z gen.chore_z
        + size_if gen needs.y gen.chore_y
length-between gen needs code =
    let a = bytes_if gen needs.a gen.chore_a in
    let b = bytes_if gen needs.b gen.chore_b in
    let y = bytes_if gen needs.y gen.chore_y in
    let z = bytes_if gen needs.z gen.chore_z in
    omega (
      arith,
      length-append ((a ++ b ++ code) ++ y) z,
      length-append (a ++ b ++ code) y,
      length-append (a ++ b) code,
      length-append a b,
      length-if needs.a gen.chore_a,
      length-if needs.b gen.chore_b,
      length-if needs.y gen.chore_y,
      length-if needs.z gen.chore_z,
    )

-- For every program and every fragment of it: where the size and the dump are both defined, the dump
-- writes exactly as many bytes as the size says, the chores around the instruction included.
pub fragment_bin_dump-size :
    (gen : Generated) (all : List Fragment) (sequence : List ℕ) (i n : ℕ) (bytes : List ℕ)
    → fragment_bin_size gen all sequence i ≡ some n
    → fragment_bin_dump gen all sequence i ≡ some bytes
    → length bytes ≡ n
unfolding fragment_bin_size fragment_bin_dump
fragment_bin_dump-size gen all sequence i n bytes s e =
    let (needs, needed, e₁) = >>=-eq-some (needs_at gen all sequence i) _ e in
    let (f, here, e₂) = >>=-eq-some (fragment_at all sequence i) _ e₁ in
    let (code, written, e₃) = >>=-eq-some (dump_of gen f.op all sequence i needs f) _ e₂ in
    let (size, sized, s₁) = >>=-eq-some (size_of gen f.op all f) _ (rw (needed, here) at s) in
    let l = length-dump_of gen all sequence i needs f.op f sized written in
    ap length (sym (some-eq_some e₃))
    ∙ length-between gen needs code
    ∙ ap
        (λ k.
          k
          + size_if gen needs.a gen.chore_a
          + size_if gen needs.b gen.chore_b
          + size_if gen needs.z gen.chore_z
          + size_if gen needs.y gen.chore_y)
        l
    ∙ some-eq_some s₁
