-- ===== src/X86Backend/Ready.antt =====
-- What the x86 backend asks of a program, and that its sizes and offsets are then defined.
use mcp_forth.Prelude.{
  ℕ, zero, suc, ◌+◌, ◌%◌, ◌≤◌, ◌<◌, ◌≡◌, refl, inl, inr, Bool, true, false, some, List, arith, ltb,
  ◌==◌, if◌then◌else◌, ltb→lt, Bool-cases, length, get_elem?, All, word_mod, sub_word,
  All-get_elem?, get_elem?-lt, All-mono,
}
use mcp_forth.Fragment.{
  Opcode, builtin_word, defined_word, exit_word, branch_if_zero, branch, loop, push_offset_address,
  Fragment, fragment_at,
}
use mcp_forth.Chores.{Flags}
use mcp_forth.X86Backend.{
  Generated, needs_at, branch_offset, loop_offset, address_offset, fragment_bin_size,
  push_offset_size, size_of, size_if, op_flags, flags_of, get_flags,
}
use mcp_forth.Chores.{
  flags_at, needs_below, needs_above, backend_fragment_get_needed_chores, below_up, above_down,
}

-- The opcodes whose parameter is the index of a fragment.
unfoldable pub refers : Opcode → Bool
refers defined_word = true
refers exit_word = true
refers branch_if_zero = true
refers branch = true
refers loop = true
refers push_offset_address = true
refers _ = false

-- The opcodes whose code depends on where the next fragment of the sequence stands.
unfoldable pub reads_next : Opcode → Bool
reads_next defined_word = true
reads_next branch_if_zero = true
reads_next branch = true
reads_next loop = true
reads_next _ = false

-- How often a fragment can be relaxed: a jump has two forms, an address three.
unfoldable pub limit : Opcode → ℕ
limit branch_if_zero = 1
limit branch = 1
limit loop = 1
limit push_offset_address = 2
limit _ = 0

pub limit-le : (op : Opcode) → limit op ≤ 2
unfolding limit
limit-le branch_if_zero = omega arith
limit-le branch = omega arith
limit-le loop = omega arith
limit-le push_offset_address = omega arith
limit-le op = omega arith

pub limit-lt : (op : Opcode) → limit op < 256
limit-lt op = omega (arith, limit-le op)

-- What is asked of a fragment among `n`.
pub record IsKnown (gen : Generated) (n : ℕ) (f : Fragment) : Type 0 where
  pub builtin : f.op ≡ builtin_word → f.param < length gen.table
  pub referred : refers f.op ≡ true → f.param < n
  pub relaxed : f.relaxation ≤ limit f.op

-- What is asked of a program.
pub record IsReady (gen : Generated) (n : ℕ) (sequence : List ℕ) (all : List Fragment)
    : Type 0 where
  pub count : length all ≡ n
  pub sequenced : All (λ s. s < n) sequence
  pub known : All (IsKnown gen n) all
  pub followed :
      (i : ℕ) (f : Fragment)
      → fragment_at all sequence i ≡ some f
      → reads_next f.op ≡ true
      → suc i < length sequence

flags_of-total :
    (gen : Generated) (op : Opcode) (f : Fragment)
    → (op ≡ builtin_word → f.param < length gen.table)
    → (flags : Flags) × (flags_of gen op f ≡ some flags)
unfolding flags_of
flags_of-total gen builtin_word f h =
    let (word, e) = get_elem?-lt gen.table f.param (h refl) in (word.flags, rw e refl)
flags_of-total gen op f h = (op_flags op, refl)

pub size_of-total :
    (gen : Generated) (op : Opcode) (all : List Fragment) (f : Fragment)
    → (op ≡ builtin_word → f.param < length gen.table)
    → (refers op ≡ true → f.param < length all)
    → f.relaxation ≤ limit op
    → (n : ℕ) × (size_of gen op all f ≡ some n)
unfolding size_of refers limit
size_of-total gen builtin_word all f h r l =
    let (word, e) = get_elem?-lt gen.table f.param (h refl) in (word.len, rw e refl)
size_of-total gen exit_word all f h r l =
    let (location, e) = get_elem?-lt all f.param (r refl) in
    (1 + (if location.param == 0 then 0 else 1), rw e refl)
size_of-total gen push_offset_address all f h r l = push_offset f.relaxation l
  where
    push_offset : (r : ℕ) → r ≤ 2 → (n : ℕ) × (push_offset_size r ≡ some n)
    push_offset zero l = (6, refl)
    push_offset (suc zero) l = (9, refl)
    push_offset (suc (suc zero)) l = (11, refl)
    push_offset (suc (suc (suc r))) l = absurd (omega arith)
size_of-total gen op all f h r l = (_, refl)

module _ (gen : Generated) (n : ℕ) (sequence : List ℕ) (all : List Fragment)
    (ready : IsReady gen n sequence all) where
  pub IsReady-sequenced : All (λ s. s < length all) sequence
  IsReady-sequenced = All-mono sequence (λ s h. omega (arith, ready.count)) ready.sequenced

  -- The fragment at an index of the sequence.
  pub fragment_at-total :
      (i : ℕ)
      → i < length sequence
      → (f : Fragment) × (fragment_at all sequence i ≡ some f) × IsKnown gen n f
  fragment_at-total i h =
      let (s, here) = get_elem?-lt sequence i h in
      let below = All-get_elem? (λ t. t < length all) sequence i IsReady-sequenced here in
      let (f, e) = get_elem?-lt all s below in
      (f, rw here e, All-get_elem? (IsKnown gen n) all s ready.known e)

  pub flags_at-total :
      (i : ℕ)
      → i < length sequence
      → (flags : Flags) × (flags_at (get_flags gen) all sequence i ≡ some flags)
  unfolding flags_at get_flags
  flags_at-total i h =
      let (f, e, known) = fragment_at-total i h in rw e (flags_of-total gen f.op f known.builtin)

  needs_below-total :
      (i : ℕ) (needs : Flags)
      → i < length sequence
      → (needs' : Flags) × (needs_below (get_flags gen) all sequence i needs ≡ some needs')
  unfolding needs_below
  needs_below-total zero needs h = (needs, refl)
  needs_below-total (suc i) needs h =
      let (up, e) = flags_at-total i (omega arith) in (below_up up needs, rw e refl)

  needs_above-total :
      (i : ℕ) (needs : Flags)
      → (needs' : Flags) × (needs_above (get_flags gen) all sequence i needs ≡ some needs')
  unfolding needs_above
  needs_above-total i needs = elim (Bool-cases (ltb (i + 1) (length sequence))) [
    | inl t ↦
        let (down, e) = flags_at-total (i + 1) (ltb→lt (i + 1) (length sequence) t) in
        (above_down down needs, rw (t, e) refl)
    | inr t ↦ (needs, rw t refl)
  ]

  pub needs_at-total :
      (i : ℕ) → i < length sequence → (needs : Flags) × (needs_at gen all sequence i ≡ some needs)
  unfolding needs_at backend_fragment_get_needed_chores
  needs_at-total i h =
      let (flags, e) = flags_at-total i h in
      let (below, e') = needs_below-total i flags h in
      let (needs, e'') = needs_above-total i below in (needs, rw (e, e') e'')

  pub fragment_bin_size-total :
      (i : ℕ)
      → i < length sequence
      → (size : ℕ) × (fragment_bin_size gen all sequence i ≡ some size)
  unfolding fragment_bin_size
  fragment_bin_size-total i h =
      let (needs, e) = needs_at-total i h in
      let (f, here, known) = fragment_at-total i h in
      let (size, e') =
        size_of-total gen f.op all f known.builtin
          (λ r. omega (arith, ready.count, known.referred r)) known.relaxed in
      (
        size
            + size_if gen needs.a gen.chore_a
            + size_if gen needs.b gen.chore_b
            + size_if gen needs.z gen.chore_z
            + size_if gen needs.y gen.chore_y,
        rw (e, here, e') refl,
      )

  -- The offsets of the jumps, where both ends stand in the program.
  module _ (i : ℕ) (f : Fragment) (h : f.param < n) where
    pub target-total : (target : Fragment) × (get_elem? all f.param ≡ some target)
    target-total = get_elem?-lt all f.param (omega (arith, ready.count))

    pub branch_offset-total :
        suc i < length sequence → (offset : ℕ) × (branch_offset gen all sequence i f ≡ some offset)
    unfolding branch_offset
    branch_offset-total more =
        let (target, e) = target-total in
        let (next, e', _) = fragment_at-total (i + 1) (omega arith) in
        (sub_word target.position next.position, rw (e, e') refl)

    pub loop_offset-total :
        suc i < length sequence → (offset : ℕ) × (loop_offset gen all sequence i f ≡ some offset)
    unfolding loop_offset
    loop_offset-total more =
        let (target, e) = target-total in
        let (next, e', _) = fragment_at-total (i + 1) (omega arith) in
        (sub_word target.position (sub_word next.position 3), rw (e, e') refl)

    pub address_offset-total :
        (needs : Flags) → (offset : ℕ) × (address_offset gen all needs f ≡ some offset)
    unfolding address_offset
    address_offset-total needs =
        let (target, e) = target-total in
        (
          sub_word target.position (
              (f.position + size_if gen needs.a gen.chore_a + size_if gen needs.b gen.chore_b + 5)
              % word_mod),
          rw e refl,
        )
