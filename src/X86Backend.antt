-- ===== src/X86Backend.antt =====
-- The backend for x86 processors, x86-32_backend.c: sizes, and what can be encoded.
pub mod Dump
pub mod Sizes
pub mod Ready
pub mod Relax
pub mod Move
pub mod Jumps
pub mod Reach
pub mod Total
mod Tests
use mcp_forth.Prelude.{
  ℕ, zero, suc, ◌+◌, ◌-◌, ◌*◌, ◌/◌, ◌%◌, ◌^◌, ◌≤◌, ◌<◌, min, bit_and, bit_or, bit_xor, ◌≡◌, refl,
  sym, ap, ap₂, ◌∙◌, subst, ◌≢◌, ◌↔◌, ◌⊎◌, inl, inr, Bool, true, false, not, ◌&&◌, ◌||◌, Option,
  none, some, List, [], ◌∷◌, ◌++◌, map, append-nil, append_assoc, arith, ltb, leb, ◌==◌,
  if◌then◌else◌, ltb→lt, lt→ltb, le→ltb_false, ltb_false→le, leb→le, ==_iff, tests, Bool-cases,
  Option-cases, holds_below, holds_below-at, agree_below, length, get_elem?, set, length-append,
  length-set, get_elem?-set_self, get_elem?-set_ne, get_or, take, drop, replicate, length-map, All,
  All-append, some-eq_some, IsByte, bit_and-7f, bit_and_80, bit_and_40, bit_and-3f, bit_or_80,
  bit_or_40, word_mod, IsWord, minus_one, is_negative, invert, add_word, sub_word, mul_word, bias,
  slt, sle, codes, if_intro, bytes_eq, bytes_eq_iff, ◌>>=◌, >>=-eq-some, All-set, All-get_elem?,
  get_elem?-lt, get_elem?-some_lt, drop-cons, add_word-sub_word, sub_word-add_word, length-drop,
  length-take, get_elem?-none_le, take-append-drop, get_elem?-append, get_elem?-append_length,
  All-mono,
}
use mcp_forth.Fragment.{
  Opcode, builtin_word, defined_word, runtime_word, push_literal, exit_word, defined_word_location,
  push_data_address, declare_variable, use_variable_or_constant, halt, branch_location,
  branch_if_zero, branch, do_loop, loop, push_offset_address, push_callback, declare_constant,
  execute, thread_create, thread_join, entry, Fragment, Backend, fragment_at,
}
use mcp_forth.Chores.{Flags, no_flags, backend_fragment_get_needed_chores}
use mcp_forth.Chores.Boundary.{IsPaired}
use mcp_forth.Source.Names.{builtins}

-- `m4_backend_table_entry_t`
pub record TableEntry : Type 0 where
  pub pos : ℕ
  pub len : ℕ
  pub flags : Flags

-- The arrays of the generated file x86_32_backend_generated.c: parameters of the backend.
pub record Generated : Type 0 where
  pub table : List TableEntry
  pub code : List ℕ
  pub chore_a : List ℕ
  pub chore_b : List ℕ
  pub chore_y : List ℕ
  pub chore_z : List ℕ

-- What the generator ensures: an entry for each of the builtin words, its code within the array, and
-- its flags paired.
pub record IsGenerated (gen : Generated) : Type 0 where
  pub covers : length gen.table ≡ length builtins
  pub inside : All (λ word. word.pos + word.len ≤ length gen.code) gen.table
  pub paired : All (λ word. IsPaired word.flags) gen.table

-- `num >= -128 && num <= 127`
unfoldable pub asm_num_is_small : ℕ → Bool
asm_num_is_small num = sle 4294967168 num && sle num 127

-- `(param + 1) * 4`
abbrev pub runtime_word_offset : ℕ → ℕ
runtime_word_offset param = mul_word (add_word param 1) 4

-- `-param * 4`
abbrev pub variable_offset : ℕ → ℕ
variable_offset param = mul_word (sub_word 0 param) 4

-- `param * 4`
abbrev pub callback_offset : ℕ → ℕ
callback_offset param = mul_word param 4

-- Flags that several opcodes have: they push a new top, or they pop one.
abbrev pub pushes : Flags
pushes = record { a = true; b = true; clob = true; y = false; z = false }

abbrev pub pops : Flags
pops = record { a = false; b = false; clob = false; y = true; z = true }

unfoldable pub op_flags : Opcode → Flags
op_flags push_literal = pushes
op_flags push_data_address = pushes
op_flags use_variable_or_constant = pushes
op_flags push_offset_address = pushes
op_flags push_callback = pushes
op_flags declare_constant = pops
op_flags _ = no_flags

-- The size of an immediate or a displacement by its value.
abbrev pub by_value : ℕ → ℕ → ℕ → ℕ
by_value num small large = if asm_num_is_small num then small else large

-- The size of a jump by its relaxation.
abbrev pub by_relaxation : ℕ → ℕ → ℕ → ℕ
by_relaxation relaxation small large = if relaxation == 0 then small else large

-- `switch(fragment->relaxation)` of M4_OPCODE_PUSH_OFFSET_ADDRESS
unfoldable pub push_offset_size : ℕ → Option ℕ
push_offset_size zero = some 6
push_offset_size (suc zero) = some 9
push_offset_size (suc (suc zero)) = some 11
push_offset_size _ = none

module _ (gen : Generated) where
  -- The `switch` of `get_flags`; no opcode is outside it.
  unfoldable pub flags_of : Opcode → Fragment → Option Flags
  unfolding op_flags
  flags_of builtin_word f = do word ← get_elem? gen.table f.param; some word.flags
  flags_of op f = some (op_flags op)

  unfoldable pub get_flags : Fragment → Option Flags
  unfolding flags_of
  get_flags f = flags_of f.op f

  -- The chores that are left around the fragment at an index of the sequence.
  unfoldable pub needs_at : List Fragment → List ℕ → ℕ → Option Flags
  unfolding get_flags
  needs_at all_fragments sequence sequence_i =
      backend_fragment_get_needed_chores get_flags all_fragments sequence sequence_i

  -- The `switch` of `fragment_bin_size`.
  unfoldable pub size_of : Opcode → List Fragment → Fragment → Option ℕ
  unfolding asm_num_is_small push_offset_size
  size_of builtin_word all f = do word ← get_elem? gen.table f.param; some word.len
  size_of defined_word all f = some 5
  size_of runtime_word all f = some (3 + by_value (runtime_word_offset f.param) 3 6)
  size_of push_literal all f = some (if f.param == 0 then 2 else 5)
  size_of exit_word all f = do
    location ← get_elem? all f.param
    some (1 + (if location.param == 0 then 0 else 1))
  size_of defined_word_location all f = some (if f.param == 0 then 0 else 3)
  size_of push_data_address all f = some (3 + (if f.param == 0 then 0 else by_value f.param 3 5))
  size_of declare_variable all f = some (9 + by_value (variable_offset f.param) 3 6)
  size_of use_variable_or_constant all f = some (by_value (variable_offset f.param) 3 6)
  size_of halt all f = some 1
  size_of branch_location all f = some 0
  size_of branch_if_zero all f = some (8 + by_relaxation f.relaxation 2 6)
  size_of branch all f = some (by_relaxation f.relaxation 2 5)
  size_of do_loop all f = some 9
  size_of loop all f = some (9 + by_relaxation f.relaxation 2 6)
  size_of push_offset_address all f = push_offset_size f.relaxation
  size_of push_callback all f = some (3 + by_value (callback_offset f.param) 3 6)
  size_of declare_constant all f = some (by_value (variable_offset f.param) 3 6)
  size_of execute all f = some 9
  size_of thread_create all f = some 6
  size_of thread_join all f = some 9
  size_of entry all f = some 0

  -- `needs & flag` adds the size of the chore.
  abbrev pub size_if : Bool → List ℕ → ℕ
  size_if need chore = if need then length chore else 0

  unfoldable pub fragment_bin_size : List Fragment → List ℕ → ℕ → Option ℕ
  unfolding needs_at size_of
  fragment_bin_size all_fragments sequence sequence_i = do
    needs ← needs_at all_fragments sequence sequence_i
    f ← fragment_at all_fragments sequence sequence_i
    size ← size_of f.op all_fragments f
    some (
        size
        + size_if needs.a gen.chore_a
        + size_if needs.b gen.chore_b
        + size_if needs.z gen.chore_z
        + size_if needs.y gen.chore_y)

  -- `all_fragments[fragment->param].position - all_fragments[sequence[sequence_i + 1]].position`
  unfoldable pub branch_offset : List Fragment → List ℕ → ℕ → Fragment → Option ℕ
  branch_offset all_fragments sequence sequence_i f = do
    target ← get_elem? all_fragments f.param
    next ← fragment_at all_fragments sequence (sequence_i + 1)
    some (sub_word target.position next.position)

  -- The same for the jump of a loop, which three bytes follow.
  unfoldable pub loop_offset : List Fragment → List ℕ → ℕ → Fragment → Option ℕ
  loop_offset all_fragments sequence sequence_i f = do
    target ← get_elem? all_fragments f.param
    next ← fragment_at all_fragments sequence (sequence_i + 1)
    some (sub_word target.position (sub_word next.position 3))

  -- The distance from the label `.L0`, behind the chores in front and a call of five bytes.
  unfoldable pub address_offset : List Fragment → Flags → Fragment → Option ℕ
  address_offset all_fragments needs f = do
    target ← get_elem? all_fragments f.param
    some (
        sub_word target.position
          ((f.position + size_if needs.a gen.chore_a + size_if needs.b gen.chore_b + 5) % word_mod))

  -- A jump with its relaxation: at 0 the offset has to be small, and more than 1 fails an assertion.
  unfoldable pub jump_is_representable : ℕ → Option ℕ → Option Bool
  unfolding asm_num_is_small
  jump_is_representable zero offset = do num ← offset; some (asm_num_is_small num)
  jump_is_representable (suc zero) offset = some true
  jump_is_representable _ offset = none

  unfoldable pub address_is_representable : ℕ → ℕ → Option Bool
  unfolding asm_num_is_small
  address_is_representable zero offset = some (offset == 0)
  address_is_representable (suc zero) offset = some (asm_num_is_small offset)
  address_is_representable (suc (suc zero)) offset = some true
  address_is_representable _ offset = none

  unfoldable pub representable_of : Opcode → List Fragment → List ℕ → ℕ → Fragment → Option Bool
  unfolding jump_is_representable address_is_representable branch_offset loop_offset address_offset
      needs_at
  representable_of branch_if_zero all sequence i f =
      jump_is_representable f.relaxation (branch_offset all sequence i f)
  representable_of branch all sequence i f =
      jump_is_representable f.relaxation (branch_offset all sequence i f)
  representable_of loop all sequence i f =
      jump_is_representable f.relaxation (loop_offset all sequence i f)
  representable_of push_offset_address all sequence i f = do
    needs ← needs_at all sequence i
    offset ← address_offset all needs f
    address_is_representable f.relaxation offset
  representable_of _ all sequence i f = some true

  unfoldable pub fragment_bin_is_representable : List Fragment → List ℕ → ℕ → Option Bool
  unfolding representable_of
  fragment_bin_is_representable all_fragments sequence sequence_i = do
    f ← fragment_at all_fragments sequence sequence_i
    representable_of f.op all_fragments sequence sequence_i f
