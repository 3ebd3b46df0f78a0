-- ===== src/Esp32s3Backend/Flags.antt =====
-- The ESP32-S3 backend's flags and sizes, and what can be encoded.
use mcp_forth.Prelude.{
  ℕ, ◌+◌, ◌-◌, ◌%◌, Bool, true, false, ◌||◌, Option, none, some, List, ltb, leb, ◌==◌,
  if◌then◌else◌, length, get_elem?, mul_word,
}
use mcp_forth.Fragment.{
  Opcode, builtin_word, defined_word, runtime_word, push_literal, exit_word, defined_word_location,
  push_data_address, declare_variable, use_variable_or_constant, halt, branch_location,
  branch_if_zero, branch, do_loop, loop, push_offset_address, push_callback, declare_constant,
  execute, thread_create, thread_join, entry, Fragment, fragment_at,
}
use mcp_forth.Chores.{Flags, no_flags, backend_fragment_get_needed_chores}
use mcp_forth.X86Backend.{Generated, pushes, pops}
use mcp_forth.Esp32s3Backend.Auto.{
  S, ◌>>=◌, pure, lift, s32i_l32i_auto_size, movi_auto_size, addi_representable, addi_relaxed_size,
  addi_auto_size,
}
use mcp_forth.Esp32s3Backend.Branch.{
  beqz_auto_size, beqz_auto_is_representable, blt_auto_size, blt_auto_is_representable,
}

unfoldable pub op_flags : Opcode → Flags
op_flags push_literal = pushes
op_flags push_data_address = pushes
op_flags use_variable_or_constant = pushes
op_flags push_offset_address = pushes
op_flags push_callback = pushes
op_flags declare_constant = pops
op_flags _ = no_flags

-- `if((pos + 3) % 4 > 1)` a call is preceded by a `nop`.
abbrev pub call_size : ℕ → ℕ
call_size pos = if leb ((pos + 3) % 4) 1 then 3 else 5

-- The frame that a defined word keeps, by the bits of its parameter.
unfoldable pub exit_size : ℕ → ℕ
exit_size param = if param == 1 || param == 2 then 6 else (if param == 3 then 8 else 2)

unfoldable pub location_size : ℕ → ℕ
location_size param =
    if param == 1 then 6 else (if param == 2 then 4 else (if param == 3 then 8 else 0))

-- The sum of what precedes and a size that may fail.
abbrev pub plus : ℕ → Option ℕ → Option ℕ
plus size none = none
plus size (some more) = some (size + more)

module _ (gen : Generated) where
  unfoldable pub flags_of : Opcode → Fragment → Option Flags
  unfolding op_flags
  flags_of builtin_word f = elim (get_elem? gen.table f.param) [
    | none ↦ none
    | some word ↦ some word.flags
  ]
  flags_of op f = some (op_flags op)

  unfoldable pub get_flags : Fragment → Option Flags
  unfolding flags_of
  get_flags f = flags_of f.op f

  unfoldable pub needs_at : List Fragment → List ℕ → ℕ → Option Flags
  unfolding get_flags
  needs_at all_fragments sequence sequence_i =
      backend_fragment_get_needed_chores get_flags all_fragments sequence sequence_i

  abbrev pub size_if : Bool → List ℕ → ℕ
  size_if need chore = if need then length chore else 0

  -- The chores in front.
  abbrev pub front_size : Flags → ℕ
  front_size needs = size_if needs.a gen.chore_a + size_if needs.b gen.chore_b

  -- The `switch` of `fragment_bin_size`: the size of the instruction that starts at `pos`.
  unfoldable pub size_of : Opcode → List Fragment → Fragment → ℕ → S ℕ
  unfolding exit_size location_size movi_auto_size addi_auto_size s32i_l32i_auto_size beqz_auto_size
      blt_auto_size addi_relaxed_size
  size_of builtin_word all f pos = do word ← lift (get_elem? gen.table f.param); pure word.len
  size_of defined_word all f pos = pure (call_size pos)
  size_of runtime_word all f pos = do
    size ← movi_auto_size f.param
    pure (size + call_size (pos + size))
  size_of push_literal all f pos = movi_auto_size f.param
  size_of exit_word all f pos = do
    location ← lift (get_elem? all f.param)
    pure (exit_size location.param)
  size_of defined_word_location all f pos = pure (location_size f.param)
  size_of push_data_address all f pos = do size ← addi_auto_size f.param; pure (2 + size)
  size_of declare_variable all f pos = do
    size ← s32i_l32i_auto_size (mul_word f.param 4)
    pure (7 + size)
  size_of use_variable_or_constant all f pos = s32i_l32i_auto_size (mul_word f.param 4)
  size_of halt all f pos = pure 4
  size_of branch_location all f pos = pure 0
  size_of branch_if_zero all f pos = lift (plus 6 (beqz_auto_size f.relaxation (pos + 6)))
  size_of branch all f pos = pure 3
  size_of do_loop all f pos = pure 13
  size_of loop all f pos = lift (plus 11 (blt_auto_size f.relaxation (pos + 8)))
  size_of push_offset_address all f pos = lift (plus 2 (addi_relaxed_size f.relaxation))
  size_of push_callback all f pos = do
    size ← s32i_l32i_auto_size (mul_word f.param 4)
    pure (2 + size)
  size_of declare_constant all f pos = s32i_l32i_auto_size (mul_word f.param 4)
  size_of execute all f pos = pure (6 + (if leb ((pos + 6 + 3) % 4) 1 then 3 else 5))
  size_of thread_create all f pos = pure (2 + call_size (pos + 2))
  size_of thread_join all f pos = pure (2 + call_size (pos + 2))
  size_of entry all f pos = pure 2

  -- What aligns the next fragment, from the position behind this one.
  unfoldable pub align_size : Opcode → ℕ → ℕ
  align_size defined_word_location pos = (4 - pos % 4) % 4
  align_size branch_location pos = if leb (pos % 4) 1 then 0 else 2
  align_size _ pos = 0

  -- `if(sequence_i + 1 < sequence_len)`: the opcode that the alignment goes by.
  unfoldable pub next_align : List Fragment → List ℕ → ℕ → ℕ → Option ℕ
  unfolding align_size
  next_align all_fragments sequence sequence_i pos =
      if ltb (sequence_i + 1) (length sequence)
      then elim (fragment_at all_fragments sequence (sequence_i + 1)) [
        | none ↦ none
        | some next ↦ some (align_size next.op pos)
      ]
      else some 0

  unfoldable pub fragment_bin_size : List Fragment → List ℕ → ℕ → S ℕ
  unfolding needs_at size_of next_align
  fragment_bin_size all_fragments sequence sequence_i = do
    needs ← lift (needs_at all_fragments sequence sequence_i)
    f ← lift (fragment_at all_fragments sequence sequence_i)
    size ← size_of f.op all_fragments f (f.position + front_size needs)
    let whole = front_size needs + size + size_if needs.z gen.chore_z + size_if needs.y gen.chore_y
    padding ← lift (next_align all_fragments sequence sequence_i (f.position + whole))
    pure (whole + padding)

  -- `start_chores_len`
  unfoldable pub start_chores_len : List Fragment → List ℕ → ℕ → Option ℕ
  unfolding needs_at
  start_chores_len all_fragments sequence sequence_i =
      elim (needs_at all_fragments sequence sequence_i) [
        | none ↦ none
        | some needs ↦ some (front_size needs)
      ]

  -- The two `switch`es of `fragment_bin_is_representable`.
  unfoldable pub representable_of : Opcode → List Fragment → List ℕ → ℕ → Fragment → S Bool
  unfolding start_chores_len beqz_auto_is_representable blt_auto_is_representable addi_representable
  representable_of branch_if_zero all sequence i f = do
    start ← lift (start_chores_len all sequence i)
    target ← lift (get_elem? all f.param)
    lift (beqz_auto_is_representable f.relaxation target.position (f.position + start))
  representable_of loop all sequence i f = do
    start ← lift (start_chores_len all sequence i)
    target ← lift (get_elem? all f.param)
    lift (blt_auto_is_representable f.relaxation target.position (f.position + start))
  representable_of push_offset_address all sequence i f = do
    target ← lift (get_elem? all f.param)
    addi_representable f.relaxation target.position
  representable_of _ all sequence i f = pure true

  unfoldable pub fragment_bin_is_representable : List Fragment → List ℕ → ℕ → S Bool
  unfolding representable_of
  fragment_bin_is_representable all_fragments sequence sequence_i = do
    f ← lift (fragment_at all_fragments sequence sequence_i)
    representable_of f.op all_fragments sequence sequence_i f

-- `op_uses_lr`
unfoldable pub op_uses_lr : Opcode → Bool
op_uses_lr defined_word = true
op_uses_lr runtime_word = true
op_uses_lr execute = true
op_uses_lr thread_create = true
op_uses_lr thread_join = true
op_uses_lr _ = false
