-- ===== src/Esp32s3Backend/Dump.antt =====
-- The machine code that the ESP32-S3 backend writes: `fragment_bin_dump` of esp32s3_backend.c.
use mcp_forth.Prelude.{
  ℕ, ◌+◌, ◌-◌, ◌%◌, Bool, true, false, Option, none, some, List, [], ◌∷◌, ◌++◌, ltb, leb, ◌==◌,
  if◌then◌else◌, length, get_elem?, take, drop, replicate, mul_word, codes,
}
use mcp_forth.Fragment.{
  Opcode, builtin_word, defined_word, runtime_word, push_literal, exit_word, defined_word_location,
  push_data_address, declare_variable, use_variable_or_constant, halt, branch_location,
  branch_if_zero, branch, do_loop, loop, push_offset_address, push_callback, declare_constant,
  execute, thread_create, thread_join, entry, Fragment, fragment_at,
}
use mcp_forth.X86Backend.{Generated}
use mcp_forth.Esp32s3Backend.{
  lr, sp, cs, rs, rb, dp, va, rc, s1, n4, ds, dt, s0, dso, rso, data_offset_in_cs, callback_targets,
  bin_start, minus, l32i_n, s32i_n, add_n, call0, nop_n, callx0, mov_n, movi_n, ret_n, addi_n, l32i,
  addi, and_reg,
}
use mcp_forth.Esp32s3Backend.Auto.{
  S, ◌>>=◌, pure, lift, both, s32i_l32i_auto, movi_auto, addi_relaxed, addi_auto,
}
use mcp_forth.Esp32s3Backend.Branch.{j, branch_distance, beqz_auto, blt_auto}
use mcp_forth.Esp32s3Backend.Flags.{needs_at}

-- Instructions one behind the other; an assertion that fails in one fails in all.
unfoldable pub chain : List (Option (List ℕ)) → Option (List ℕ)
unfolding both
chain [] = some []
chain (code ∷ codes) = both code (chain codes)

-- `memcpy` of `n` bytes; `none` is a read out of bounds.
unfoldable pub cpy_and_inc : List ℕ → ℕ → Option (List ℕ)
cpy_and_inc src n = if leb n (length src) then some (take n src) else none

-- A call is moved so that the instruction behind it is at 0 or 1 modulo 4.
abbrev pub nop_if_needed : ℕ → List ℕ
nop_if_needed pos = if leb ((pos + 3) % 4) 1 then [] else nop_n

-- The position behind the `nop`.
abbrev pub call_pos : ℕ → ℕ
call_pos pos = if leb ((pos + 3) % 4) 1 then pos else pos + 2

unfoldable pub dump_exit : ℕ → Option (List ℕ)
unfolding chain mov_n l32i_n add_n
dump_exit param =
    if param == 1
    then chain (mov_n rs rb ∷ l32i_n rb rs (rso + 4) ∷ some ret_n ∷ [])
    else (if param == 2
        then chain (add_n rs rs n4 ∷ l32i_n lr rs (rso + 4) ∷ some ret_n ∷ [])
        else (if param == 3
            then chain
                (mov_n rs rb ∷ l32i_n rb rs (rso + 4) ∷ l32i_n lr rs (rso + 8) ∷ some ret_n ∷ [])
            else some ret_n))

unfoldable pub dump_location : ℕ → Option (List ℕ)
unfolding chain mov_n s32i_n addi_n
dump_location param =
    if param == 1
    then chain (s32i_n rb rs (rso + 4) ∷ mov_n rb rs ∷ addi_n rs rs 4 ∷ [])
    else (if param == 2
        then chain (s32i_n lr rs (rso + 4) ∷ addi_n rs rs 4 ∷ [])
        else (if param == 3
            then chain (
                s32i_n rb rs (rso + 4) ∷ s32i_n lr rs (rso + 8) ∷ mov_n rb rs ∷ addi_n rs rs 8 ∷ [])
            else some []))

-- The call to the engine's function for runtime words and threads, at a position.
unfoldable pub dump_callx0 : ℕ → Option (List ℕ)
unfolding chain callx0
dump_callx0 pos = chain (some (nop_if_needed pos) ∷ callx0 rc ∷ [])

unfoldable pub dump_execute : ℕ → Option (List ℕ)
unfolding chain mov_n l32i_n add_n l32i addi callx0
dump_execute pos =
    if leb ((pos + 2 + 4 + 3) % 4) 1
    then chain (mov_n s0 dt ∷ l32i_n dt ds dso ∷ add_n ds ds n4 ∷ callx0 s0 ∷ [])
    else chain (mov_n s0 dt ∷ l32i dt ds dso ∷ addi ds ds (minus 4) ∷ callx0 s0 ∷ [])

abbrev pub dump_do : Option (List ℕ)
dump_do = chain (
    l32i_n s0 ds dso
    ∷ addi_n rs rs 8
    ∷ s32i_n s0 rs (rso - 4)
    ∷ s32i_n dt rs rso
    ∷ l32i_n dt ds (dso - 4)
    ∷ addi ds ds (minus 8)
    ∷ [])

abbrev pub dump_loop : Option (List ℕ) → Option (List ℕ)
dump_loop jump = chain (
    l32i_n s0 rs rso
    ∷ addi_n s0 s0 1
    ∷ s32i_n s0 rs rso
    ∷ l32i_n s1 rs (rso - 4)
    ∷ jump
    ∷ addi rs rs (minus 8)
    ∷ [])

abbrev pub dump_branch_if_zero : Option (List ℕ) → Option (List ℕ)
dump_branch_if_zero jump = chain (mov_n s0 dt ∷ l32i_n dt ds dso ∷ add_n ds ds n4 ∷ jump ∷ [])

-- The assignment to a variable's cell of a value in a register.
unfoldable pub store_variable : ℕ → ℕ → S (List ℕ)
unfolding s32i_l32i_auto
store_variable reg param = s32i_l32i_auto true reg va (mul_word param 4) s0

module _ (gen : Generated) where
  unfoldable pub dump_builtin : ℕ → Option (List ℕ)
  unfolding cpy_and_inc
  dump_builtin param = elim (get_elem? gen.table param) [
    | none ↦ none
    | some word ↦ cpy_and_inc (drop word.pos gen.code) word.len
  ]

  -- The `switch` of `fragment_bin_dump`, for an instruction that starts at `pos`. The case of
  -- M4_OPCODE_PUSH_CALLBACK has no `break`: that of M4_OPCODE_DECLARE_CONSTANT follows.
  unfoldable pub dump_of : Opcode → List Fragment → Fragment → ℕ → S (List ℕ)
  unfolding dump_builtin dump_exit dump_location dump_callx0 dump_execute chain call0 movi_auto
      addi_auto addi_relaxed s32i_l32i_auto store_variable addi_n and_reg l32i_n s32i_n mov_n add_n
      addi movi_n beqz_auto blt_auto j
  dump_of builtin_word all f pos = lift (dump_builtin f.param)
  dump_of defined_word all f pos = do
    target ← lift (get_elem? all f.param)
    lift (chain (some (nop_if_needed pos) ∷ call0 target.position (call_pos pos) ∷ []))
  dump_of runtime_word all f pos = do
    loaded ← movi_auto s0 f.param
    called ← lift (dump_callx0 (pos + length loaded))
    pure (loaded ++ called)
  dump_of push_literal all f pos = movi_auto dt f.param
  dump_of exit_word all f pos = do
    location ← lift (get_elem? all f.param)
    lift (dump_exit location.param)
  dump_of defined_word_location all f pos = lift (dump_location f.param)
  dump_of push_data_address all f pos = do
    loaded ← lift (l32i_n dt cs data_offset_in_cs)
    added ← addi_auto dt dt f.param s0
    pure (loaded ++ added)
  dump_of declare_variable all f pos = do
    aligned ← lift (chain (addi_n dp dp 3 ∷ and_reg dp dp n4 ∷ []))
    stored ← store_variable dp f.param
    moved ← lift (addi_n dp dp 4)
    pure (aligned ++ stored ++ moved)
  dump_of use_variable_or_constant all f pos = s32i_l32i_auto false dt va (mul_word f.param 4) s0
  dump_of halt all f pos = lift (chain (l32i_n lr sp 4 ∷ some ret_n ∷ []))
  dump_of branch_location all f pos = pure []
  dump_of branch_if_zero all f pos = do
    target ← lift (get_elem? all f.param)
    lift (dump_branch_if_zero (beqz_auto f.relaxation s0 target.position (pos + 6)))
  dump_of branch all f pos = do
    target ← lift (get_elem? all f.param)
    lift (j (branch_distance target.position pos))
  dump_of do_loop all f pos = lift dump_do
  dump_of loop all f pos = do
    target ← lift (get_elem? all f.param)
    lift (dump_loop (blt_auto f.relaxation s0 s1 target.position (pos + 8)))
  dump_of push_offset_address all f pos = do
    loaded ← lift (l32i_n dt cs bin_start)
    target ← lift (get_elem? all f.param)
    added ← addi_relaxed f.relaxation dt dt target.position s0
    pure (loaded ++ added)
  dump_of push_callback all f pos = do
    loaded ← lift (l32i_n dt cs callback_targets)
    callback ← s32i_l32i_auto false dt dt (mul_word f.param 4) s0
    stored ← store_variable dt f.param
    pure (loaded ++ callback ++ stored)
  dump_of declare_constant all f pos = store_variable dt f.param
  dump_of execute all f pos = lift (dump_execute pos)
  dump_of thread_create all f pos = do
    loaded ← lift (movi_n s0 (minus 1))
    called ← lift (dump_callx0 (pos + length loaded))
    pure (loaded ++ called)
  dump_of thread_join all f pos = do
    loaded ← lift (movi_n s0 (minus 2))
    called ← lift (dump_callx0 (pos + length loaded))
    pure (loaded ++ called)
  dump_of entry all f pos = lift (s32i_n lr sp 4)

  abbrev pub bytes_if : Bool → List ℕ → List ℕ
  bytes_if need chore = if need then chore else []

  -- What aligns the next fragment, at the address behind this one.
  unfoldable pub align_bytes : Opcode → ℕ → List ℕ
  align_bytes defined_word_location dst = replicate ((4 - dst % 4) % 4) 0
  align_bytes branch_location dst = if leb (dst % 4) 1 then [] else nop_n
  align_bytes _ dst = []

  unfoldable pub next_padding : List Fragment → List ℕ → ℕ → ℕ → Option (List ℕ)
  unfolding align_bytes
  next_padding all_fragments sequence sequence_i dst =
      if ltb (sequence_i + 1) (length sequence)
      then elim (fragment_at all_fragments sequence (sequence_i + 1)) [
        | none ↦ none
        | some next ↦ some (align_bytes next.op dst)
      ]
      else some []

  -- The bytes written from the address `dst` on.
  unfoldable pub fragment_bin_dump : List Fragment → List ℕ → ℕ → ℕ → S (List ℕ)
  unfolding needs_at dump_of next_padding
  fragment_bin_dump all_fragments sequence sequence_i dst = do
    needs ← lift (needs_at gen all_fragments sequence sequence_i)
    f ← lift (fragment_at all_fragments sequence sequence_i)
    let front = bytes_if needs.a gen.chore_a ++ bytes_if needs.b gen.chore_b
    code ← dump_of f.op all_fragments f (f.position + length front)
    let whole = front ++ code ++ bytes_if needs.y gen.chore_y ++ bytes_if needs.z gen.chore_z
    padding ← lift (next_padding all_fragments sequence sequence_i (dst + length whole))
    pure (whole ++ padding)
