-- ===== src/X86Backend/Dump.antt =====
-- The machine code that the x86 backend writes: `fragment_bin_dump` of x86-32_backend.c.
use mcp_forth.Prelude.{
  ℕ, zero, suc, ◌/◌, ◌%◌, Bool, Option, none, some, List, [], ◌∷◌, ◌++◌, leb, ◌==◌, if◌then◌else◌,
  length, get_elem?, take, drop, ◌>>=◌,
}
use mcp_forth.Fragment.{
  Opcode, builtin_word, defined_word, runtime_word, push_literal, exit_word, defined_word_location,
  push_data_address, declare_variable, use_variable_or_constant, halt, branch_location,
  branch_if_zero, branch, do_loop, loop, push_offset_address, push_callback, declare_constant,
  execute, thread_create, thread_join, entry, Fragment, Backend, fragment_at,
}
use mcp_forth.Chores.{Flags}
use mcp_forth.X86Backend.{
  Generated, asm_num_is_small, runtime_word_offset, variable_offset, callback_offset, needs_at,
  branch_offset, loop_offset, address_offset, fragment_bin_size, fragment_bin_is_representable,
}

-- `memcpy` of `n` bytes; `none` is a read out of bounds.
unfoldable pub cpy_and_inc : List ℕ → ℕ → Option (List ℕ)
cpy_and_inc src n = if leb n (length src) then some (take n src) else none

-- The loop over the bytes, the lowest first.
unfoldable pub ser_le_loop : ℕ → ℕ → List ℕ
ser_le_loop zero u = []
ser_le_loop (suc count) u = u % 256 ∷ ser_le_loop count (u / 256)

unfoldable pub ser_le32_and_inc : ℕ → List ℕ
unfolding ser_le_loop
ser_le32_and_inc x = ser_le_loop 4 x

-- The low byte: conversion to `int8_t` and its pattern.
unfoldable pub i8_as_byte : ℕ → ℕ
i8_as_byte x = x % 256

unfoldable pub ser_i8_and_inc : ℕ → List ℕ
unfolding i8_as_byte
ser_i8_and_inc x = i8_as_byte x ∷ []

unfoldable pub ser_i8_or_le32_and_inc : ℕ → List ℕ
unfolding asm_num_is_small ser_i8_and_inc ser_le32_and_inc
ser_i8_or_le32_and_inc x = if asm_num_is_small x then ser_i8_and_inc x else ser_le32_and_inc x

-- `asm_num_is_small(offset) ? small : large` for the byte that tells the size of the operand.
abbrev pub mod_rm : ℕ → ℕ → ℕ → ℕ
mod_rm offset small large = if asm_num_is_small offset then small else large

-- `mov ecx, [edi+...]` and `call [esi+36]`
unfoldable pub dump_runtime_word : ℕ → List ℕ
unfolding ser_i8_or_le32_and_inc
dump_runtime_word offset =
    0x8b ∷ mod_rm offset 0x4f 0x8f ∷ (ser_i8_or_le32_and_inc offset ++ 0xff ∷ 0x56 ∷ 0x24 ∷ [])

-- `mov eax, ...` or `xor eax, eax`
unfoldable pub dump_literal : ℕ → List ℕ
unfolding ser_le32_and_inc
dump_literal param = if param == 0 then 0x31 ∷ 0xc0 ∷ [] else 0xb8 ∷ ser_le32_and_inc param

-- `leave`, if the word has a frame, and `ret`
unfoldable pub dump_exit : ℕ → List ℕ
dump_exit frame = if frame == 0 then 0xc3 ∷ [] else 0xc9 ∷ 0xc3 ∷ []

-- `push ebp` and `mov ebp, esp`, if the word has a frame
unfoldable pub dump_location : ℕ → List ℕ
dump_location frame = if frame == 0 then [] else 0x55 ∷ 0x89 ∷ 0xe5 ∷ []

-- `mov eax, [esi+16]` and `add eax, ...`
unfoldable pub dump_data_address : ℕ → List ℕ
unfolding ser_i8_or_le32_and_inc
dump_data_address param =
    0x8b
    ∷ 0x46
    ∷ 0x10
    ∷ (if param == 0
        then []
        else (if asm_num_is_small param then 0x83 ∷ 0xc0 ∷ [] else 0x05 ∷ [])
          ++ ser_i8_or_le32_and_inc param)

-- The data-space pointer edx is aligned, stored and moved behind the variable.
unfoldable pub dump_declare_variable : ℕ → List ℕ
unfolding ser_i8_or_le32_and_inc
dump_declare_variable offset =
    0x83
    ∷ 0xc2
    ∷ 0x03
    ∷ 0x83
    ∷ 0xe2
    ∷ 0xfc
    ∷ 0x89
    ∷ mod_rm offset 0x57 0x97
    ∷ (ser_i8_or_le32_and_inc offset ++ 0x83 ∷ 0xc2 ∷ 0x04 ∷ [])

-- `mov eax, [edi+...]`
unfoldable pub dump_use_variable : ℕ → List ℕ
unfolding ser_i8_or_le32_and_inc
dump_use_variable offset = 0x8b ∷ mod_rm offset 0x47 0x87 ∷ ser_i8_or_le32_and_inc offset

-- `mov [edi+...], eax`
unfoldable pub dump_declare_constant : ℕ → List ℕ
unfolding ser_i8_or_le32_and_inc
dump_declare_constant offset = 0x89 ∷ mod_rm offset 0x47 0x87 ∷ ser_i8_or_le32_and_inc offset

-- `mov eax, [esi+40]` and `mov eax, [eax+...]`
unfoldable pub dump_callback : ℕ → List ℕ
unfolding ser_i8_or_le32_and_inc
dump_callback offset =
    0x8b ∷ 0x46 ∷ 0x28 ∷ 0x8b ∷ mod_rm offset 0x40 0x80 ∷ ser_i8_or_le32_and_inc offset

-- A jump in its short or its long form, by the relaxation.
unfoldable pub dump_jump : List ℕ → List ℕ → ℕ → ℕ → List ℕ
unfolding ser_i8_and_inc ser_le32_and_inc
dump_jump short long relaxation offset =
    if relaxation == 0 then short ++ ser_i8_and_inc offset else long ++ ser_le32_and_inc offset

-- `sub ebx, 4`, `test eax, eax`, `mov eax, [ebx+4]` and `jz`
unfoldable pub dump_branch_if_zero : ℕ → ℕ → List ℕ
unfolding dump_jump
dump_branch_if_zero relaxation offset =
    0x83
    ∷ 0xeb
    ∷ 0x04
    ∷ 0x85
    ∷ 0xc0
    ∷ 0x8b
    ∷ 0x43
    ∷ 0x04
    ∷ dump_jump (0x74 ∷ []) (0x0f ∷ 0x84 ∷ []) relaxation offset

-- `jmp`
unfoldable pub dump_branch : ℕ → ℕ → List ℕ
unfolding dump_jump
dump_branch relaxation offset = dump_jump (0xeb ∷ []) (0xe9 ∷ []) relaxation offset

-- `pop ecx`, `inc ecx`, `cmp ecx, [esp]`, `push ecx`, `jl` and `add esp, 8`
unfoldable pub dump_loop : ℕ → ℕ → List ℕ
unfolding dump_jump
dump_loop relaxation offset =
    0x59
    ∷ 0x41
    ∷ 0x3b
    ∷ 0x0c
    ∷ 0x24
    ∷ 0x51
    ∷ (dump_jump (0x7c ∷ []) (0x0f ∷ 0x8c ∷ []) relaxation offset ++ 0x83 ∷ 0xc4 ∷ 0x08 ∷ [])

-- `add eax, ...` by the relaxation; more than 2 fails an assertion.
unfoldable pub dump_add_offset : ℕ → ℕ → Option (List ℕ)
unfolding ser_i8_and_inc ser_le32_and_inc
dump_add_offset zero offset = some []
dump_add_offset (suc zero) offset = some (0x83 ∷ 0xc0 ∷ ser_i8_and_inc offset)
dump_add_offset (suc (suc zero)) offset = some (0x05 ∷ ser_le32_and_inc offset)
dump_add_offset _ offset = none

-- `call .L0`, `.L0:`, `pop eax` and the addition
unfoldable pub dump_offset_address : ℕ → ℕ → Option (List ℕ)
unfolding dump_add_offset
dump_offset_address relaxation offset = do
  add ← dump_add_offset relaxation offset
  some (0xe8 ∷ 0x00 ∷ 0x00 ∷ 0x00 ∷ 0x00 ∷ 0x58 ∷ add)

abbrev pub do_code : List ℕ
do_code = 0xff ∷ 0x33 ∷ 0x50 ∷ 0x8b ∷ 0x43 ∷ 0xfc ∷ 0x83 ∷ 0xeb ∷ 0x08 ∷ []

abbrev pub execute_code : List ℕ
execute_code = 0x89 ∷ 0xc1 ∷ 0x8b ∷ 0x03 ∷ 0x83 ∷ 0xeb ∷ 0x04 ∷ 0xff ∷ 0xd1 ∷ []

abbrev pub thread_create_code : List ℕ
thread_create_code = 0x8b ∷ 0x4e ∷ 44 ∷ 0xff ∷ 0x56 ∷ 0x24 ∷ []

abbrev pub thread_join_code : List ℕ
thread_join_code = 0x8b ∷ 0x4e ∷ 44 ∷ 0x83 ∷ 0xc1 ∷ 0x08 ∷ 0xff ∷ 0x56 ∷ 0x24 ∷ []

module _ (gen : Generated) where
  -- The code of a builtin word.
  unfoldable pub dump_builtin : ℕ → Option (List ℕ)
  unfolding cpy_and_inc
  dump_builtin param = do
    word ← get_elem? gen.table param
    cpy_and_inc (drop word.pos gen.code) word.len

  -- The `switch` of `fragment_bin_dump`.
  unfoldable pub dump_of : Opcode → List Fragment → List ℕ → ℕ → Flags → Fragment → Option (List ℕ)
  unfolding dump_builtin dump_runtime_word dump_literal dump_exit dump_location dump_data_address
      dump_declare_variable dump_use_variable dump_declare_constant dump_callback
      dump_branch_if_zero dump_branch dump_loop dump_offset_address branch_offset loop_offset
      address_offset ser_le32_and_inc
  dump_of builtin_word all sequence i needs f = dump_builtin f.param
  dump_of defined_word all sequence i needs f = do
    offset ← branch_offset gen all sequence i f
    some (0xe8 ∷ ser_le32_and_inc offset)
  dump_of runtime_word all sequence i needs f =
      some (dump_runtime_word (runtime_word_offset f.param))
  dump_of push_literal all sequence i needs f = some (dump_literal f.param)
  dump_of exit_word all sequence i needs f = do
    location ← get_elem? all f.param
    some (dump_exit location.param)
  dump_of defined_word_location all sequence i needs f = some (dump_location f.param)
  dump_of push_data_address all sequence i needs f = some (dump_data_address f.param)
  dump_of declare_variable all sequence i needs f =
      some (dump_declare_variable (variable_offset f.param))
  dump_of use_variable_or_constant all sequence i needs f =
      some (dump_use_variable (variable_offset f.param))
  dump_of halt all sequence i needs f = some (0xc3 ∷ [])
  dump_of branch_location all sequence i needs f = some []
  dump_of branch_if_zero all sequence i needs f = do
    offset ← branch_offset gen all sequence i f
    some (dump_branch_if_zero f.relaxation offset)
  dump_of branch all sequence i needs f = do
    offset ← branch_offset gen all sequence i f
    some (dump_branch f.relaxation offset)
  dump_of do_loop all sequence i needs f = some do_code
  dump_of loop all sequence i needs f = do
    offset ← loop_offset gen all sequence i f
    some (dump_loop f.relaxation offset)
  dump_of push_offset_address all sequence i needs f = do
    offset ← address_offset gen all needs f
    dump_offset_address f.relaxation offset
  dump_of push_callback all sequence i needs f = some (dump_callback (callback_offset f.param))
  dump_of declare_constant all sequence i needs f =
      some (dump_declare_constant (variable_offset f.param))
  dump_of execute all sequence i needs f = some execute_code
  dump_of thread_create all sequence i needs f = some thread_create_code
  dump_of thread_join all sequence i needs f = some thread_join_code
  dump_of entry all sequence i needs f = some []

  abbrev pub bytes_if : Bool → List ℕ → List ℕ
  bytes_if need chore = if need then chore else []

  -- The chores in front, the instruction, and the chores behind.
  unfoldable pub fragment_bin_dump : List Fragment → List ℕ → ℕ → Option (List ℕ)
  unfolding needs_at dump_of
  fragment_bin_dump all_fragments sequence sequence_i = do
    needs ← needs_at gen all_fragments sequence sequence_i
    f ← fragment_at all_fragments sequence sequence_i
    code ← dump_of f.op all_fragments sequence sequence_i needs f
    some (
        bytes_if needs.a gen.chore_a
        ++ bytes_if needs.b gen.chore_b
        ++ code
        ++ bytes_if needs.y gen.chore_y
        ++ bytes_if needs.z gen.chore_z)

  abbrev pub x86_32_backend : Backend
  x86_32_backend = record {
    fragment_bin_size = fragment_bin_size gen;
    fragment_bin_is_representable = fragment_bin_is_representable gen;
    fragment_bin_dump = fragment_bin_dump;
    op_uses_lr = none;
  }
