-- ===== src/VmBackend.antt =====
-- The bytecode backend, vm_backend.c.
pub mod Dump
pub mod Relax
mod Tests
use mcp_forth.Prelude.{
  ℕ, suc, ◌+◌, ◌-◌, ◌%◌, Bool, true, false, Option, none, some, List, [], ◌∷◌, ◌++◌, ltb, leb,
  if◌then◌else◌, get_elem?, sle, bias, sub_word, ◌>>=◌,
}
use mcp_forth.Fragment.{
  Opcode, builtin_word, defined_word, runtime_word, push_literal, exit_word, defined_word_location,
  push_data_address, declare_variable, use_variable_or_constant, halt, branch_location,
  branch_if_zero, branch, do_loop, loop, push_offset_address, push_callback, declare_constant,
  execute, thread_create, thread_join, entry, op_number, opcode_last, num_max_one_byte, Fragment,
  Backend, fragment_at,
}
use mcp_forth.Num.{num_encoded_size_from_int, num_encode, num_encode_with_size}

-- The groups of cases that the three `switch` statements share.
pub data Shape : Type 0 where
  builtin : Shape
  with_param : Shape
  with_offset : Shape
  bare : Shape
  empty : Shape

unfoldable pub shape : Opcode → Shape
shape builtin_word = builtin
shape runtime_word = with_param
shape push_literal = with_param
shape push_data_address = with_param
shape declare_variable = with_param
shape use_variable_or_constant = with_param
shape push_callback = with_param
shape declare_constant = with_param
shape defined_word = with_offset
shape branch_if_zero = with_offset
shape branch = with_offset
shape loop = with_offset
shape push_offset_address = with_offset
shape exit_word = bare
shape halt = bare
shape do_loop = bare
shape execute = bare
shape thread_create = bare
shape thread_join = bare
shape defined_word_location = empty
shape branch_location = empty
shape entry = empty

-- `fragment->param <= M4_NUM_MAX_ONE_BYTE - M4_OPCODE_LAST_`
abbrev pub fits_one_byte : ℕ → Bool
fits_one_byte param = sle param (num_max_one_byte - opcode_last)

unfoldable pub op_size : Opcode → ℕ
op_size op = num_encoded_size_from_int (op_number op)

unfoldable pub size_by : Shape → Fragment → ℕ
unfolding op_size
size_by builtin f =
    if fits_one_byte f.param then 1 else op_size f.op + num_encoded_size_from_int f.param
size_by with_param f = op_size f.op + num_encoded_size_from_int f.param
size_by with_offset f = op_size f.op + (f.relaxation + 1)
size_by bare f = op_size f.op
size_by empty f = 0

unfoldable pub fragment_bin_size : List Fragment → List ℕ → ℕ → Option ℕ
unfolding size_by shape
fragment_bin_size all_fragments sequence sequence_i = do
  f ← fragment_at all_fragments sequence sequence_i
  some (size_by (shape f.op) f)

-- `all_fragments[fragment->param].position - fragment->position`
unfoldable pub offset_to : List Fragment → Fragment → Option ℕ
offset_to all_fragments f = do
  target ← get_elem? all_fragments f.param
  some (sub_word target.position f.position)

unfoldable pub representable_by : Shape → List Fragment → Fragment → Option Bool
unfolding offset_to
representable_by with_offset all_fragments f = do
  offset ← offset_to all_fragments f
  some (leb (num_encoded_size_from_int offset) (f.relaxation + 1))
representable_by _ all_fragments f = some true

unfoldable pub fragment_bin_is_representable : List Fragment → List ℕ → ℕ → Option Bool
unfolding representable_by shape
fragment_bin_is_representable all_fragments sequence sequence_i = do
  f ← fragment_at all_fragments sequence sequence_i
  representable_by (shape f.op) all_fragments f

unfoldable pub dump_param : Fragment → Option (List ℕ)
dump_param f = do op ← num_encode (op_number f.op); param ← num_encode f.param; some (op ++ param)

unfoldable pub dump_offset : List Fragment → Fragment → Option (List ℕ)
unfolding offset_to
dump_offset all_fragments f = do
  op ← num_encode (op_number f.op)
  offset ← offset_to all_fragments f
  bytes ← num_encode_with_size offset (f.relaxation + 1)
  some (op ++ bytes)

unfoldable pub dump_by : Shape → List Fragment → Fragment → Option (List ℕ)
unfolding dump_param dump_offset
dump_by builtin all_fragments f =
    if fits_one_byte f.param then some ((f.param + opcode_last) % 256 ∷ []) else dump_param f
dump_by with_param all_fragments f = dump_param f
dump_by with_offset all_fragments f = dump_offset all_fragments f
dump_by bare all_fragments f = num_encode (op_number f.op)
dump_by empty all_fragments f = some []

-- The bytes written at `dst`.
unfoldable pub fragment_bin_dump : List Fragment → List ℕ → ℕ → Option (List ℕ)
unfolding dump_by shape
fragment_bin_dump all_fragments sequence sequence_i = do
  f ← fragment_at all_fragments sequence sequence_i
  dump_by (shape f.op) all_fragments f

abbrev pub compact_bytecode_vm_backend : Backend
compact_bytecode_vm_backend = record {
  fragment_bin_size = fragment_bin_size;
  fragment_bin_is_representable = fragment_bin_is_representable;
  fragment_bin_dump = fragment_bin_dump;
  op_uses_lr = none;
}
