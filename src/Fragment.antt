-- ===== src/Fragment.antt =====
-- The intermediate code of mcp_forth.h: opcodes, fragments, and what a backend provides.
use mcp_forth.Prelude.{ℕ, Bool, Option, List, get_elem?, ◌>>=◌}

-- `m4_opcode_t`
pub data Opcode : Type 0 where
  builtin_word defined_word runtime_word push_literal exit_word defined_word_location : Opcode
  push_data_address declare_variable use_variable_or_constant halt branch_location : Opcode
  branch_if_zero branch do_loop loop push_offset_address push_callback declare_constant : Opcode
  execute thread_create thread_join entry : Opcode

-- The enumeration's numbers.
unfoldable pub op_number : Opcode → ℕ
op_number builtin_word = 0
op_number defined_word = 1
op_number runtime_word = 2
op_number push_literal = 3
op_number exit_word = 4
op_number defined_word_location = 5
op_number push_data_address = 6
op_number declare_variable = 7
op_number use_variable_or_constant = 8
op_number halt = 9
op_number branch_location = 10
op_number branch_if_zero = 11
op_number branch = 12
op_number do_loop = 13
op_number loop = 14
op_number push_offset_address = 15
op_number push_callback = 16
op_number declare_constant = 17
op_number execute = 18
op_number thread_create = 19
op_number thread_join = 20
op_number entry = 21

-- `M4_OPCODE_LAST_`
abbrev pub opcode_last : ℕ
opcode_last = 22

-- `M4_NUM_MAX_ONE_BYTE`
abbrev pub num_max_one_byte : ℕ
num_max_one_byte = 63

-- `m4_fragment_t`; `param` and `position` are `int` patterns.
pub record Fragment : Type 0 where
  pub param : ℕ
  pub position : ℕ
  pub op : Opcode
  pub is_word_fragment : Bool
  pub ext_param : ℕ
  pub relaxation : ℕ

-- `m4_backend_t`. Each function gets all the fragments, the sequence, and an index into the sequence;
-- `none` is an index out of bounds or a failed assertion. The pool of literals, which the bytecode
-- backend does not use, is left out.
pub record Backend : Type 0 where
  pub fragment_bin_size : List Fragment → List ℕ → ℕ → Option ℕ
  pub fragment_bin_is_representable : List Fragment → List ℕ → ℕ → Option Bool
  pub fragment_bin_dump : List Fragment → List ℕ → ℕ → Option (List ℕ)
  pub op_uses_lr : Option (Opcode → Bool)

-- `&all_fragments[sequence[sequence_i]]`
abbrev pub fragment_at : List Fragment → List ℕ → ℕ → Option Fragment
fragment_at all_fragments sequence sequence_i = do
  i ← get_elem? sequence sequence_i
  get_elem? all_fragments i
