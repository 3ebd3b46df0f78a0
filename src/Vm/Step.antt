-- ===== src/Vm/Step.antt =====
-- The instructions of vm_engine.c: the cases of the outer `switch` of `run_inner`, and its loop.
use mcp_forth.Fragment.{opcode_last, num_max_one_byte}
use mcp_forth.Prelude.{
  ℕ, zero, suc, ◌+◌, ◌-◌, ◌&&◌, is_negative, Option, ◌++◌, none, some, List, [], ◌∷◌, ltb, leb,
  ◌==◌, if◌then◌else◌, length, get_elem?, set, drop, add_word, slt,
}
use mcp_forth.Vm.{
  Env, Slots, next, done, fault, RuntimeCb, lit, call, M, pure, return_code, crash, get, defined,
  ◌>>=◌, ◌>>◌, pop, push, return_pop, return_push, set_memory, set_pc, set_base, set_return_stack,
  set_variables, pc_step, threads_not_enabled_error,
}
use mathlib.Core.Option
use mcp_forth.Header.{m4_align}
use mcp_forth.Vm.Words.{run_builtin, check_memory}

-- `c->pc = pc_initial + target_offset;`
unfoldable pub jump : ℕ → ℕ → M (Unit {0})
jump pc_initial offset = set_pc (add_word pc_initial offset)

-- `c->return_stack_len_base = c->return_stack.len;`
unfoldable pub mark_base : M (Unit {0})
mark_base = do c ← get; set_base (length c.return_stack.cells)

-- `M4_OPCODE_BUILTIN_WORD`, behind the encoding in two bytes.
unfoldable pub builtin_word_case : Env → M (Unit {0})
builtin_word_case env = do builtin_num ← pc_step env; run_builtin env builtin_num

unfoldable pub defined_word_case : Env → ℕ → M (Unit {0})
unfolding jump mark_base
defined_word_case env pc_initial = do
  c ← get
  return_push c.return_stack_len_base
  target_offset ← pc_step env
  c' ← get
  return_push c'.pc
  mark_base
  jump pc_initial target_offset

unfoldable pub run_cb : RuntimeCb → M (Unit {0})
run_cb (lit param) = push param
run_cb (call cb) = λ c.
    let (ret, s, h) = cb c.stack c.heap in
    if ret == 0
    then next tt (record c { stack = s; heap = h })
    else done ret (record c { stack = s; heap = h })

unfoldable pub runtime_word_case : Env → M (Unit {0})
unfolding run_cb
runtime_word_case env = do
  runtime_word_i ← pc_step env
  cb_pair ← defined (get_elem? env.runtime_cbs runtime_word_i)
  run_cb cb_pair

unfoldable pub push_literal_case : Env → M (Unit {0})
push_literal_case env = do x ← pc_step env; push x

-- `n` cells from above a stack, the top one first.
unfoldable pub raised_cells : (ℕ → Option ℕ) → ℕ → Option (List ℕ)
raised_cells slot zero = some []
raised_cells slot (suc n) = elim (slot n) [
  | none ↦ none
  | some x ↦ Option.map (λ xs. x ∷ xs) (raised_cells slot n)
]

-- `data -= len - base; len = base;` with no test. A base above the stack brings the cells back that lie
-- there. A negative base makes `len` negative, which the pop behind it takes for an empty stack.
unfoldable pub cut_return_stack : Env → M (Unit {0})
unfolding raised_cells
cut_return_stack env = do
  c ← get
  if ltb (length c.return_stack.cells) c.return_stack_len_base
      then (if is_negative c.return_stack_len_base
          then set_return_stack (record c.return_stack { cells = [] })
          else (do
            raised ← defined (
                raised_cells env.slots.return_stack
                  (c.return_stack_len_base - length c.return_stack.cells))
            set_return_stack (record c.return_stack { cells = raised ++ c.return_stack.cells })))
      else set_return_stack (record c.return_stack {
        cells = drop (length c.return_stack.cells - c.return_stack_len_base) c.return_stack.cells;
      })

unfoldable pub exit_word_case : Env → M (Unit {0})
exit_word_case env = do
  cut_return_stack env
  pc ← return_pop
  set_pc pc
  base ← return_pop
  set_base base
  if pc == 0 then return_code 0 else pure tt

unfoldable pub push_data_address_case : Env → M (Unit {0})
push_data_address_case env = do x ← pc_step env; push (add_word env.data_start x)

-- `c->variables_and_constants[i] = x;`
unfoldable pub assign_variable : ℕ → ℕ → M (Unit {0})
assign_variable i x = do
  c ← get
  if ltb i (length c.variables_and_constants)
      then set_variables (set c.variables_and_constants i x)
      else crash

unfoldable pub declare_variable_case : Env → M (Unit {0})
unfolding assign_variable check_memory
declare_variable_case env = do
  c ← get
  set_memory (m4_align c.memory)
  i ← pc_step env
  assign_variable i (m4_align c.memory)
  set_memory (add_word (m4_align c.memory) 4)
  check_memory env

unfoldable pub use_variable_or_constant_case : Env → M (Unit {0})
use_variable_or_constant_case env = do
  i ← pc_step env
  c ← get
  x ← defined (get_elem? c.variables_and_constants i)
  push x

unfoldable pub halt_case : M (Unit {0})
halt_case = return_code 0

unfoldable pub branch_if_zero_case : Env → ℕ → M (Unit {0})
unfolding jump
branch_if_zero_case env pc_initial = do
  cond ← pop
  target_offset ← pc_step env
  if cond == 0 then jump pc_initial target_offset else pure tt

unfoldable pub branch_case : Env → ℕ → M (Unit {0})
unfolding jump
branch_case env pc_initial = do target_offset ← pc_step env; jump pc_initial target_offset

unfoldable pub do_case : M (Unit {0})
do_case = do start ← pop; end ← pop; return_push end; return_push start

unfoldable pub loop_case : Env → ℕ → M (Unit {0})
unfolding jump
loop_case env pc_initial = do
  target_offset ← pc_step env
  i ← return_pop
  end ← return_pop
  if slt (add_word i 1) end
      then (do jump pc_initial target_offset; return_push end; return_push (add_word i 1))
      else pure tt

unfoldable pub push_offset_address_case : Env → ℕ → M (Unit {0})
push_offset_address_case env pc_initial = do offset ← pc_step env; push (add_word pc_initial offset)

unfoldable pub push_callback_case : Env → M (Unit {0})
push_callback_case env = do
  i ← pc_step env
  push (env.callback_targets (env.callback_array_offset + i))

unfoldable pub declare_constant_case : Env → M (Unit {0})
unfolding assign_variable
declare_constant_case env = do x ← pop; i ← pc_step env; assign_variable i x

unfoldable pub execute_case : M (Unit {0})
unfolding mark_base
execute_case = do
  c ← get
  return_push c.return_stack_len_base
  return_push c.pc
  mark_base
  fn ← pop
  set_pc fn

unfoldable pub thread_case : M (Unit {0})
thread_case = return_code threads_not_enabled_error

-- `switch(op)`, by the opcode's number. The locations and the entry have no code, and no case.
unfoldable pub cases : Env → ℕ → List (M (Unit {0}))
unfolding branch_case branch_if_zero_case builtin_word_case declare_constant_case
    declare_variable_case defined_word_case do_case execute_case exit_word_case halt_case loop_case
    push_callback_case push_data_address_case push_literal_case push_offset_address_case
    runtime_word_case thread_case use_variable_or_constant_case
cases env pc_initial =
    builtin_word_case env
    ∷ defined_word_case env pc_initial
    ∷ runtime_word_case env
    ∷ push_literal_case env
    ∷ exit_word_case env
    ∷ crash
    ∷ push_data_address_case env
    ∷ declare_variable_case env
    ∷ use_variable_or_constant_case env
    ∷ halt_case
    ∷ crash
    ∷ branch_if_zero_case env pc_initial
    ∷ branch_case env pc_initial
    ∷ do_case
    ∷ loop_case env pc_initial
    ∷ push_offset_address_case env pc_initial
    ∷ push_callback_case env
    ∷ declare_constant_case env
    ∷ execute_case
    ∷ thread_case
    ∷ thread_case
    ∷ []

unfoldable pub run_case : Env → ℕ → ℕ → M (Unit {0})
run_case env pc_initial op = elim (get_elem? (cases env pc_initial) op) [
  | none ↦ crash
  | some run ↦ run
]

-- A number from M4_OPCODE_LAST_ to M4_NUM_MAX_ONE_BYTE is a builtin in one byte.
unfoldable pub dispatch : Env → ℕ → ℕ → M (Unit {0})
dispatch env pc_initial op =
    if leb opcode_last op && leb op num_max_one_byte
    then run_builtin env (op - opcode_last)
    else run_case env pc_initial op

-- One round of `run_inner`.
unfoldable pub step : Env → M (Unit {0})
step env = do c ← get; op ← pc_step env; dispatch env c.pc op

-- `while(1)`, for as many rounds as there is fuel; `next` is a program that is still running. What lies
-- above the stacks may differ from round to round.
unfoldable pub run_inner : Env → (ℕ → Slots) → ℕ → M (Unit {0})
run_inner env slots zero c = next tt c
run_inner env slots (suc fuel) c = elim (step (record env { slots = slots fuel }) c) [
  | next _ c' ↦ run_inner env slots fuel c'
  | done code c' ↦ done code c'
  | fault ↦ fault
]
