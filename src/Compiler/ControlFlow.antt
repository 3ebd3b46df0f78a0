-- ===== src/Compiler/ControlFlow.antt =====
-- The control flow words of `m4_compile`. A branch that goes forwards gets its target fragment before
-- that is put into the sequence.
use mcp_forth.Prelude.{ℕ, Bool, true, false, ◌||◌, List, [], ◌∷◌, length, minus_one}
use mcp_forth.Fragment.{Opcode}
use mcp_forth.Compiler.State.{
  Result, ok, err, ◌>>=◌, ◌>>◌, rassert, ControlFlowType, if_cf, else_cf, do_cf, begin_cf, while_cf,
  ControlFlow, Compiler, create_fragment, add_to_sequence, sequence_helper,
  unexpected_control_flow_terminator, wrong_terminator_for_this_control_flow,
}

-- `control_flow_t cf = {.type=…, .fragment=…}; grow_array_add(&control_flow_stack, &cf);`
abbrev pub push_cf : ControlFlowType → ℕ → Compiler → Compiler
push_cf type fragment c = record c {
  control_flow_stack = record { type = type; fragment = fragment } ∷ c.control_flow_stack;
}

-- The top of the control flow stack, and the rest of it.
abbrev pub top_cf : Compiler → Result (ControlFlow × List ControlFlow)
top_cf c = elim c.control_flow_stack [
  | [] ↦ err unexpected_control_flow_terminator
  | cf ∷ cfs ↦ ok (cf, cfs)
]

abbrev pub drop_cf : List ControlFlow → Compiler → Compiler
drop_cf cfs c = record c { control_flow_stack = cfs }

abbrev pub is_if : ControlFlowType → Bool
is_if if_cf = true
is_if _ = false

abbrev pub is_else : ControlFlowType → Bool
is_else else_cf = true
is_else _ = false

abbrev pub is_do_type : ControlFlowType → Bool
is_do_type do_cf = true
is_do_type _ = false

abbrev pub is_begin : ControlFlowType → Bool
is_begin begin_cf = true
is_begin _ = false

abbrev pub is_while : ControlFlowType → Bool
is_while while_cf = true
is_while _ = false

unfoldable pub if_handler : Compiler → Result Compiler
if_handler c =
    let location = length c.all_fragments in
    let c₁ = create_fragment Opcode.branch_location minus_one c in
    ok (push_cf if_cf location (sequence_helper Opcode.branch_if_zero location c₁))

unfoldable pub then_handler : Compiler → Result Compiler
then_handler c = do
  (cf, cfs) ← top_cf c
  rassert (is_if cf.type || is_else cf.type) wrong_terminator_for_this_control_flow
  ok (drop_cf cfs (add_to_sequence cf.fragment c))

unfoldable pub else_handler : Compiler → Result Compiler
else_handler c = do
  (cf, cfs) ← top_cf c
  rassert (is_if cf.type) wrong_terminator_for_this_control_flow
  let location = length c.all_fragments
  let c₁ = create_fragment Opcode.branch_location minus_one c
  let c₂ = add_to_sequence cf.fragment (sequence_helper Opcode.branch location c₁)
  ok (push_cf else_cf location (drop_cf cfs c₂))

unfoldable pub do_handler : Compiler → Result Compiler
do_handler c =
    let c₁ = sequence_helper Opcode.do_loop minus_one c in
    let location = length c₁.all_fragments in
    ok (push_cf do_cf location (sequence_helper Opcode.branch_location minus_one c₁))

unfoldable pub loop_handler : Compiler → Result Compiler
loop_handler c = do
  (cf, cfs) ← top_cf c
  rassert (is_do_type cf.type) wrong_terminator_for_this_control_flow
  ok (drop_cf cfs (sequence_helper Opcode.loop cf.fragment c))

unfoldable pub begin_handler : Compiler → Result Compiler
begin_handler c =
    let location = length c.all_fragments in
    ok (push_cf begin_cf location (sequence_helper Opcode.branch_location minus_one c))

unfoldable pub until_handler : Compiler → Result Compiler
until_handler c = do
  (cf, cfs) ← top_cf c
  rassert (is_begin cf.type) wrong_terminator_for_this_control_flow
  ok (drop_cf cfs (sequence_helper Opcode.branch_if_zero cf.fragment c))

unfoldable pub while_handler : Compiler → Result Compiler
while_handler c = do
  (cf, cfs) ← top_cf c
  rassert (is_begin cf.type) wrong_terminator_for_this_control_flow
  let location = length c.all_fragments
  let c₁ = create_fragment Opcode.branch_location minus_one c
  ok (push_cf while_cf location (sequence_helper Opcode.branch_if_zero location c₁))

unfoldable pub repeat_handler : Compiler → Result Compiler
repeat_handler c = do
  (while_top, below) ← top_cf c
  rassert (is_while while_top.type) wrong_terminator_for_this_control_flow
  (begin_top, cfs) ← top_cf (drop_cf below c)
  rassert (is_begin begin_top.type) wrong_terminator_for_this_control_flow
  let c₁ = sequence_helper Opcode.branch begin_top.fragment c
  ok (drop_cf cfs (add_to_sequence while_top.fragment c₁))

unfoldable pub again_handler : Compiler → Result Compiler
again_handler c = do
  (cf, cfs) ← top_cf c
  rassert (is_begin cf.type) wrong_terminator_for_this_control_flow
  ok (drop_cf cfs (sequence_helper Opcode.branch cf.fragment c))
