-- ===== src/Compiler/Sound/Flow.antt =====
-- The control flow words of `m4_compile` keep its invariant.
use mcp_forth.Prelude.{ℕ, ◌+◌, ◌<◌, ◌≡◌, refl, true, ◌||◌, List, [], ◌∷◌, arith, length, minus_one}
use mcp_forth.Fragment.{Opcode}
use mcp_forth.VmBackend.{shape}
use mcp_forth.Compiler.State.{
  Error, ok, err, ControlFlowType, if_cf, else_cf, do_cf, begin_cf, while_cf, ControlFlow, Compiler,
  create_fragment, add_to_sequence, sequence_helper,
}
use mcp_forth.Compiler.ControlFlow.{
  top_cf, drop_cf, is_if, is_else, is_do_type, is_begin, is_while, if_handler, then_handler,
  else_handler, do_handler, loop_handler, begin_handler, until_handler, while_handler,
  repeat_handler, again_handler,
}
use mcp_forth.Compiler.Sound.{owed_by, IsSound, Safe, safe_ok, safe_err, KeepsSound}
use mcp_forth.Compiler.Sound.Checks.{Safe-bind, Safe-then, Safe-rassert}
use mcp_forth.Compiler.Sound.Rules.{Facts-add, Facts-push, Facts-pop}
use mcp_forth.Compiler.Sound.Steps.{
  unless_offset, length-create_fragment, length-sequence_helper, create_fragment-IsSound,
  sequence_helper-IsSound,
}

owed_by-forward : (t : ControlFlowType) → (is_if t || is_else t) ≡ true → owed_by t ≡ 1
unfolding owed_by
owed_by-forward if_cf h = refl
owed_by-forward else_cf h = refl
owed_by-forward do_cf h = absurd (ground arith)
owed_by-forward begin_cf h = absurd (ground arith)
owed_by-forward while_cf h = absurd (ground arith)

owed_by-if : (t : ControlFlowType) → is_if t ≡ true → owed_by t ≡ 1
unfolding owed_by
owed_by-if if_cf h = refl
owed_by-if else_cf h = absurd (ground arith)
owed_by-if do_cf h = absurd (ground arith)
owed_by-if begin_cf h = absurd (ground arith)
owed_by-if while_cf h = absurd (ground arith)

owed_by-while : (t : ControlFlowType) → is_while t ≡ true → owed_by t ≡ 1
unfolding owed_by
owed_by-while if_cf h = absurd (ground arith)
owed_by-while else_cf h = absurd (ground arith)
owed_by-while do_cf h = absurd (ground arith)
owed_by-while begin_cf h = absurd (ground arith)
owed_by-while while_cf h = refl

owed_by-backward : (t : ControlFlowType) → (is_do_type t || is_begin t) ≡ true → owed_by t ≡ 0
unfolding owed_by
owed_by-backward if_cf h = absurd (ground arith)
owed_by-backward else_cf h = absurd (ground arith)
owed_by-backward do_cf h = refl
owed_by-backward begin_cf h = refl
owed_by-backward while_cf h = absurd (ground arith)

do-backward : (t : ControlFlowType) → is_do_type t ≡ true → owed_by t ≡ 0
do-backward t h = owed_by-backward t (ground arith)

begin-backward : (t : ControlFlowType) → is_begin t ≡ true → owed_by t ≡ 0
begin-backward t h = owed_by-backward t (ground arith)

Safe-top_of :
    (flows : List ControlFlow) (e : Error)
    → Safe {A = ControlFlow × List ControlFlow}
        (λ p. flows ≡ p.0 ∷ p.1)
        (elim flows [ [] ↦ err e | cf ∷ cfs ↦ ok (cf, cfs) ])
Safe-top_of [] e = safe_err
Safe-top_of (cf ∷ cfs) e = safe_ok refl

Safe-top_cf : (c : Compiler) → Safe (λ p. c.control_flow_stack ≡ p.0 ∷ p.1) (top_cf c)
Safe-top_cf c = Safe-top_of c.control_flow_stack _

-- The invariant without the top of the control flow stack, and where that leads.
popped :
    {owed limit : ℕ} (m : ℕ) (c : Compiler) (cf : ControlFlow) (cfs : List ControlFlow)
    → IsSound owed limit c
    → c.control_flow_stack ≡ cf ∷ cfs
    → owed_by cf.type ≡ m
    → IsSound (m + owed) limit (drop_cf cfs c) × (cf.fragment < length c.all_fragments)
popped m c cf cfs s e o =
    let s' : IsSound _ _ (drop_cf (cf ∷ cfs) c) = rw (← e) s in
    (rw (← o) (Facts-pop cf s'), s'.controlled.0)

pub if_handler-IsSound : KeepsSound if_handler
unfolding if_handler shape owed_by
if_handler-IsSound limit c s =
    let location = length c.all_fragments in
    let c₁ = create_fragment Opcode.branch_location minus_one c in
    let l₁ = length-create_fragment Opcode.branch_location minus_one c in
    let l₂ = length-sequence_helper Opcode.branch_if_zero location c₁ in
    let s₁ =
      create_fragment-IsSound Opcode.branch_location minus_one c s
        (unless_offset Opcode.branch_location refl) in
    let s₂ =
      sequence_helper-IsSound Opcode.branch_if_zero location c₁ s₁ (λ e. omega (arith, l₁)) in
    safe_ok (Facts-push (record { type = if_cf; fragment = location }) s₂ (omega (arith, l₁, l₂)))

pub then_handler-IsSound : KeepsSound then_handler
unfolding then_handler add_to_sequence
then_handler-IsSound limit c s = Safe-bind (Safe-top_cf c) (λ (cf, cfs) e.
    Safe-then (Safe-rassert _ _) (λ b.
      let (s₁, h) = popped 1 c cf cfs s e (owed_by-forward cf.type b) in
      safe_ok (Facts-add cf.fragment s₁ h)))

pub else_handler-IsSound : KeepsSound else_handler
unfolding else_handler add_to_sequence sequence_helper create_fragment shape owed_by
else_handler-IsSound limit c s = Safe-bind (Safe-top_cf c) (λ (cf, cfs) e.
    Safe-then (Safe-rassert _ _) (λ b.
      let location = length c.all_fragments in
      let (s₁, h) = popped 1 c cf cfs s e (owed_by-if cf.type b) in
      let d = drop_cf cfs c in
      let l₁ = length-create_fragment Opcode.branch_location minus_one d in
      let s₂ =
        create_fragment-IsSound Opcode.branch_location minus_one d s₁
          (unless_offset Opcode.branch_location refl) in
      let d₂ = create_fragment Opcode.branch_location minus_one d in
      let l₂ = length-sequence_helper Opcode.branch location d₂ in
      let s₃ = sequence_helper-IsSound Opcode.branch location d₂ s₂ (λ e. omega (arith, l₁)) in
      let s₄ = Facts-add cf.fragment s₃ (omega (arith, l₁, l₂, h)) in
      safe_ok
        (Facts-push (record { type = else_cf; fragment = location }) s₄ (omega (arith, l₁, l₂)))))

-- A word that sequences a location and opens a control flow back to it.
pub do_handler-IsSound : KeepsSound do_handler
unfolding do_handler shape owed_by
do_handler-IsSound limit c s =
    let c₁ = sequence_helper Opcode.do_loop minus_one c in
    let s₁ =
      sequence_helper-IsSound Opcode.do_loop minus_one c s (unless_offset Opcode.do_loop refl) in
    let s₂ =
      sequence_helper-IsSound Opcode.branch_location minus_one c₁ s₁
        (unless_offset Opcode.branch_location refl) in
    let l = length-sequence_helper Opcode.branch_location minus_one c₁ in
    safe_ok (
      Facts-push (record { type = do_cf; fragment = length c₁.all_fragments }) s₂
        (omega (arith, l)))

pub begin_handler-IsSound : KeepsSound begin_handler
unfolding begin_handler shape owed_by
begin_handler-IsSound limit c s =
    let s₁ =
      sequence_helper-IsSound Opcode.branch_location minus_one c s
        (unless_offset Opcode.branch_location refl) in
    let l = length-sequence_helper Opcode.branch_location minus_one c in
    safe_ok (
      Facts-push (record { type = begin_cf; fragment = length c.all_fragments }) s₁
        (omega (arith, l)))

-- A jump to the target of a control flow that has been closed.
jump_back :
    {limit : ℕ} (op : Opcode) (c : Compiler) (cf : ControlFlow) (cfs : List ControlFlow)
    → IsSound 0 limit c
    → c.control_flow_stack ≡ cf ∷ cfs
    → owed_by cf.type ≡ 0
    → IsSound 0 limit (drop_cf cfs (sequence_helper op cf.fragment c))
unfolding add_to_sequence sequence_helper create_fragment
jump_back op c cf cfs s e o =
    let (s₁, h) = popped 0 c cf cfs s e o in
    sequence_helper-IsSound op cf.fragment (drop_cf cfs c) s₁ (λ _. omega (arith, h))

pub loop_handler-IsSound : KeepsSound loop_handler
unfolding loop_handler
loop_handler-IsSound limit c s = Safe-bind (Safe-top_cf c) (λ (cf, cfs) e.
    Safe-then (Safe-rassert _ _)
      (λ b. safe_ok (jump_back Opcode.loop c cf cfs s e (do-backward cf.type b))))

pub until_handler-IsSound : KeepsSound until_handler
unfolding until_handler
until_handler-IsSound limit c s = Safe-bind (Safe-top_cf c) (λ (cf, cfs) e.
    Safe-then (Safe-rassert _ _)
      (λ b. safe_ok (jump_back Opcode.branch_if_zero c cf cfs s e (begin-backward cf.type b))))

pub again_handler-IsSound : KeepsSound again_handler
unfolding again_handler
again_handler-IsSound limit c s = Safe-bind (Safe-top_cf c) (λ (cf, cfs) e.
    Safe-then (Safe-rassert _ _)
      (λ b. safe_ok (jump_back Opcode.branch c cf cfs s e (begin-backward cf.type b))))

pub while_handler-IsSound : KeepsSound while_handler
unfolding while_handler shape owed_by
while_handler-IsSound limit c s = Safe-bind (Safe-top_cf c) (λ (cf, cfs) e.
    Safe-then (Safe-rassert (is_begin cf.type) _) (λ b.
      let location = length c.all_fragments in
      let c₁ = create_fragment Opcode.branch_location minus_one c in
      let l₁ = length-create_fragment Opcode.branch_location minus_one c in
      let l₂ = length-sequence_helper Opcode.branch_if_zero location c₁ in
      let s₁ =
        create_fragment-IsSound Opcode.branch_location minus_one c s
          (unless_offset Opcode.branch_location refl) in
      let s₂ =
        sequence_helper-IsSound Opcode.branch_if_zero location c₁ s₁ (λ e. omega (arith, l₁)) in
      safe_ok
        (Facts-push (record { type = while_cf; fragment = location }) s₂ (omega (arith, l₁, l₂)))))

pub repeat_handler-IsSound : KeepsSound repeat_handler
unfolding repeat_handler add_to_sequence sequence_helper create_fragment
repeat_handler-IsSound limit c s = Safe-bind (Safe-top_cf c) (λ (while_top, below) e.
    Safe-then (Safe-rassert _ _) (λ b.
      Safe-bind (Safe-top_cf (drop_cf below c)) (λ (begin_top, cfs) e'.
        Safe-then (Safe-rassert _ _) (λ b'.
          let (s₁, h) = popped 1 c while_top below s e (owed_by-while while_top.type b) in
          let (s₂, h') =
            popped 0 (drop_cf below c) begin_top cfs s₁ e' (begin-backward begin_top.type b') in
          let s₃ =
            sequence_helper-IsSound Opcode.branch begin_top.fragment (drop_cf cfs c) s₂
              (λ _. omega (arith, h')) in
          let l = length-sequence_helper Opcode.branch begin_top.fragment c in
          safe_ok (Facts-add while_top.fragment s₃ (omega (arith, h, l)))))))
