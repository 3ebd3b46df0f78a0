-- ===== src/Compiler/Sound/Names.antt =====
-- The words of `m4_compile` that define and name words keep its invariant.
use mcp_forth.Prelude.{
  ℕ, zero, suc, ◌-◌, ◌≤◌, ◌<◌, bit_and, bit_or, ◌≡◌, refl, sym, ap, ◌∙◌, inl, inr, Bool, true,
  false, not, Option, some, List, [], ◌∷◌, arith, ◌==◌, if◌then◌else◌, ==_iff, Bool-cases,
  Option-cases, length, All, some-eq_some, if_intro, All-get_elem?, get_elem?-lt, get_elem?-some_lt,
  get_elem?-append_length,
}
use mcp_forth.Fragment.{Opcode, defined_word_location, Fragment, Backend}
use mcp_forth.VmBackend.{shape}
use mcp_forth.Source.Names.{find_nstring}
use mcp_forth.Source.Scanner.{next_word}
use mcp_forth.Source.Scanner.Words.{next_word-length}
use mcp_forth.Compiler.State.{
  ControlFlow, Compiler, sequence_helper, add_to_sequence, create_fragment, last_of, is_exit,
  nested_call_loop, param_calls, param_loops, set_param_flag, update_nested_call,
}
use mcp_forth.Compiler.Definitions.{
  is_none, is_empty, next_name, check_new_name, colon, semicolon, has_do, exit_handler,
  recurse_handler,
}
use mcp_forth.Compiler.Sound.{IsLocation, pending, IsSound, Safe, safe_ok, KeepsSound}
use mcp_forth.Compiler.Sound.Checks.{
  Safe-bind, Safe-then, Safe-weaken, Safe-rassert, Safe-or_error, Safe-defined,
}
use mcp_forth.Compiler.Sound.Rules.{
  Facts-create, Facts-add, Facts-define, Facts-close, Facts-set, IsLocation-set, length-snoc,
}
use mcp_forth.Compiler.Sound.Steps.{unless_offset, sequence_helper-IsSound, Moved, Moved-IsSound}

pub Safe-next_name : (c : Compiler) → Safe (λ p. Moved c p.1) (next_name c)
unfolding next_name
Safe-next_name c =
    Safe-bind (Safe-or_error (next_word c.cur) _)
      (λ (word, rest) e. safe_ok (rest, refl, next_word-length c.cur word rest e))

is_empty-pending : (flows : List ControlFlow) → is_empty flows ≡ true → pending flows ≡ 0
unfolding pending
is_empty-pending [] h = refl
is_empty-pending (cf ∷ cfs) h = absurd (ground arith)

pub Safe-check_new_name :
    (word : List ℕ) (c : Compiler) → Safe (λ u. Unit {0}) (check_new_name word c)
unfolding check_new_name
Safe-check_new_name word c =
    Safe-then (Safe-rassert (is_none (find_nstring c.defined_word_nstrings word false)) _) (λ b₁.
      Safe-then (Safe-rassert (is_none (find_nstring c.runtime_word_nstrings word false)) _) (λ b₂.
        Safe-weaken (Safe-rassert (is_none (find_nstring c.variable_nstrings word false)) _)
          (λ u e. tt)))

-- The definition's fragment has the index that its place in the sequence has.
pub colon-IsSound : KeepsSound colon
unfolding colon sequence_helper add_to_sequence create_fragment shape
colon-IsSound limit c s = Safe-then (Safe-rassert (not c.defining_word) _) (λ fresh.
    Safe-bind (Safe-next_name c) (λ (word, c₁) m. Safe-then (Safe-check_new_name word c₁) (λ u.
      Safe-then (Safe-rassert (is_empty c₁.control_flow_stack) _) (λ b.
        let s₁ = Moved-IsSound c c₁ m s in
        let all = c₁.all_fragments in
        let f : Fragment = record {
          param = 0;
          position = 0;
          op = defined_word_location;
          is_word_fragment = true;
          ext_param = 0;
          relaxation = 0;
        } in
        let p = is_empty-pending c₁.control_flow_stack b in
        let l = length-snoc all f in
        let s₂ =
          Facts-add (length all) (Facts-create f s₁ (unless_offset defined_word_location refl))
            (omega (arith, l)) in
        safe_ok (
          Facts-define (length all) word s₂ (f, get_elem?-append_length all [] f, refl)
            (omega (arith, length-snoc c₁.sequence (length all), s₁.balanced, p)))))))

-- Inside a definition that starts at `d`, with something behind its start.
record Inside (limit d : ℕ) (c : Compiler) : Type 0 where
  sound : IsSound 0 limit c
  start : IsLocation c.all_fragments d
  behind : suc d < length c.sequence

set_param_flag-Inside :
    {limit : ℕ} (d flag : ℕ) (c : Compiler)
    → Inside limit d c
    → Safe (Inside limit d) (set_param_flag d flag c)
unfolding set_param_flag
set_param_flag-Inside d flag c k =
    let (f, e, o) = k.start in
    let h = get_elem?-some_lt c.all_fragments d e in
    Safe-bind (Safe-defined f e) (λ f' e'.
      let o' : f'.op ≡ defined_word_location =
        ap (λ (x : Fragment). x.op) (some-eq_some (sym e' ∙ e)) ∙ o in
      let g : Fragment = record f' { param = bit_or f'.param flag } in
      safe_ok (record {
        sound = Facts-set d g k.sound h o';
        start = IsLocation-set c.all_fragments d g h o' d k.start;
        behind = k.behind;
      }))

-- The search for a call stops at the definition's start at the latest, and reads only the sequence.
nested_call_loop-some :
    (uses : Opcode → Bool) (all : List Fragment) (order : List ℕ) (d i : ℕ)
    → All (λ s. s < length all) order
    → d < i
    → i ≤ length order
    → (b : Bool) × (nested_call_loop uses all order d i ≡ some b)
unfolding nested_call_loop
nested_call_loop-some uses all order d zero h under le = absurd (omega arith)
nested_call_loop-some uses all order d (suc i) h under le = elim (Bool-cases (i == d)) [
  | inl same ↦ rw same (false, refl)
  | inr other ↦
      let n : d < i = grind (arith, ==_iff i d) in
      let (b, e) = nested_call_loop-some uses all order d i h n (omega arith) in
      let (s, es) = get_elem?-lt order i (omega arith) in
      let (f, ef) = get_elem?-lt all s (All-get_elem? (λ s. s < length all) order i h es) in
      rw other (rw es (rw ef (rw e (stops (is_exit f.op) (uses f.op) b))))
]
  where
    stops :
        (exit used b : Bool)
        → (r : Bool) × ((if exit then some false else if used then some true else some b) ≡ some r)
    stops true used b = (false, refl)
    stops false true b = (true, refl)
    stops false false b = (b, refl)

either_some :
    (test : Bool) {o : Option Bool}
    → (b : Bool) × (o ≡ some b)
    → (b : Bool) × ((if test then o else some false) ≡ some b)
either_some true h = h
either_some false h = (false, refl)

update_nested_call-IsSound :
    {limit : ℕ} (backend : Backend) (d : ℕ) (c : Compiler)
    → Inside limit d c
    → Safe (IsSound 0 limit) (update_nested_call backend d c)
unfolding update_nested_call
update_nested_call-IsSound {limit} backend d c k = elim (Option-cases backend.op_uses_lr) [
  | inl e ↦ rw e (safe_ok k.sound)
  | inr (uses, e) ↦
      let (f, ef, o) = k.start in
      rw e (
        Safe-bind (Safe-defined f ef) (λ f' e'.
          let loop_some =
            nested_call_loop-some uses c.all_fragments c.sequence d (length c.sequence - 1)
              k.sound.sequenced (omega (arith, k.behind)) (omega arith) in
          let (b, eb) = either_some (bit_and f'.param param_calls == 0) loop_some in
          Safe-bind (Safe-defined b eb) (λ calls ec.
            if_intro (Safe (IsSound 0 limit)) calls
              (Safe-weaken (set_param_flag-Inside d param_calls c k) (λ c' k'. k'.sound))
              (safe_ok k.sound))))
]

-- Where a word is being defined, its start is known, and an exit can be put behind it.
exit-Inside :
    {limit d : ℕ} (c : Compiler)
    → IsSound 0 limit c
    → c.defining_word ≡ true
    → last_of c.defined_word_fragments ≡ some d
    → Inside limit d (sequence_helper Opcode.exit_word d c)
unfolding sequence_helper add_to_sequence create_fragment shape
exit-Inside {limit} {d} c s b e =
    let (d', e', less) = s.started b in
    let same : d' ≡ d = some-eq_some (sym e' ∙ e) in
    let s₁ = sequence_helper-IsSound Opcode.exit_word d c s (unless_offset Opcode.exit_word refl) in
    record {
      sound = s₁;
      start = All-get_elem? (IsLocation _) c.defined_word_fragments _ s₁.located e;
      behind = omega (arith, less, same, length-snoc c.sequence (length c.all_fragments));
    }

pub semicolon-IsSound : (backend : Backend) → KeepsSound (semicolon backend)
unfolding semicolon
semicolon-IsSound backend limit c s = Safe-then (Safe-rassert c.defining_word _) (λ b.
    Safe-then (Safe-rassert (is_empty c.control_flow_stack) _) (λ b'.
      let (d', e', less) = s.started b in
      Safe-bind (Safe-defined d' e') (λ d e.
        Safe-bind (update_nested_call-IsSound backend d _ (exit-Inside c s b e))
          (λ c' s'. safe_ok (Facts-close s')))))

pub exit_handler-IsSound : (backend : Backend) → KeepsSound (exit_handler backend)
unfolding exit_handler
exit_handler-IsSound backend limit c s = Safe-then (Safe-rassert c.defining_word _) (λ b.
    let (d', e', less) = s.started b in
    Safe-bind (Safe-defined d' e') (λ d e.
      let k = exit-Inside c s b e in
      let c₁ = sequence_helper Opcode.exit_word d c in
      Safe-bind
        (if_intro (Safe (Inside limit d)) (has_do c.control_flow_stack)
          (set_param_flag-Inside d param_loops c₁ k) (safe_ok k))
        (λ c₂ k₂. update_nested_call-IsSound backend d c₂ k₂)))

pub recurse_handler-IsSound : KeepsSound recurse_handler
unfolding recurse_handler
recurse_handler-IsSound limit c s = Safe-then (Safe-rassert c.defining_word _) (λ b.
    let (d', e', less) = s.started b in
    Safe-bind (Safe-defined d' e') (λ d e.
      let (f, ef, o) = All-get_elem? (IsLocation _) c.defined_word_fragments _ s.located e in
      let h = get_elem?-some_lt c.all_fragments d ef in
      safe_ok (sequence_helper-IsSound Opcode.defined_word d c s (λ _. omega (arith, h)))))
