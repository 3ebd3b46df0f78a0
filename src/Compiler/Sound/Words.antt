-- ===== src/Compiler/Sound/Words.antt =====
-- The loop of `m4_compile` over the source's words keeps its invariant, and ends.
use mcp_forth.Prelude.{
  ℕ, ◌+◌, ◌≡◌, refl, subst, inl, inr, Bool, true, false, some, List, [], ◌∷◌, arith, ◌==◌,
  if◌then◌else◌, Bool-cases, Option-cases, Option, none, ◌≤◌, ◌<◌, zero, suc, length, length-append,
  get_elem?-lt, All, some-eq_some, codes, if_intro,
}
use mcp_forth.Fragment.{Opcode, Backend}
use mcp_forth.VmBackend.{shape}
use mcp_forth.Source.Names.{find_nstring, builtins}
use mcp_forth.Source.Literal.{parse_literal}
use mcp_forth.Source.Escape.{next_escaped_string}
use mcp_forth.Source.Escape.Dump.{equal_escaped_string_iff, next_escaped_string-length}
use mcp_forth.Source.Scanner.{next_line}
use mcp_forth.Source.Scanner.Words.{next_line-length}
use mcp_forth.Compiler.State.{Result, DataString, Compiler, sequence_helper, is_word}
use mcp_forth.Compiler.Strings.{
  find_escaped_loop, data_offset, data_index, runtime_index, string_handler,
}
use mcp_forth.Compiler.Source.{
  has_depth, builtin_handler, simple, intrinsics, find_intrinsic, runtime_handler, literal_handler,
  intrinsic_handler,
}
use mcp_forth.Compiler.Sound.{IsScanned, IsSound, Safe, safe_ok, KeepsSound}
use mcp_forth.Compiler.Sound.Checks.{
  Safe-bind, Safe-then, Safe-rassert, Safe-or_error, Safe-defined,
}
use mcp_forth.Compiler.Sound.Rules.{Facts-string, Facts-move}
use mcp_forth.Compiler.Sound.Steps.{is_offset, unless_offset, sequence_helper-IsSound}
use mcp_forth.Compiler.Sound.Names.{
  colon-IsSound, semicolon-IsSound, exit_handler-IsSound, recurse_handler-IsSound,
}
use mcp_forth.Compiler.Sound.Lookup.{declare-IsSound, tick-IsSound, c_tick-IsSound, paren-IsSound}
use mcp_forth.Compiler.Sound.Flow.{
  if_handler-IsSound, then_handler-IsSound, else_handler-IsSound, do_handler-IsSound,
  loop_handler-IsSound, begin_handler-IsSound, until_handler-IsSound, while_handler-IsSound,
  repeat_handler-IsSound, again_handler-IsSound,
}

-- An index that was found is in the array.
abbrev FoundBelow : ℕ → Option ℕ → Type 0
FoundBelow n none = Unit
FoundBelow n (some i) = i < n

-- The assertions of the comparison hold for strings that have been scanned.
find_escaped_loop-Safe :
    (strings : List DataString) (str : DataString) (i : ℕ)
    → All IsScanned strings
    → IsScanned str
    → Safe (FoundBelow (i + length strings)) (find_escaped_loop strings str.str str.len i)
unfolding find_escaped_loop
find_escaped_loop-Safe [] str i h k = safe_ok tt
find_escaped_loop-Safe (x ∷ xs) str i ((r, e), h) (r', e') =
    let P = FoundBelow (i + length (x ∷ xs)) in
    let again : Safe P (find_escaped_loop xs str.str str.len (i + 1)) =
      subst (λ n. Safe (FoundBelow n) (find_escaped_loop xs str.str str.len (i + 1))) (omega arith)
        (find_escaped_loop-Safe xs str (i + 1) h (r', e')) in
    let ((b, eb), _) = equal_escaped_string_iff x.str str.str r r' x.len str.len e e' in
    if_intro (Safe P) (x.len == str.len)
      (Safe-bind (Safe-defined b eb)
        (λ same _. if_intro (Safe P) same (safe_ok (omega arith)) again))
      again

data_index-IsSound :
    {limit : ℕ} (str : DataString) (c : Compiler)
    → IsSound 0 limit c
    → IsScanned str
    → Safe (λ p. IsSound 0 limit p.1 × (p.0 ≤ length p.1.data_nstrings)) (data_index str c)
unfolding data_index
data_index-IsSound str c s h =
    Safe-bind (find_escaped_loop-Safe c.data_nstrings str 0 s.scanned h) (λ o below.
      elim (Option-cases o) [
        | inl e ↦ rw e (
            safe_ok (Facts-string str s h, omega (arith, length-append c.data_nstrings (str ∷ []))))
        | inr (i, e) ↦
            let lt : i < 0 + length c.data_nstrings =
              subst (FoundBelow (0 + length c.data_nstrings)) e below in
            rw e (safe_ok (s, omega arith))
      ])

data_offset-total :
    (i : ℕ) (strings : List DataString)
    → i ≤ length strings
    → (offset : ℕ) × (data_offset i strings ≡ some offset)
unfolding data_offset
data_offset-total zero strings h = (0, refl)
data_offset-total (suc i) [] h = absurd (omega arith)
data_offset-total (suc i) (s ∷ strings) h =
    let (offset, e) = data_offset-total i strings (omega arith) in
    ((s.len + 1) + offset, rw (data_offset, e) refl)

runtime_index-IsSound :
    {limit : ℕ} (word : List ℕ) (c : Compiler)
    → IsSound 0 limit c
    → IsSound 0 limit (runtime_index word c).1
unfolding runtime_index
runtime_index-IsSound word c s =
    elim (Option-cases (find_nstring c.runtime_word_nstrings word false)) [
      | inl e ↦ rw (e, runtime_index) s
      | inr (i, e) ↦ rw (e, runtime_index) s
    ]

string_handler-IsSound : (is_dot_quote : Bool) → KeepsSound (string_handler is_dot_quote)
unfolding string_handler shape
string_handler-IsSound is_dot_quote limit c s =
    Safe-bind (Safe-or_error (next_escaped_string c.cur) _) (λ (n, rest) e.
      let str : DataString = record { str = c.cur; len = n } in
      let l = next_escaped_string-length c.cur e in
      let s₀ = Facts-move rest s (omega (arith, l, s.left)) in
      Safe-bind (data_index-IsSound str (record c { cur = rest }) s₀ (rest, e)) (λ (i, c₁) (s₁, le).
        let (at, eo) = data_offset-total i c₁.data_nstrings le in
        Safe-bind (Safe-defined at eo) (λ offset _.
          let s₂ =
            sequence_helper-IsSound Opcode.push_data_address offset c₁ s₁
              (unless_offset Opcode.push_data_address refl) in
          let c₂ = sequence_helper Opcode.push_data_address offset c₁ in
          let s₃ =
            sequence_helper-IsSound Opcode.push_literal n c₂ s₂
              (unless_offset Opcode.push_literal refl) in
          let c₃ = sequence_helper Opcode.push_literal n c₂ in
          let r = runtime_index (codes "type") c₃ in
          if_intro (Safe (IsSound 0 limit)) is_dot_quote
            (safe_ok (
              sequence_helper-IsSound Opcode.runtime_word r.0 r.1
                (runtime_index-IsSound (codes "type") c₃ s₃)
                (unless_offset Opcode.runtime_word refl)))
            (safe_ok s₃))))

pub builtin_handler-IsSound : (i : ℕ) → i < length builtins → KeepsSound (builtin_handler i)
unfolding builtin_handler shape
builtin_handler-IsSound i h limit c s =
    let (found, e) = get_elem?-lt builtins i h in
    Safe-bind (Safe-defined found e) (λ name _.
      let required =
        if is_word (codes "i") name then 1 else if is_word (codes "j") name then 2 else 0 in
      Safe-then (Safe-rassert (has_depth required c.control_flow_stack) _) (λ b. safe_ok (
        sequence_helper-IsSound Opcode.builtin_word i c s
          (unless_offset Opcode.builtin_word refl))))

-- Every handler of the table keeps the invariant.
infixr 4 ◌&◌
data AllKeep : List (List ℕ × (Compiler → Result Compiler)) → Type 0 where
  no_more : AllKeep []
  ◌&◌ :
      {word : List ℕ} {handler : Compiler → Result Compiler}
      {table : List (List ℕ × (Compiler → Result Compiler))}
      → KeepsSound handler
      → AllKeep table
      → AllKeep ((word, handler) ∷ table)

simple_words : (op : Opcode) → is_offset (shape op) ≡ false → KeepsSound (simple op)
simple_words op h limit c s = safe_ok (sequence_helper-IsSound op 0 c s (unless_offset op h))

intrinsics-AllKeep : (backend : Backend) → AllKeep (intrinsics backend)
unfolding intrinsics shape
intrinsics-AllKeep backend =
    colon-IsSound
    & semicolon-IsSound backend
    & exit_handler-IsSound backend
    & paren-IsSound
    & string_handler-IsSound true
    & string_handler-IsSound false
    & recurse_handler-IsSound
    & declare-IsSound false
    & declare-IsSound true
    & if_handler-IsSound
    & then_handler-IsSound
    & else_handler-IsSound
    & do_handler-IsSound
    & loop_handler-IsSound
    & begin_handler-IsSound
    & until_handler-IsSound
    & while_handler-IsSound
    & repeat_handler-IsSound
    & again_handler-IsSound
    & (λ limit c s.
        safe_ok (Facts-move (next_line c.cur) s (omega (arith, next_line-length c.cur, s.left))))
    & tick-IsSound
    & c_tick-IsSound
    & (λ limit c s. safe_ok s)
    & simple_words Opcode.execute refl
    & simple_words Opcode.thread_create refl
    & simple_words Opcode.thread_join refl
    & no_more

find_intrinsic-KeepsSound :
    {table : List (List ℕ × (Compiler → Result Compiler))} (word : List ℕ)
    {handler : Compiler → Result Compiler}
    → AllKeep table
    → find_intrinsic table word ≡ some handler
    → KeepsSound handler
unfolding find_intrinsic
find_intrinsic-KeepsSound word no_more e = cc
find_intrinsic-KeepsSound word (◌&◌ {word = lit} k ks) e = elim (Bool-cases (is_word lit word)) [
  | inl b ↦ subst KeepsSound (some-eq_some (rw (b, find_intrinsic) at e)) k
  | inr b ↦ find_intrinsic-KeepsSound word ks (rw (b, find_intrinsic) at e)
]

literal_handler-IsSound : (word : List ℕ) → KeepsSound (literal_handler word)
unfolding literal_handler runtime_handler shape
literal_handler-IsSound word limit c s = elim (Option-cases (parse_literal word)) [
  | inr (n, e) ↦
      rw (e, literal_handler)
        (safe_ok (
          sequence_helper-IsSound Opcode.push_literal n c s
            (unless_offset Opcode.push_literal refl)))
  | inl e ↦
      let r = runtime_index word c in
      rw (e, literal_handler)
        (safe_ok (
          sequence_helper-IsSound Opcode.runtime_word r.0 r.1 (runtime_index-IsSound word c s)
            (unless_offset Opcode.runtime_word refl)))
]

pub intrinsic_handler-IsSound :
    (backend : Backend) (word : List ℕ) → KeepsSound (intrinsic_handler backend word)
unfolding intrinsic_handler
intrinsic_handler-IsSound backend word limit c s =
    elim (Option-cases (find_intrinsic (intrinsics backend) word)) [
      | inr (handler, e) ↦
          let k = find_intrinsic-KeepsSound word (intrinsics-AllKeep backend) e in
          rw (e, intrinsic_handler) (k limit c s)
      | inl e ↦ rw (e, intrinsic_handler) (literal_handler-IsSound word limit c s)
    ]
