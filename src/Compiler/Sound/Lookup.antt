-- ===== src/Compiler/Sound/Lookup.antt =====
-- The words of `m4_compile` that declare a name or look one up, and its comments, keep its invariant.
use mcp_forth.Prelude.{
  ℕ, zero, suc, ◌-◌, ◌<◌, ◌≡◌, refl, sym, ap, ◌∙◌, subst, inl, inr, Bool, true, false, not, some,
  List, [], ◌∷◌, ◌++◌, arith, if◌then◌else◌, Bool-cases, Option-cases, length, get_elem?,
  some-eq_some, All-get_elem?, get_elem?-lt, get_elem?-some_lt,
}
use mcp_forth.Fragment.{Opcode, defined_word_location, Fragment}
use mcp_forth.VmBackend.{with_offset, shape}
use mcp_forth.Source.Names.{find_nstring}
use mcp_forth.Source.Names.Find.{find_nstring-lt}
use mcp_forth.Compiler.State.{defined, Compiler}
use mcp_forth.Compiler.Definitions.{
  declare, tick, find_callback, valid_signature, callback_of, c_tick, ends_with_paren,
  signature_loop, comment_loop, pack_signature, at_definition, set_signature, paren,
}
use mcp_forth.Compiler.Sound.{IsLocation, IsSound, Safe, safe_ok, KeepsSound}
use mcp_forth.Compiler.Sound.Checks.{
  Safe-bind, Safe-then, Safe-weaken, Safe-rassert, Safe-or_error, Safe-defined,
}
use mcp_forth.Compiler.Sound.Rules.{Facts-set, Facts-callback}
use mcp_forth.Compiler.Sound.Steps.{
  unless_offset, sequence_helper-IsSound, Moved, Moved-IsSound, Moved-trans,
}
use mcp_forth.Compiler.Sound.Names.{Safe-next_name, Safe-check_new_name}

declaration-no_offset :
    (b : Bool) (p n : ℕ)
    → shape (if b then Opcode.declare_constant else Opcode.declare_variable) ≡ with_offset
    → p < n
unfolding shape
declaration-no_offset true p n = unless_offset Opcode.declare_constant refl
declaration-no_offset false p n = unless_offset Opcode.declare_variable refl

pub declare-IsSound : (is_constant : Bool) → KeepsSound (declare is_constant)
unfolding declare
declare-IsSound is_constant limit c s = Safe-then (Safe-rassert (not c.defining_word) _) (λ b.
    Safe-bind (Safe-next_name c) (λ (word, c₁) m. Safe-then (Safe-check_new_name word c₁) (λ u.
      let s₁ = Moved-IsSound c c₁ m s in
      let c₂ = record c₁ { variable_nstrings = c₁.variable_nstrings ++ word ∷ [] } in
      safe_ok (
        sequence_helper-IsSound _ (length c₁.variable_nstrings) c₂ s₁
          (declaration-no_offset is_constant _ _)))))

-- A word that is found has a fragment, which is the start of a definition.
pub found-IsLocation :
    {limit i : ℕ} (c : Compiler) (word : List ℕ)
    → IsSound 0 limit c
    → find_nstring c.defined_word_nstrings word false ≡ some i
    → (d : ℕ) × (get_elem? c.defined_word_fragments i ≡ some d) × IsLocation c.all_fragments d
found-IsLocation {i} c word s e =
    let h = find_nstring-lt c.defined_word_nstrings word i e in
    let (d, ed) = get_elem?-lt c.defined_word_fragments i (omega (arith, h, s.paired)) in
    (d, ed, All-get_elem? (IsLocation c.all_fragments) c.defined_word_fragments i s.located ed)

pub Safe-found :
    {limit i : ℕ} (c : Compiler) (word : List ℕ)
    → IsSound 0 limit c
    → find_nstring c.defined_word_nstrings word false ≡ some i
    → Safe (IsLocation c.all_fragments) (defined (get_elem? c.defined_word_fragments i))
Safe-found c word s e =
    let (d, ed, loc) = found-IsLocation c word s e in
    Safe-weaken (Safe-defined d ed) (λ d' e'. subst (IsLocation _) (some-eq_some (sym ed ∙ e')) loc)

pub tick-IsSound : KeepsSound tick
unfolding tick
tick-IsSound limit c s = Safe-bind (Safe-next_name c) (λ (word, c₁) m.
    let s₁ = Moved-IsSound c c₁ m s in
    Safe-bind (Safe-or_error (find_nstring c₁.defined_word_nstrings word false) _) (λ i e.
      Safe-bind (Safe-found c₁ word s₁ e) (λ d (f, ef, o).
        let h = get_elem?-some_lt c₁.all_fragments d ef in
        safe_ok
          (sequence_helper-IsSound Opcode.push_offset_address d c₁ s₁ (λ _. omega (arith, h))))))

callback_of-IsSound :
    {limit i : ℕ} (c : Compiler) (word : List ℕ)
    → IsSound 0 limit c
    → find_nstring c.defined_word_nstrings word false ≡ some i
    → Safe (λ p. IsSound 0 limit p.1) (callback_of i c)
unfolding callback_of
callback_of-IsSound {limit} {i} c word s e =
    elim (Option-cases (find_callback c.defined_words_that_need_callbacks i 0)) [
      | inr (k, ek) ↦ rw (ek, callback_of) (safe_ok s)
      | inl absent ↦
          rw (absent, callback_of)
            (Safe-bind (Safe-found c word s e) (λ d (f, ef, o).
              Safe-bind (Safe-defined f ef) (λ f' e'.
                Safe-then (Safe-rassert (valid_signature f'.ext_param) _) (λ b.
                  safe_ok
                    (Facts-callback i s (find_nstring-lt c.defined_word_nstrings word i e))))))
    ]

pub c_tick-IsSound : KeepsSound c_tick
unfolding c_tick shape
c_tick-IsSound limit c s = Safe-bind (Safe-next_name c) (λ (word, c₁) m.
    Safe-bind (Safe-or_error (find_nstring c₁.defined_word_nstrings word false) _) (λ i e.
      Safe-bind (callback_of-IsSound c₁ word (Moved-IsSound c c₁ m s) e) (λ (k, c₂) s₂. safe_ok (
        sequence_helper-IsSound Opcode.push_callback k c₂ s₂
          (unless_offset Opcode.push_callback refl)))))

-- The loops over a comment's words: the fuel is enough, and only the scanner moves.
signature_loop-Moved :
    (fuel : ℕ) (c : Compiler) (params returns : ℕ) (divider_found : Bool)
    → length c.cur < fuel
    → Safe (λ p. Moved c p.2) (signature_loop fuel c params returns divider_found)
unfolding signature_loop
signature_loop-Moved zero c params returns divider_found h = absurd (omega arith)
signature_loop-Moved (suc fuel) c params returns divider_found h =
    Safe-bind (Safe-next_name c) (λ (word, c₁) m.
      let (rest, e, l) = m in
      let l₁ : length c₁.cur < fuel = omega (arith, h, l, ap (λ (x : Compiler). length x.cur) e) in
      elim (Bool-cases (ends_with_paren word)) [
        | inl b ↦ rw b (safe_ok m)
        | inr b ↦ rw b (
            Safe-weaken (signature_loop-Moved fuel c₁ _ _ _ l₁) (λ p m'. Moved-trans c c₁ p.2 m m'))
      ])

comment_loop-Moved :
    (fuel : ℕ) (c : Compiler) → length c.cur < fuel → Safe (Moved c) (comment_loop fuel c)
unfolding comment_loop
comment_loop-Moved zero c h = absurd (omega arith)
comment_loop-Moved (suc fuel) c h = Safe-bind (Safe-next_name c) (λ (word, c₁) m.
    let (rest, e, l) = m in
    let l₁ : length c₁.cur < fuel = omega (arith, h, l, ap (λ (x : Compiler). length x.cur) e) in
    elim (Bool-cases (ends_with_paren word)) [
      | inl b ↦ rw b (safe_ok m)
      | inr b ↦
          rw b (Safe-weaken (comment_loop-Moved fuel c₁ l₁) (λ c' m'. Moved-trans c c₁ c' m m'))
    ])

at_definition-defining :
    {limit : ℕ} (c : Compiler)
    → IsSound 0 limit c
    → Safe (λ b. b ≡ true → c.defining_word ≡ true) (at_definition c)
unfolding at_definition
at_definition-defining c s = elim (Bool-cases c.defining_word) [
  | inr b ↦ rw b (safe_ok (λ e. e))
  | inl b ↦
      let (i, ei) = get_elem?-lt c.sequence (length c.sequence - 1) (omega (arith, s.nonempty)) in
      let (f, ef) = get_elem?-lt c.all_fragments i (
        All-get_elem? (λ x. x < length c.all_fragments) c.sequence (length c.sequence - 1)
          s.sequenced ei) in
      rw b (
        Safe-bind (Safe-defined i ei) (λ i' e'.
          let same : i ≡ i' = some-eq_some (sym ei ∙ e') in
          let ef' : get_elem? c.all_fragments i' ≡ some f = rw (← same) ef in
          Safe-bind (Safe-defined f ef') (λ f' e''. safe_ok (λ u. refl))))
]

set_signature-IsSound :
    {limit : ℕ} (ext_param : ℕ) (c : Compiler)
    → IsSound 0 limit c
    → c.defining_word ≡ true
    → Safe (IsSound 0 limit) (set_signature ext_param c)
unfolding set_signature
set_signature-IsSound ext_param c s b =
    let (d', e', less) = s.started b in
    Safe-bind (Safe-defined d' e') (λ d e.
      let (f', ef', o) = All-get_elem? (IsLocation _) c.defined_word_fragments _ s.located e in
      Safe-bind (Safe-defined f' ef') (λ f ef.
        let o' : f.op ≡ defined_word_location =
          ap (λ (x : Fragment). x.op) (some-eq_some (sym ef ∙ ef')) ∙ o in
        safe_ok (
          Facts-set d (record f { ext_param = ext_param }) s
            (get_elem?-some_lt c.all_fragments d ef) o')))

pub paren-IsSound : KeepsSound paren
unfolding paren
paren-IsSound limit c s = Safe-bind (at_definition-defining c s) (λ b h. elim (Bool-cases b) [
  | inl t ↦ rw t (
      Safe-bind (signature_loop-Moved (suc (length c.cur)) c 0 0 false (omega arith))
        (λ (params, returns, c₁) m.
          let (rest, e, l) = m in
          set_signature-IsSound (pack_signature params returns) c₁ (Moved-IsSound c c₁ m s)
            (ap (λ (x : Compiler). x.defining_word) e ∙ h t)))
  | inr f ↦ rw f (
      Safe-weaken (comment_loop-Moved (suc (length c.cur)) c (omega arith))
        (λ c₁ m. Moved-IsSound c c₁ m s))
])
