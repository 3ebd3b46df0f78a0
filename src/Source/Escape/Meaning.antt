-- ===== src/Source/Escape/Meaning.antt =====
-- What an escaped string of compile.c means.
use mcp_forth.Prelude.{
  ℕ, ◌≡◌, refl, sym, ◌∙◌, subst, ◌↔◌, inl, inr, true, false, some, List, [], ◌∷◌, ◌==◌, ==_iff,
  Bool-cases, length,
}
use mcp_forth.Source.Escape.{
  IterResult, char, ended_ok, ended_early, escape_switch, escaped_string_iter_char,
  next_escaped_string,
}
use mcp_forth.Source.Escape.Dump.{Iterates, close, step, next_escaped_string-Iterates}
use mcp_forth.Source.Escape.RoundTrip.{iter_char-plain, iter_char-quote}

-- The bytes that mean another byte, or themselves, behind a backslash.
pub data Escape : ℕ → ℕ → Type 0 where
  backslash : Escape 92 92
  quote : Escape 34 34
  newline : Escape b'n' 10
  return : Escape b'r' 13
  tab : Escape b't' 9

-- A byte behind a backslash with no meaning of its own there.
pub record IsOther (d : ℕ) : Type 0 where
  pub no_backslash : (d == 92) ≡ false
  pub no_quote : (d == 34) ≡ false
  pub no_newline : (d == b'n') ≡ false
  pub no_return : (d == b'r') ≡ false
  pub no_tab : (d == b't') ≡ false
  pub no_break : (d == 10) ≡ false

-- The text `src` means the bytes `out`, and its closing quote is followed by `rest`. A backslash at the
-- end of a line joins it to the next one; in front of any other byte it stands for itself.
pub data Unescapes : List ℕ → List ℕ → List ℕ → Type 0 where
  ends : {rest : List ℕ} → Unescapes (34 ∷ rest) [] rest
  plain :
      {c : ℕ} {src out rest : List ℕ}
      → (c == 34) ≡ false
      → (c == 92) ≡ false
      → Unescapes src out rest
      → Unescapes (c ∷ src) (c ∷ out) rest
  escaped :
      {d x : ℕ} {src out rest : List ℕ}
      → Escape d x
      → Unescapes src out rest
      → Unescapes (92 ∷ d ∷ src) (x ∷ out) rest
  joined : {src out rest : List ℕ} → Unescapes src out rest → Unescapes (92 ∷ 10 ∷ src) out rest
  other :
      {d : ℕ} {src out rest : List ℕ}
      → IsOther d
      → Unescapes (d ∷ src) out rest
      → Unescapes (92 ∷ d ∷ src) (92 ∷ out) rest

iter_char-escaped :
    (d x : ℕ) (src : List ℕ) → Escape d x → escaped_string_iter_char (92 ∷ d ∷ src) ≡ char x src
unfolding escaped_string_iter_char escape_switch
iter_char-escaped d x src backslash = refl
iter_char-escaped d x src quote = refl
iter_char-escaped d x src newline = refl
iter_char-escaped d x src return = refl
iter_char-escaped d x src tab = refl

iter_char-joined :
    (src : List ℕ) → escaped_string_iter_char (92 ∷ 10 ∷ src) ≡ escaped_string_iter_char src
unfolding escaped_string_iter_char escape_switch
iter_char-joined src = refl

iter_char-other :
    (d : ℕ) (src : List ℕ) → IsOther d → escaped_string_iter_char (92 ∷ d ∷ src) ≡ char 92 (d ∷ src)
unfolding escaped_string_iter_char escape_switch
iter_char-other d src o =
    rw (escape_switch, o.no_backslash, o.no_quote, o.no_newline, o.no_return, o.no_tab, o.no_break)

joined-Iterates :
    {src out rest : List ℕ} → Iterates src out rest → Iterates (92 ∷ 10 ∷ src) out rest
joined-Iterates {src} (close e) = close (iter_char-joined src ∙ e)
joined-Iterates {src} (step e u) = step (iter_char-joined src ∙ e) u

pub Unescapes-Iterates : {src out rest : List ℕ} → Unescapes src out rest → Iterates src out rest
Unescapes-Iterates {rest = rest} ends = close (iter_char-quote rest)
Unescapes-Iterates (plain {c = c} {src = src} q b u) =
    step (iter_char-plain c src q b) (Unescapes-Iterates u)
Unescapes-Iterates (escaped {d = d} {x = x} {src = src} e u) =
    step (iter_char-escaped d x src e) (Unescapes-Iterates u)
Unescapes-Iterates (joined u) = joined-Iterates (Unescapes-Iterates u)
Unescapes-Iterates (other {d = d} {src = src} o u) =
    step (iter_char-other d src o) (Unescapes-Iterates u)

-- What one call of the iterator says of the text that it was given.
abbrev Leads : IterResult → List ℕ → Type 0
Leads (char c r) src = (out rest : List ℕ) → Unescapes r out rest → Unescapes src (c ∷ out) rest
Leads (ended_ok r) src = Unescapes src [] r
Leads ended_early src = Unit

joined-Leads : (i : IterResult) (src : List ℕ) → Leads i src → Leads i (92 ∷ 10 ∷ src)
joined-Leads (char c r) src h = λ out rest u. joined (h out rest u)
joined-Leads (ended_ok r) src h = joined h
joined-Leads ended_early src h = tt

escaped-Leads :
    (d e x : ℕ) (src : List ℕ) → Escape e x → (d == e) ≡ true → Leads (char x src) (92 ∷ d ∷ src)
escaped-Leads d e x src h same =
    subst (λ b. Leads (char x src) (92 ∷ b ∷ src)) (sym ((==_iff d e).0 same))
      (λ out rest u. escaped h u)

-- The byte itself stands behind the backslash.
itself-Leads :
    (d e : ℕ) (src : List ℕ) → Escape e e → (d == e) ≡ true → Leads (char d src) (92 ∷ d ∷ src)
itself-Leads d e src h same =
    subst (λ b. Leads (char b src) (92 ∷ b ∷ src)) (sym ((==_iff d e).0 same))
      (λ out rest u. escaped h u)

switch-Leads :
    (d : ℕ) (src : List ℕ) (again : IterResult)
    → Leads again src
    → Leads (escape_switch d src again) (92 ∷ d ∷ src)
unfolding escape_switch
switch-Leads d src again h = elim (Bool-cases (d == 92)) [
  | inl e ↦ rw (escape_switch, e) (itself-Leads d 92 src backslash e)
  | inr e1 ↦ elim (Bool-cases (d == 34)) [
    | inl e ↦ rw (escape_switch, e1, e) (itself-Leads d 34 src quote e)
    | inr e2 ↦ elim (Bool-cases (d == b'n')) [
      | inl e ↦ rw (escape_switch, e1, e2, e) (escaped-Leads d b'n' 10 src newline e)
      | inr e3 ↦ elim (Bool-cases (d == b'r')) [
        | inl e ↦ rw (escape_switch, e1, e2, e3, e) (escaped-Leads d b'r' 13 src return e)
        | inr e4 ↦ elim (Bool-cases (d == b't')) [
          | inl e ↦ rw (escape_switch, e1, e2, e3, e4, e) (escaped-Leads d b't' 9 src tab e)
          | inr e5 ↦ elim (Bool-cases (d == 10)) [
            | inl e ↦
                rw (escape_switch, e1, e2, e3, e4, e5, e)
                  (subst (λ b. Leads again (92 ∷ b ∷ src)) (sym ((==_iff d 10).0 e))
                    (joined-Leads again src h))
            | inr e6 ↦
                rw (escape_switch, e1, e2, e3, e4, e5, e6)
                  (λ out rest u.
                    other
                      (record {
                        no_backslash = e1;
                        no_quote = e2;
                        no_newline = e3;
                        no_return = e4;
                        no_tab = e5;
                        no_break = e6;
                      })
                      u)
          ]
        ]
      ]
    ]
  ]
]

ends-Leads : (c : ℕ) (r : List ℕ) → (c == 34) ≡ true → Leads (ended_ok r) (c ∷ r)
ends-Leads c r e = subst (λ b. Unescapes (b ∷ r) [] r) (sym ((==_iff c 34).0 e)) ends

iter_char-Leads : (src : List ℕ) → Leads (escaped_string_iter_char src) src
unfolding escaped_string_iter_char
iter_char-Leads [] = tt
iter_char-Leads (c ∷ []) = elim (Bool-cases (c == 34)) [
  | inl q ↦ rw (escaped_string_iter_char, q) (ends-Leads c [] q)
  | inr q ↦ elim (Bool-cases (c == 92)) [
    | inl b ↦ rw (escaped_string_iter_char, q, b) tt
    | inr b ↦ rw (escaped_string_iter_char, q, b) (λ out rest u. plain q b u)
  ]
]
iter_char-Leads (c ∷ d ∷ ds) = elim (Bool-cases (c == 34)) [
  | inl q ↦ rw (escaped_string_iter_char, q) (ends-Leads c (d ∷ ds) q)
  | inr q ↦ elim (Bool-cases (c == 92)) [
    | inl b ↦
        rw (escaped_string_iter_char, q, b)
          (subst (λ a. Leads (escape_switch d ds (escaped_string_iter_char ds)) (a ∷ d ∷ ds))
            (sym ((==_iff c 92).0 b))
            (switch-Leads d ds (escaped_string_iter_char ds) (iter_char-Leads ds)))
    | inr b ↦ rw (escaped_string_iter_char, q, b) (λ out rest u. plain q b u)
  ]
]

pub Iterates-Unescapes : {src out rest : List ℕ} → Iterates src out rest → Unescapes src out rest
Iterates-Unescapes {src} {out} {rest} (close e) = subst (λ i. Leads i src) e (iter_char-Leads src)
Iterates-Unescapes {src} {out} {rest} (step {out = more} e u) =
    (subst (λ i. Leads i src) e (iter_char-Leads src)) more rest (Iterates-Unescapes u)

-- For every source: `next_escaped_string` succeeds with length `n` and goes on at `rest` exactly
-- when the text means some string of `n` bytes whose closing quote `rest` follows.
pub next_escaped_string_iff :
    (src : List ℕ) (n : ℕ) (rest : List ℕ)
    → (next_escaped_string src ≡ some (n, rest))
      ↔ ((out : List ℕ) × Unescapes src out rest × (length out ≡ n))
next_escaped_string_iff src n rest =
    let both = next_escaped_string-Iterates src n rest in
    (
      λ e. let (out, u, l) = both.0 e in (out, Iterates-Unescapes u, l),
      λ (out, u, l). both.1 (out, Unescapes-Iterates u, l),
    )
