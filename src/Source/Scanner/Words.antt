-- ===== src/Source/Scanner/Words.antt =====
-- What the scanner of compile.c finds.
use mcp_forth.Prelude.{
  ℕ, ◌≤◌, ◌<◌, ◌≡◌, refl, ap, ◌∙◌, subst, ◌≢◌, inl, inr, true, false, none, some, List, [], ◌∷◌,
  ◌++◌, arith, Bool-cases, Option-cases, length, All, some-eq_some,
}
use mcp_forth.Source.Scanner.{is_space, skip_space, take_word, next_word, next_line}

abbrev pub IsSpace : ℕ → Type 0
IsSpace c = is_space c ≡ true

abbrev pub IsNotSpace : ℕ → Type 0
IsNotSpace c = is_space c ≡ false

-- `tail` is what follows a word, and `rest` where the scanner goes on: behind one space, or at the end.
abbrev pub EndsWord : List ℕ → List ℕ → Type 0
EndsWord [] rest = rest ≡ []
EndsWord (c ∷ tail) rest = IsSpace c × (tail ≡ rest)

-- How a source splits into spaces, a word, and what ends the word.
pub record Splits (src word rest : List ℕ) : Type 0 where
  pub spaces : List ℕ
  pub tail : List ℕ
  pub whole : src ≡ spaces ++ (word ++ tail)
  pub all_spaces : All IsSpace spaces
  pub no_space : All IsNotSpace word
  pub nonempty : word ≢ []
  pub ends : EndsWord tail rest

cons-ne_nil : {c : ℕ} {cs word : List ℕ} → c ∷ cs ≡ word → word ≢ []
cons-ne_nil e n = cc

take_word_splits :
    (cs : List ℕ)
    → (tail : List ℕ) × (cs ≡ (take_word cs).0 ++ tail)
      × All IsNotSpace (take_word cs).0
      × EndsWord tail (take_word cs).1
unfolding take_word
take_word_splits [] = ([], refl, tt, refl)
take_word_splits (c ∷ cs) = elim (Bool-cases (is_space c)) [
  | inl sp ↦ rw sp (c ∷ cs, refl, tt, (sp, refl))
  | inr word ↦
      let (tail, whole, ns, ends) = take_word_splits cs in
      rw word (tail, ap (λ l. c ∷ l) whole, (word, ns), ends)
]

skip_space_splits :
    (src : List ℕ) {c : ℕ} {cs : List ℕ}
    → skip_space src ≡ some (c, cs)
    → (spaces : List ℕ) × (src ≡ spaces ++ c ∷ cs) × All IsSpace spaces × IsNotSpace c
unfolding skip_space
skip_space_splits [] e = cc
skip_space_splits (d ∷ ds) e = elim (Bool-cases (is_space d)) [
  | inl sp ↦
      let (spaces, whole, all, nc) = skip_space_splits ds (rw sp at e) in
      (d ∷ spaces, ap (λ l. d ∷ l) whole, (sp, all), nc)
  | inr word ↦ ([], ground arith, tt, ground arith)
]

-- Where the scanner finds a word, the source is spaces, that word with no space in it, and then
-- its end: the scanner goes on behind the one space that ends the word, or is at the source's end.
pub next_word-Splits :
    (src word rest : List ℕ) → next_word src ≡ some (word, rest) → Splits src word rest
unfolding next_word
next_word-Splits src word rest e = elim (Option-cases (skip_space src)) [
  | inl n ↦ absurd (cc (rw n at e))
  | inr ((c, cs), f) ↦
      let (spaces, whole, all, nc) = skip_space_splits src f in
      let (tail, whole', ns, ends) = take_word_splits cs in
      let e' : (c ∷ (take_word cs).0, (take_word cs).1) ≡ (word, rest) = some-eq_some (rw f at e) in
      let word_eq : c ∷ (take_word cs).0 ≡ word = ap (λ p. p.0) e' in
      let rest_eq : (take_word cs).1 ≡ rest = ap (λ p. p.1) e' in
      record {
        spaces = spaces;
        tail = tail;
        whole =
            whole ∙ ap (λ l. spaces ++ l) (ap (λ l. c ∷ l) whole' ∙ ap (λ w. w ++ tail) word_eq);
        all_spaces = all;
        no_space = subst (All IsNotSpace) word_eq (nc, ns);
        nonempty = cons-ne_nil word_eq;
        ends = subst (EndsWord tail) rest_eq ends;
      }
]

skip_space-none : (src : List ℕ) → skip_space src ≡ none → All IsSpace src
unfolding skip_space
skip_space-none [] e = tt
skip_space-none (c ∷ cs) e = ground (arith, skip_space-none cs)

-- Where it finds none, the rest of the source is spaces.
pub next_word-none : (src : List ℕ) → next_word src ≡ none → All IsSpace src
unfolding next_word
next_word-none src e = skip_space-none src (ground arith)

take_word-length : (cs : List ℕ) → length (take_word cs).1 ≤ length cs
unfolding take_word
take_word-length [] = omega arith
take_word-length (c ∷ cs) = ground (arith, take_word-length cs)

skip_space-length :
    (src : List ℕ) {c : ℕ} {cs : List ℕ} → skip_space src ≡ some (c, cs) → length cs < length src
unfolding skip_space
skip_space-length [] e = cc
skip_space-length (d ∷ ds) {c} {cs} e = ground (arith, skip_space-length ds {c = c} {cs = cs})

-- Each word takes at least one byte of the source, so a loop over the words ends.
pub next_word-length :
    (src word rest : List ℕ) → next_word src ≡ some (word, rest) → length rest < length src
unfolding next_word
next_word-length src word rest e = elim (Option-cases (skip_space src)) [
  | inl n ↦ absurd (cc (rw n at e))
  | inr ((c, cs), f) ↦
      let e' : (c ∷ (take_word cs).0, (take_word cs).1) ≡ (word, rest) = some-eq_some (rw f at e) in
      omega (
        arith,
        take_word-length cs,
        skip_space-length src f,
        ap (λ (p : List ℕ × List ℕ). length p.1) e',
      )
]

pub next_line-length : (src : List ℕ) → length (next_line src) ≤ length src
unfolding next_line
next_line-length [] = omega arith
next_line-length (c ∷ cs) = ground (arith, next_line-length cs)

skip_space-append :
    (spaces src : List ℕ) → All IsSpace spaces → skip_space (spaces ++ src) ≡ skip_space src
unfolding skip_space
skip_space-append [] src h = refl
skip_space-append (c ∷ cs) src (h, hs) = rw h (skip_space-append cs src hs)

take_word-append :
    (word rest : List ℕ) (sp : ℕ)
    → All IsNotSpace word
    → IsSpace sp
    → take_word (word ++ sp ∷ rest) ≡ (word, rest)
unfolding take_word
take_word-append [] rest sp h hs = rw hs
take_word-append (c ∷ cs) rest sp (h, hw) hs = rw (h, take_word-append cs rest sp hw hs)

-- A word printed between spaces is read back, and the scanner goes on behind the space after it.
pub next_word-append :
    (spaces word rest : List ℕ) (sp : ℕ)
    → All IsSpace spaces
    → All IsNotSpace word
    → word ≢ []
    → IsSpace sp
    → next_word (spaces ++ (word ++ sp ∷ rest)) ≡ some (word, rest)
unfolding next_word skip_space
next_word-append spaces [] rest sp hs hw ne h = absurd (ne refl)
next_word-append spaces (c ∷ cs) rest sp hs (hc, hw) ne h =
    rw (skip_space-append spaces ((c ∷ cs) ++ sp ∷ rest) hs)
      (rw hc (rw (take_word-append cs rest sp hw h)))
