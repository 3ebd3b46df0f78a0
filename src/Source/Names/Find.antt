-- ===== src/Source/Names/Find.antt =====
-- What the lookup of names in compile.c finds.
use mcp_forth.Prelude.{
  ◌<◌, ℕ, zero, suc, ◌+◌, ◌<◌, ◌≡◌, refl, ap, ap₂, ◌⊎◌, ◌≤◌, ◌∙◌, subst, ◌↔◌, inl, inr, Bool, true,
  false, ◌&&◌, Option, none, some, List, [], ◌∷◌, map, arith, ◌==◌, if◌then◌else◌, ==_iff,
  Bool-cases, holds_below, holds_below-at, length, get_or, some-eq_some, bytes_eq, bytes_eq_iff,
}
use mcp_forth.Source.Names.{to_lower, equal_string, find_loop, find_nstring, builtins}

-- The same byte, or a letter from A to Z and the same letter from a to z.
abbrev CaseOf : ℕ → ℕ → Type 0
CaseOf upper lower = 65 ≤ upper × upper ≤ 90 × lower ≡ upper + 32

abbrev SameLetter : ℕ → ℕ → Type 0
SameLetter a b = (a ≡ b) ⊎ (CaseOf a b ⊎ CaseOf b a)

-- Two names are the same but for the case of their letters.
abbrev pub SameName : List ℕ → List ℕ → Type 0
SameName [] [] = Unit
SameName [] (b ∷ bs) = ⊥
SameName (a ∷ xs) [] = ⊥
SameName (a ∷ xs) (b ∷ bs) = SameLetter a b × SameName xs bs

to_lower-SameLetter : (a b : ℕ) → (to_lower a ≡ to_lower b) ↔ SameLetter a b
to_lower-SameLetter a b = ground arith

map-SameName : (xs bs : List ℕ) → (map to_lower xs ≡ map to_lower bs) ↔ SameName xs bs
map-SameName [] [] = ((λ e. tt), (λ s. refl))
map-SameName [] (b ∷ bs) = ((λ e. cc e), (λ s. absurd s))
map-SameName (a ∷ xs) [] = ((λ e. cc e), (λ s. absurd s))
map-SameName (a ∷ xs) (b ∷ bs) =
    let letter = to_lower-SameLetter a b in
    let more = map-SameName xs bs in
    (λ e. (letter.0 (cc e), more.0 (cc e)), λ (l, s). ap₂ (λ y ys. y ∷ ys) (letter.1 l) (more.1 s))

matches : List ℕ → List ℕ → Bool
matches s word = length s == length word && equal_string s word (length word) false

matches-bytes_eq :
    (s word : List ℕ) → matches s word ≡ bytes_eq (map to_lower s) (map to_lower word)
unfolding matches equal_string bytes_eq
matches-bytes_eq [] [] = refl
matches-bytes_eq [] (d ∷ ds) = ground arith
matches-bytes_eq (c ∷ cs) [] = ground arith
matches-bytes_eq (c ∷ cs) (d ∷ ds) = ground (arith, matches-bytes_eq cs ds)

matches_iff : (s word : List ℕ) → (matches s word ≡ true) ↔ SameName s word
matches_iff s word =
    let eq = bytes_eq_iff (map to_lower s) (map to_lower word) in
    let same = map-SameName s word in
    rw (matches-bytes_eq s word) (λ t. same.0 (eq.0 t), λ n. eq.1 (same.1 n))

find_loop-cases :
    (s : List ℕ) (ss : List (List ℕ)) (word : List ℕ) (i : ℕ)
    → find_loop (s ∷ ss) word false i
      ≡ (if matches s word then some i else find_loop ss word false (suc i))
unfolding find_loop matches
find_loop-cases s ss word i = refl

-- `k` is the first index at which the table holds the name.
abbrev pub FirstAt : List (List ℕ) → List ℕ → ℕ → Type 0
FirstAt [] word k = ⊥
FirstAt (s ∷ ss) word zero = SameName s word
FirstAt (s ∷ ss) word (suc k) = (¬ SameName s word) × FirstAt ss word k

find_loop-FirstAt :
    (ss : List (List ℕ)) (word : List ℕ) (i k : ℕ)
    → FirstAt ss word k
    → find_loop ss word false i ≡ some (i + k)
find_loop-FirstAt [] word i k h = absurd h
find_loop-FirstAt (s ∷ ss) word i zero h =
    rw (find_loop-cases s ss word i, (matches_iff s word).1 h) (ground arith)
find_loop-FirstAt (s ∷ ss) word i (suc k) (n, h) = elim (Bool-cases (matches s word)) [
  | inl m ↦ absurd (n ((matches_iff s word).0 m))
  | inr m ↦
      rw (find_loop-cases s ss word i, m)
        (find_loop-FirstAt ss word (suc i) k h ∙ ap some (omega arith))
]

find_loop_first :
    (ss : List (List ℕ)) (word : List ℕ) (i j : ℕ)
    → find_loop ss word false i ≡ some j
    → (k : ℕ) × (j ≡ i + k) × FirstAt ss word k
find_loop_first [] word i j e = unfold find_loop in cc
find_loop_first (s ∷ ss) word i j e = elim (Bool-cases (matches s word)) [
  | inl m ↦
      let e' : i ≡ j = some-eq_some (rw (find_loop-cases s ss word i, m) at e) in
      (0, omega arith, (matches_iff s word).0 m)
  | inr m ↦
      let (k, l, f) =
        find_loop_first ss word (suc i) j (rw (find_loop-cases s ss word i, m) at e) in
      (suc k, omega arith, ((λ same. cc (m, (matches_iff s word).1 same)), f))
]

-- The lookup returns an index exactly when that is the first entry that is the same name, letter
-- case aside.
pub find_nstring_iff :
    (names : List (List ℕ)) (word : List ℕ) (k : ℕ)
    → (find_nstring names word false ≡ some k) ↔ FirstAt names word k
unfolding find_nstring
find_nstring_iff names word k = (
  λ e.
      let (j, l, f) = find_loop_first names word 0 k e in
      subst (FirstAt names word) (omega arith) f,
  λ f. find_loop-FirstAt names word 0 k f ∙ ap some (omega arith),
)

abbrev option_eq : Option ℕ → ℕ → Bool
option_eq none k = false
option_eq (some j) k = j == k

builtins_table :
    holds_below (λ k. option_eq (find_nstring builtins (get_or builtins k []) false) k) 63 ≡ true
unfolding holds_below find_nstring
builtins_table = refl

option_eq→eq : (o : Option ℕ) (k : ℕ) → option_eq o k ≡ true → o ≡ some k
option_eq→eq none k e = cc
option_eq→eq (some j) k e = ap some ((==_iff j k).0 e)

-- Every builtin word is found at its own index: no entry of the table hides another.
pub find_nstring-builtins :
    (k : ℕ) → k < 63 → find_nstring builtins (get_or builtins k []) false ≡ some k
find_nstring-builtins k h = option_eq→eq _ k (holds_below-at _ 63 h builtins_table)

FirstAt-lt : (ss : List (List ℕ)) (word : List ℕ) (k : ℕ) → FirstAt ss word k → k < length ss
FirstAt-lt [] word k h = absurd h
FirstAt-lt (s ∷ ss) word zero h = omega arith
FirstAt-lt (s ∷ ss) word (suc k) (n, h) = omega (arith, FirstAt-lt ss word k h)

pub find_nstring-lt :
    (names : List (List ℕ)) (word : List ℕ) (k : ℕ)
    → find_nstring names word false ≡ some k
    → k < length names
find_nstring-lt names word k e = FirstAt-lt names word k ((find_nstring_iff names word k).0 e)
