-- ===== src/Esp32s3Backend/Literals.antt =====
-- The pool of literals, m4_compiler_literal of compile.c.
use mcp_forth.Prelude.{
  ℕ, suc, ◌+◌, ◌≤◌, ◌≡◌, refl, sym, ap, ◌∙◌, subst, inl, inr, true, false, Option, none, some, List,
  [], ◌∷◌, ◌++◌, arith, ◌==◌, ==_iff, Bool-cases, Option-cases, length, get_elem?, some-eq_some,
  get_elem?-some_lt, get_elem?-append_length,
}
use mcp_forth.Esp32s3Backend.Auto.{S, ◌>>=◌, literal_loop, compiler_literal}

literal_here :
    (x : ℕ) (pool : List ℕ) (value k : ℕ)
    → (x == value) ≡ true
    → literal_loop (x ∷ pool) value k ≡ some k
unfolding literal_loop
literal_here x pool value k h = rw (h) refl

literal_there :
    (x : ℕ) (pool : List ℕ) (value k : ℕ)
    → (x == value) ≡ false
    → literal_loop (x ∷ pool) value k ≡ literal_loop pool value (suc k)
unfolding literal_loop
literal_there x pool value k h = rw (h) refl

loop_found :
    (pool : List ℕ) (value k i : ℕ)
    → literal_loop pool value k ≡ some i
    → (m : ℕ) × (i ≡ k + m) × (get_elem? pool m ≡ some value)
unfolding literal_loop
loop_found [] value k i e = cc
loop_found (x ∷ pool) value k i e = elim (Bool-cases (x == value)) [
  | inl h ↦ (
    0,
    (omega (arith, some-eq_some (sym (literal_here x pool value k h) ∙ e))),
    ap some ((==_iff x value).0 h),
  )
  | inr h ↦
      let (m, at, found) =
        loop_found pool value (suc k) i (sym (literal_there x pool value k h) ∙ e) in
      (suc m, omega (arith, at), found)
]

loop_added :
    (pool : List ℕ) (value k : ℕ)
    → literal_loop pool value k ≡ none
    → literal_loop (pool ++ (value ∷ [])) value k ≡ some (k + length pool)
unfolding literal_loop
loop_added [] value k e =
    literal_here value [] value k ((==_iff value value).1 refl) ∙ ap some (omega arith)
loop_added (x ∷ pool) value k e = elim (Bool-cases (x == value)) [
  | inl h ↦ absurd (some-not_none (sym (literal_here x pool value k h) ∙ e))
  | inr h ↦
      literal_there x (pool ++ (value ∷ [])) value k h
      ∙ loop_added pool value (suc k) (sym (literal_there x pool value k h) ∙ e)
      ∙ ap some (omega arith)
]
  where
    some-not_none : {n : ℕ} → some n ≡ none → ⊥
    some-not_none e = cc

the_length : (pool : List ℕ) → 0 + length pool ≡ length pool
the_length pool = omega arith

-- What follows a computation that succeeds.
pub bind-some :
    {A B : Type 0} (m : S A) (f : A → S B) (pool more : List ℕ) (a : A)
    → m pool ≡ some (a, more)
    → (m >>= f) pool ≡ f a more
bind-some {A} {B} m f pool more a h = ap after h
  where
    after : Option (A × List ℕ) → Option (B × List ℕ)
    after none = none
    after (some r) = f r.0 r.1

-- A value has an index in the pool, which is found again, and where the value stands.
pub compiler_literal-total :
    (value : ℕ) (pool : List ℕ)
    → (i : ℕ) × (more : List ℕ) × (compiler_literal value pool ≡ some (i, more))
      × (i ≤ length pool)
      × (compiler_literal value more ≡ some (i, more))
      × (get_elem? more i ≡ some value)
unfolding compiler_literal
compiler_literal-total value pool = elim (Option-cases (literal_loop pool value 0)) [
  | inl e ↦ (
    length pool,
    pool ++ (value ∷ []),
    rw (compiler_literal, e) refl,
    omega arith,
    rw (compiler_literal, loop_added pool value 0 e)
        (ap (λ i. some (i, pool ++ (value ∷ []))) (the_length pool)),
    get_elem?-append_length pool [] value,
  )
  | inr (i, e) ↦
      let (m, at, found) = loop_found pool value 0 i e in
      let same : i ≡ m = omega (arith, at) in
      (
        i,
        pool,
        rw (compiler_literal, e) refl,
        subst (λ n. n ≤ length pool) (sym same) (omega (arith, get_elem?-some_lt pool m found)),
        rw (compiler_literal, e) refl,
        rw (same) found,
      )
]
