-- ===== src/Source/Escape/Dump.antt =====
-- The loops over an escaped string in compile.c, against the calls of the iterator.
use mcp_forth.Prelude.{
  ℕ, zero, suc, ◌+◌, ◌≤◌, ◌<◌, ◌≡◌, refl, sym, ap, ◌∙◌, subst, ◌↔◌, ◌⊎◌, inl, inr, Bool, true, ◌||◌,
  some, List, [], ◌∷◌, arith, ◌==◌, Bool-cases, length, some-eq_some, if_intro, bytes_eq,
  bytes_eq_iff,
}
use mcp_forth.Source.Escape.{
  IterResult, char, ended_ok, ended_early, escape_switch, escaped_string_iter_char, dump_loop,
  dump_escaped_string, next_loop, next_escaped_string, equal_loop, equal_escaped_string,
}

-- The iterator, called again and again, gives the bytes `out` and ends with `rest`.
pub data Iterates : List ℕ → List ℕ → List ℕ → Type 0 where
  close : {src rest : List ℕ} → escaped_string_iter_char src ≡ ended_ok rest → Iterates src [] rest
  step :
      {src out rest r : List ℕ} {c : ℕ}
      → escaped_string_iter_char src ≡ char c r
      → Iterates r out rest
      → Iterates src (c ∷ out) rest

abbrev RestBelow : ℕ → IterResult → Type 0
RestBelow n (char c r) = length r < n
RestBelow n (ended_ok r) = length r < n
RestBelow n ended_early = Unit

RestBelow-mono : (m n : ℕ) (i : IterResult) → m ≤ n → RestBelow m i → RestBelow n i
RestBelow-mono m n (char c r) h b = omega arith
RestBelow-mono m n (ended_ok r) h b = omega arith
RestBelow-mono m n ended_early h b = tt

escape_switch-RestBelow :
    (c : ℕ) (rest : List ℕ) (again : IterResult)
    → RestBelow (length rest) again
    → RestBelow (suc (suc (length rest))) (escape_switch c rest again)
unfolding escape_switch
escape_switch-RestBelow c rest again h =
    let P = RestBelow (suc (suc (length rest))) in
    let kept : length rest < suc (suc (length rest)) = omega arith in
    if_intro P (c == b'\\' || c == 34) kept (
      if_intro P (c == b'n') kept (
        if_intro P (c == b'r') kept (
          if_intro P (c == b't') kept (
            if_intro P (c == 10)
              (RestBelow-mono (length rest) (suc (suc (length rest))) again (omega arith) h)
              (omega arith)))))

iter_char-RestBelow : (src : List ℕ) → RestBelow (length src) (escaped_string_iter_char src)
unfolding escaped_string_iter_char
iter_char-RestBelow [] = tt
iter_char-RestBelow (a ∷ []) =
    if_intro (RestBelow 1) (a == 34) (omega arith)
      (if_intro (RestBelow 1) (a == b'\\') tt (omega arith))
iter_char-RestBelow (a ∷ b ∷ ds) =
    let P = RestBelow (suc (suc (length ds))) in
    if_intro P (a == 34) (omega arith) (
      if_intro P (a == b'\\') (escape_switch-RestBelow b ds _ (iter_char-RestBelow ds))
        (omega arith))

-- A round that gives a byte takes one.
pub iter_char-length :
    (src : List ℕ) (c : ℕ) (r : List ℕ)
    → escaped_string_iter_char src ≡ char c r
    → length r < length src
iter_char-length src c r e = subst (RestBelow (length src)) e (iter_char-RestBelow src)

IterResult-cases :
    (i : IterResult)
    → ((c : ℕ) × (r : List ℕ) × (i ≡ char c r))
      ⊎ ((r : List ℕ) × (i ≡ ended_ok r))
      ⊎ (i ≡ ended_early)
IterResult-cases (char c r) = inl (c, r, refl)
IterResult-cases (ended_ok r) = inr (inl (r, refl))
IterResult-cases ended_early = inr (inr refl)

-- With fuel for the text, both loops read what the text stands for.
pub dump_loop-Iterates :
    (f : ℕ) {src out rest : List ℕ}
    → Iterates src out rest
    → length src < f
    → dump_loop f src ≡ some out
unfolding dump_loop
dump_loop-Iterates zero u h = absurd (omega arith)
dump_loop-Iterates (suc f) (close e) h = rw (e, dump_loop)
dump_loop-Iterates (suc f) {src = src} (step {r = r} {c = c} e u) h =
    rw (e, dump_loop) (rw (dump_loop-Iterates f u (omega (arith, iter_char-length src c r e))))

next_loop-Iterates :
    (f n : ℕ) {src out rest : List ℕ}
    → Iterates src out rest
    → length src < f
    → next_loop f src n ≡ some (n + length out, rest)
unfolding next_loop
next_loop-Iterates zero n u h = absurd (omega arith)
next_loop-Iterates (suc f) n (close e) h = rw (e, next_loop) (ground arith)
next_loop-Iterates (suc f) n {src = src} (step {r = r} {c = c} e u) h =
    rw (e, next_loop)
      (rw (next_loop-Iterates f (n + 1) u (omega (arith, iter_char-length src c r e)))
        (ground arith))

next_loop_inv :
    (f n : ℕ) (src : List ℕ) {m : ℕ} {rest : List ℕ}
    → next_loop f src n ≡ some (m, rest)
    → (out : List ℕ) × Iterates src out rest
unfolding next_loop
next_loop_inv zero n src e = cc
next_loop_inv (suc f) n src {m} {rest} e = elim (IterResult-cases (escaped_string_iter_char src)) [
  | inl (c, r, i) ↦
      let (out, u) = next_loop_inv f (n + 1) r (rw (i, next_loop) at e) in (c ∷ out, step i u)
  | inr (inl (r, i)) ↦
      let e' : (n, r) ≡ (m, rest) = some-eq_some (rw (i, next_loop) at e) in
      ([], close (i ∙ ap (λ p. ended_ok p.1) e'))
  | inr (inr i) ↦ cc (rw (i, next_loop) at e)
]

-- The scanner counts what the iterator gives.
pub next_escaped_string-Iterates :
    (src : List ℕ) (n : ℕ) (rest : List ℕ)
    → (next_escaped_string src ≡ some (n, rest))
      ↔ ((out : List ℕ) × Iterates src out rest × (length out ≡ n))
unfolding next_escaped_string
next_escaped_string-Iterates src n rest = (
  λ e.
      let (out, u) = next_loop_inv (suc (length src)) 0 src e in
      let p : (0 + length out, rest) ≡ (n, rest) =
        some-eq_some (sym (next_loop-Iterates (suc (length src)) 0 u (omega arith)) ∙ e) in
      (out, u, omega (arith, ap (λ (q : ℕ × List ℕ). q.0) p)),
  λ (out, u, l).
      next_loop-Iterates (suc (length src)) 0 u (omega arith)
      ∙ ap (λ k. some (k, rest)) (omega arith),
)

-- The bytes that the dump writes are as many as the scanner counted: the space that the compiler
-- reserves for a string is what the string takes, and the dump's assertion holds.
pub dump-next_escaped_string :
    (src : List ℕ) (n : ℕ) (rest : List ℕ)
    → next_escaped_string src ≡ some (n, rest)
    → (out : List ℕ) × (dump_escaped_string src ≡ some out) × (length out ≡ n)
unfolding dump_escaped_string
dump-next_escaped_string src n rest e =
    let (out, u, l) = (next_escaped_string-Iterates src n rest).0 e in
    (out, dump_loop-Iterates (suc (length src)) u (omega arith), l)

equal_loop-Iterates :
    (f : ℕ) {s1 o1 r1 s2 o2 r2 : List ℕ}
    → Iterates s1 o1 r1
    → Iterates s2 o2 r2
    → length s1 < f
    → equal_loop f s1 s2 ≡ some (bytes_eq o1 o2)
unfolding equal_loop bytes_eq
equal_loop-Iterates zero u v h = absurd (omega arith)
equal_loop-Iterates (suc f) (close e) (close e') h = rw (e, equal_loop) (rw (e', equal_loop))
equal_loop-Iterates (suc f) (close e) (step e' v) h = rw (e, equal_loop) (rw (e', equal_loop))
equal_loop-Iterates (suc f) (step e u) (close e') h = rw (e, equal_loop) (rw (e', equal_loop))
equal_loop-Iterates (suc f) {s1 = s1} (step {r = r} {c = c} e u) (step {c = d} e' v) h =
    rw (e, equal_loop)
      (rw (e', equal_loop)
        (elim (Bool-cases (c == d)) [
          | inl same ↦
              rw (same, equal_loop)
                (equal_loop-Iterates f u v (omega (arith, iter_char-length s1 c r e)))
          | inr other ↦ rw (other, equal_loop)
        ]))

-- Two strings that the scanner accepted: neither assertion of `equal_escaped_string` fails, and it
-- is true exactly when both stand for the same bytes. So a shared string constant is the same text.
pub equal_escaped_string_iff :
    (s1 s2 rest1 rest2 : List ℕ) (n1 n2 : ℕ)
    → next_escaped_string s1 ≡ some (n1, rest1)
    → next_escaped_string s2 ≡ some (n2, rest2)
    → ((b : Bool) × (equal_escaped_string s1 s2 ≡ some b))
      × ((equal_escaped_string s1 s2 ≡ some true)
          ↔ (dump_escaped_string s1 ≡ dump_escaped_string s2))
unfolding equal_escaped_string dump_escaped_string
equal_escaped_string_iff s1 s2 rest1 rest2 n1 n2 e1 e2 =
    let (o1, u, _) = (next_escaped_string-Iterates s1 n1 rest1).0 e1 in
    let (o2, v, _) = (next_escaped_string-Iterates s2 n2 rest2).0 e2 in
    let e = equal_loop-Iterates (suc (length s1)) u v (omega arith) in
    let d1 = dump_loop-Iterates (suc (length s1)) u (omega arith) in
    let d2 = dump_loop-Iterates (suc (length s2)) v (omega arith) in
    let i = bytes_eq_iff o1 o2 in
    (
      (bytes_eq o1 o2, e),
      (
        (λ t. d1 ∙ ap some (i.0 (some-eq_some (sym e ∙ t))) ∙ sym d2),
        (λ t. e ∙ ap some (i.1 (some-eq_some (sym d1 ∙ t ∙ d2)))),
      ),
    )

Iterates-length : {src out rest : List ℕ} → Iterates src out rest → length rest < length src
Iterates-length {src} (close e) = subst (RestBelow (length src)) e (iter_char-RestBelow src)
Iterates-length {src} (step {r = r} {c = c} e u) =
    omega (arith, iter_char-length src c r e, Iterates-length u)

-- A string takes its closing quote at least.
pub next_escaped_string-length :
    (src : List ℕ) {n : ℕ} {rest : List ℕ}
    → next_escaped_string src ≡ some (n, rest)
    → length rest < length src
next_escaped_string-length src {n} {rest} e =
    let (out, u, _) = (next_escaped_string-Iterates src n rest).0 e in Iterates-length u
