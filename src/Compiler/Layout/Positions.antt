-- ===== src/Compiler/Layout/Positions.antt =====
-- Where the layout loop of `m4_compile` puts the fragments.
use mcp_forth.Prelude.{
  ℕ, zero, suc, ◌+◌, ◌≡◌, refl, sym, ap, ◌∙◌, subst, ◌≢◌, inl, inr, Bool, true, false, some, List,
  [], ◌∷◌, arith, Bool-cases, get_elem?, set, get_elem?-set_self, get_elem?-set_ne, All,
  some-eq_some, >>=-eq-some, get_elem?-some_lt,
}
use mcp_forth.Fragment.{Fragment, Backend}
use mcp_forth.Compiler.Layout.{place_loop, check_loop, solve}

-- No index occurs twice.
abbrev pub Distinct : List ℕ → Type 0
Distinct [] = Unit
Distinct (s ∷ rest) = All (λ t. s ≢ t) rest × Distinct rest

-- The size of an instruction does not depend on where it stands.
abbrev pub Movable : Backend → Type 0
Movable backend =
    (all : List Fragment) (sequence : List ℕ) (i s p : ℕ) (f : Fragment)
    → get_elem? all s ≡ some f
    → backend.fragment_bin_size (set all s (record f { position = p })) sequence i
      ≡ backend.fragment_bin_size all sequence i

module _ (backend : Backend) where
  -- From the index `i` on, each fragment stands where the one before ends, the first at `at`, and the
  -- last ends at `end`.
  abbrev pub LaidOut : List Fragment → List ℕ → List ℕ → ℕ → ℕ → ℕ → Type 0
  LaidOut all sequence [] i at end = at ≡ end
  LaidOut all sequence (s ∷ rest) i at end =
      (f : Fragment) × (size : ℕ) × (get_elem? all s ≡ some f)
      × (f.position ≡ at)
      × (backend.fragment_bin_size all sequence i ≡ some size)
      × LaidOut all sequence rest (suc i) (at + size) end

  -- The steps of one round of the first loop.
  place_loop-cons :
      (sequence rest : List ℕ) (s i : ℕ) (all placed : List Fragment) (code_len end : ℕ)
      → place_loop backend sequence (s ∷ rest) i all code_len ≡ some (placed, end)
      → (f : Fragment) × (get_elem? all s ≡ some f)
        × ((size : ℕ) × (backend.fragment_bin_size
                (set all s (record f { position = code_len }))
                sequence
                i
              ≡ some size)
            × (place_loop backend sequence rest
                  (suc i)
                  (set all s (record f { position = code_len }))
                  (code_len + size)
                ≡ some (placed, end)))
  unfolding place_loop
  place_loop-cons sequence rest s i all placed code_len end run =
      let (f, e, run') = >>=-eq-some (get_elem? all s) _ run in
      (f, e, >>=-eq-some (backend.fragment_bin_size _ sequence i) _ run')

  -- A fragment that the rest of the sequence does not name is left alone.
  place_loop-frame :
      (sequence rest : List ℕ) (i : ℕ) (all placed : List Fragment) (code_len end s : ℕ)
      → All (λ t. s ≢ t) rest
      → place_loop backend sequence rest i all code_len ≡ some (placed, end)
      → get_elem? placed s ≡ get_elem? all s
  unfolding place_loop
  place_loop-frame sequence [] i all placed code_len end s away run = cc
  place_loop-frame sequence (t ∷ rest) i all placed code_len end s (ne, away) run =
      let (f, e, (size, z, run')) = place_loop-cons sequence rest t i all placed code_len end run in
      place_loop-frame sequence rest (suc i) _ placed (code_len + size) end s away run'
      ∙ get_elem?-set_ne all _ (λ q. ne (sym q))

  module _ (movable : Movable backend) where
    -- The first loop does not change the sizes.
    place_loop-sizes :
        (sequence rest : List ℕ) (i : ℕ) (all placed : List Fragment) (code_len end j : ℕ)
        → place_loop backend sequence rest i all code_len ≡ some (placed, end)
        → backend.fragment_bin_size placed sequence j ≡ backend.fragment_bin_size all sequence j
    unfolding place_loop
    place_loop-sizes sequence [] i all placed code_len end j run =
        let same : all ≡ placed = ap (λ r. r.0) (some-eq_some run) in rw same refl
    place_loop-sizes sequence (t ∷ rest) i all placed code_len end j run =
        let (f, e, (size, z, run')) =
          place_loop-cons sequence rest t i all placed code_len end run in
        place_loop-sizes sequence rest (suc i) _ placed (code_len + size) end j run'
        ∙ movable all sequence j t code_len f e

    place_loop-LaidOut :
        (sequence rest : List ℕ) (i : ℕ) (all placed : List Fragment) (code_len end : ℕ)
        → Distinct rest
        → place_loop backend sequence rest i all code_len ≡ some (placed, end)
        → LaidOut placed sequence rest i code_len end
    unfolding place_loop
    place_loop-LaidOut sequence [] i all placed code_len end d run =
        ap (λ r. r.1) (some-eq_some run)
    place_loop-LaidOut sequence (s ∷ rest) i all placed code_len end (away, d) run =
        let (f, e, (size, z, run')) =
          place_loop-cons sequence rest s i all placed code_len end run in
        let g : Fragment = record f { position = code_len } in
        (
          g,
          size,
          place_loop-frame sequence rest (suc i) _ placed (code_len + size) end s away run'
              ∙ get_elem?-set_self all s g (get_elem?-some_lt all s e),
          refl,
          place_loop-sizes sequence rest (suc i) _ placed (code_len + size) end i run' ∙ z,
          place_loop-LaidOut sequence rest (suc i) _ placed (code_len + size) end d run',
        )

  -- A round that reports a solution has changed nothing.
  check_loop-unchanged :
      (sequence rest : List ℕ) (i : ℕ) (all checked : List Fragment) (solved : Bool)
      → check_loop backend sequence rest i all solved ≡ some (checked, true)
      → (checked ≡ all) × (solved ≡ true)
  unfolding check_loop
  check_loop-unchanged sequence [] i all checked solved run =
      let same : (all, solved) ≡ (checked, true) = some-eq_some run in
      (sym (ap (λ r. r.0) same), ap (λ r. r.1) same)
  check_loop-unchanged sequence (s ∷ rest) i all checked solved run =
      let (ok, e, run') =
        >>=-eq-some (backend.fragment_bin_is_representable all sequence i) _ run in
      let (f, e', run'') = >>=-eq-some (get_elem? all s) _ run' in
      elim (Bool-cases ok) [
        | inl t ↦ check_loop-unchanged sequence rest (suc i) all checked solved (rw t at run'')
        | inr t ↦
            let (_, unsolved) =
              check_loop-unchanged sequence rest (suc i) _ checked false (rw t at run'') in
            cc unsolved
      ]

  -- One round of both loops: it ends with the layout, or the next round starts.
  round-LaidOut :
      (sequence : List ℕ) (fuel : ℕ) (all placed checked solved : List Fragment)
      → (len code_len : ℕ) (done : Bool) → Movable backend
      → Distinct sequence
      → place_loop backend sequence sequence 0 all 0 ≡ some (placed, len)
      → check_loop backend sequence sequence 0 placed true ≡ some (checked, done)
      → (elim done [ true ↦ some (checked, len) | false ↦ solve backend sequence fuel checked ])
        ≡ some (solved, code_len)
      → (solve backend sequence fuel checked ≡ some (solved, code_len)
          → LaidOut solved sequence sequence 0 0 code_len)
      → LaidOut solved sequence sequence 0 0 code_len
  round-LaidOut sequence fuel all placed checked solved len code_len true movable d e e' end next =
      let (same, _) = check_loop-unchanged sequence sequence 0 placed checked true e' in
      let end' : (checked, len) ≡ (solved, code_len) = some-eq_some end in
      let kept : placed ≡ solved = sym same ∙ ap (λ r. r.0) end' in
      let last : len ≡ code_len = ap (λ r. r.1) end' in
      rw (← kept, ← last) (place_loop-LaidOut movable sequence sequence 0 all placed 0 len d e)
  round-LaidOut sequence fuel all placed checked solved len code_len false movable d e e' end next =
      next end

  -- For every backend whose sizes do not depend on positions and every sequence without repetition:
  -- when the loop that solves lengths and positions ends, each fragment stands where the one before it in
  -- the sequence ends, by the sizes that the backend then gives, and the code's length is the last end.
  pub solve-LaidOut :
      (sequence : List ℕ) (fuel : ℕ) (all solved : List Fragment) (code_len : ℕ)
      → Movable backend
      → Distinct sequence
      → solve backend sequence fuel all ≡ some (solved, code_len)
      → LaidOut solved sequence sequence 0 0 code_len
  unfolding solve
  solve-LaidOut sequence zero all solved code_len movable d run = cc
  solve-LaidOut sequence (suc fuel) all solved code_len movable d run =
      let (first, e, run') = >>=-eq-some (place_loop backend sequence sequence 0 all 0) _ run in
      let (second, e', run'') =
        >>=-eq-some (check_loop backend sequence sequence 0 first.0 true) _ run' in
      round-LaidOut sequence fuel all first.0 second.0 solved first.1 code_len second.1 movable d e
        e' run'' (solve-LaidOut sequence fuel second.0 solved code_len movable d)

  -- The fragment behind one stands where that one ends.
  pub LaidOut-next :
      (all : List Fragment) (sequence rest : List ℕ) (i at end j : ℕ) {s t n : ℕ} {f g : Fragment}
      → LaidOut all sequence rest i at end
      → get_elem? rest j ≡ some s
      → get_elem? rest (suc j) ≡ some t
      → get_elem? all s ≡ some f
      → get_elem? all t ≡ some g
      → backend.fragment_bin_size all sequence (i + j) ≡ some n
      → g.position ≡ f.position + n
  LaidOut-next all sequence [] i at end j l a b e e' z = cc
  LaidOut-next all sequence (s ∷ []) i at end zero l a b e e' z = cc
  LaidOut-next all sequence (s ∷ t ∷ rest) i at end zero {n = n} {f} {g} l a b e e' z =
      let (f', size, found, here, sized, l') = l in
      let (g', size', found', next, _, _) = l' in
      let is_f : f' ≡ f = some-eq_some (sym found ∙ ap (get_elem? all) (some-eq_some a) ∙ e) in
      let is_g : g' ≡ g = some-eq_some (sym found' ∙ ap (get_elem? all) (some-eq_some b) ∙ e') in
      let z' : backend.fragment_bin_size all sequence i ≡ some n =
        subst (λ k. backend.fragment_bin_size all sequence k ≡ some n) (omega arith) z in
      let is_n = some-eq_some (sym sized ∙ z') in
      omega (arith, here, next, is_n, ap (λ x. x.position) is_f, ap (λ x. x.position) is_g)
  LaidOut-next all sequence (s ∷ rest) i at end (suc j) {n = n} l a b e e' z =
      let (f', size, found, here, sized, l') = l in
      LaidOut-next all sequence rest (suc i) (at + size) end j l' a b e e'
        (subst (λ k. backend.fragment_bin_size all sequence k ≡ some n) (omega arith) z)
