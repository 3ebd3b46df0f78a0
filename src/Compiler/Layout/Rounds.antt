-- ===== src/Compiler/Layout/Rounds.antt =====
-- The layout loop of `m4_compile` for any backend that keeps a few laws: the loop ends.
use mcp_forth.Prelude.{
  ℕ, zero, suc, ◌+◌, ◌-◌, ◌%◌, ◌≤◌, ◌<◌, ◌≡◌, refl, sym, ◌∙◌, subst, ◌⊎◌, inl, inr, Bool, true,
  false, some, List, [], ◌∷◌, arith, Bool-cases, length, get_elem?, set, length-set, drop, All,
  some-eq_some, get_elem?-lt, drop-cons,
}
use mcp_forth.Fragment.{Opcode, Fragment, Backend}
use mcp_forth.Compiler.Layout.{place_loop, check_loop, solve}

-- What the loop relies on. `limit` is how often a fragment with an opcode can be relaxed.
pub record Laws (backend : Backend) : Type 1 where
  pub IsReady : List ℕ → List Fragment → Type 0
  pub limit : Opcode → ℕ
  pub limited : (op : Opcode) → limit op < 256
  pub sequenced :
      (sequence : List ℕ) (all : List Fragment)
      → IsReady sequence all
      → All (λ s. s < length all) sequence
  pub replaced :
      (sequence : List ℕ) (all : List Fragment) (s : ℕ) (f g : Fragment)
      → IsReady sequence all
      → get_elem? all s ≡ some f
      → f.op ≡ g.op
      → f.param ≡ g.param
      → (f.relaxation ≡ g.relaxation) ⊎ (g.relaxation ≤ limit g.op)
      → IsReady sequence (set all s g)
  pub sized :
      (sequence : List ℕ) (all : List Fragment) (i s : ℕ)
      → IsReady sequence all
      → get_elem? sequence i ≡ some s
      → (size : ℕ) × (backend.fragment_bin_size all sequence i ≡ some size)
  pub judged :
      (sequence : List ℕ) (all : List Fragment) (i s : ℕ) (f : Fragment)
      → IsReady sequence all
      → get_elem? sequence i ≡ some s
      → get_elem? all s ≡ some f
      → (backend.fragment_bin_is_representable all sequence i ≡ some true)
        ⊎ ((backend.fragment_bin_is_representable all sequence i ≡ some false)
            × (f.relaxation < limit f.op))

-- The invariant of both loops: `rest` is the sequence from the index `i` on.
abbrev pub From : List ℕ → ℕ → List ℕ → Type 0
From sequence i rest = drop i sequence ≡ rest

-- Each fragment of the sequence, from the index `i` on, can be encoded where it stands.
abbrev pub AllRepresentable : Backend → List Fragment → List ℕ → ℕ → List ℕ → Type 0
AllRepresentable backend all sequence i [] = Unit
AllRepresentable backend all sequence i (s ∷ rest) =
    (backend.fragment_bin_is_representable all sequence i ≡ some true)
    × AllRepresentable backend all sequence (suc i) rest

pub AllRepresentable-at :
    (backend : Backend) (all : List Fragment) (sequence rest : List ℕ) (i j : ℕ)
    → AllRepresentable backend all sequence i rest
    → j < length rest
    → backend.fragment_bin_is_representable all sequence (i + j) ≡ some true
AllRepresentable-at backend all sequence [] i j r h = absurd (omega arith)
AllRepresentable-at backend all sequence (s ∷ rest) i zero (fits, _) h =
    subst (λ k. backend.fragment_bin_is_representable all sequence k ≡ some true) (omega arith) fits
AllRepresentable-at backend all sequence (s ∷ rest) i (suc j) (_, r) h =
    subst (λ k. backend.fragment_bin_is_representable all sequence k ≡ some true) (omega arith)
      (AllRepresentable-at backend all sequence rest (suc i) j r (omega arith))

module _ (backend : Backend) (laws : Laws backend) where
  -- How often the fragments can still be relaxed.
  unfoldable pub room : List Fragment → ℕ
  room [] = 0
  room (f ∷ fs) = (laws.limit f.op - f.relaxation) + room fs

  room-set :
      (all : List Fragment) (s : ℕ) (f g : Fragment)
      → get_elem? all s ≡ some f
      → f.op ≡ g.op
      → room (set all s g) + (laws.limit f.op - f.relaxation)
        ≡ room all + (laws.limit f.op - g.relaxation)
  unfolding room
  room-set [] s f g e o = cc
  room-set (h ∷ all) zero f g e o =
      let same : h ≡ f = some-eq_some e in rw (same, ← o) (omega arith)
  room-set (h ∷ all) (suc s) f g e o = omega (arith, room-set all s f g e o)

  module _ (sequence : List ℕ) where
    -- The end of the first loop: positions are set, and nothing else changes.
    abbrev Placed : List ℕ → ℕ → List Fragment → ℕ → Type 0
    Placed rest i all code_len =
        (placed : List Fragment) × (end : ℕ) × (place_loop backend sequence rest i all code_len
          ≡ some (placed, end))
        × laws.IsReady sequence placed
        × (room placed ≡ room all)

    place_loop_total :
        (rest : List ℕ) (i : ℕ) (all : List Fragment) (code_len : ℕ)
        → laws.IsReady sequence all
        → From sequence i rest
        → All (λ s. s < length all) rest
        → Placed rest i all code_len
    unfolding place_loop
    place_loop_total [] i all code_len ready from below = (all, code_len, refl, ready, refl)
    place_loop_total (s ∷ rest) i all code_len ready from (h, hs) =
        let (f, e) = get_elem?-lt all s h in
        let g : Fragment = record f { position = code_len } in
        let ready' = laws.replaced sequence all s f g ready e refl refl (inl refl) in
        let (here, from') = drop-cons sequence i from in
        let (size, z) = laws.sized sequence (set all s g) i s ready' here in
        let (placed, end, run, l, r) =
          place_loop_total rest (suc i) (set all s g) (code_len + size) ready' from'
            (rw (length-set all s g) hs) in
        (placed, end, rw (e, z) run, l, r ∙ omega (arith, room-set all s f g e refl))

    -- What the second loop does: it succeeds and keeps the program ready; it reports a solution only if
    -- it changed nothing and all is representable; and if it takes a solution back, some fragment was
    -- relaxed.
    abbrev Checks : List ℕ → ℕ → List Fragment → Bool → Type 0
    Checks rest i all solved =
        (checked : List Fragment) × (solved' : Bool) × (check_loop backend sequence rest i all
            solved
          ≡ some (checked, solved'))
        × laws.IsReady sequence checked
        × (room checked ≤ room all)
        × (solved' ≡ false → solved ≡ true → room checked < room all)
        × (solved' ≡ true
            → (solved ≡ true) × (checked ≡ all) × AllRepresentable backend all sequence i rest)

    check_loop_total :
        (rest : List ℕ) (i : ℕ) (all : List Fragment) (solved : Bool)
        → laws.IsReady sequence all
        → From sequence i rest
        → All (λ s. s < length all) rest
        → Checks rest i all solved
    unfolding check_loop
    check_loop_total [] i all solved ready from below =
        (all, solved, refl, ready, omega arith, (λ f t. cc), (λ t. (t, refl, tt)))
    check_loop_total (s ∷ rest) i all solved ready from (h, hs) =
        let (f, e) = get_elem?-lt all s h in
        let (here, from') = drop-cons sequence i from in
        elim (laws.judged sequence all i s f ready here e) [
          | inl fits ↦
              let (checked, solved', run, l, r, back, done) =
                check_loop_total rest (suc i) all solved ready from' hs in
              (
                checked,
                solved',
                rw (fits, e) run,
                l,
                r,
                back,
                λ t. let (a, b, c) = done t in (a, b, (fits, c)),
              )
          | inr (wide, small) ↦
              let byte : (f.relaxation + 1) % 256 ≡ f.relaxation + 1 =
                omega (arith, laws.limited f.op) in
              let g : Fragment = record f { relaxation = (f.relaxation + 1) % 256 } in
              let ready' = laws.replaced sequence all s f g ready e refl refl (inr (omega arith)) in
              let (checked, solved', run, l, r, back, done) =
                check_loop_total rest (suc i) (set all s g) false ready' from'
                  (rw (length-set all s g) hs) in
              let less = room-set all s f g e refl in
              (
                checked,
                solved',
                rw (wide, e) run,
                l,
                omega arith,
                (λ x y. omega arith),
                λ t. cc ((done t).0),
              )
        ]

    -- The loop's result: all is ready as before, and every fragment can be encoded where it stands.
    abbrev pub Solves : ℕ → List Fragment → Type 0
    Solves fuel all =
        (solved : List Fragment) × (code_len : ℕ) × (solve backend sequence fuel all
          ≡ some (solved, code_len))
        × laws.IsReady sequence solved
        × AllRepresentable backend solved sequence 0 sequence

    -- For every backend with the laws and every program that is ready for it: the loop that solves lengths
    -- and positions ends in fewer rounds than any number above the relaxations left, and every fragment
    -- of the sequence is then representable.
    pub solve_total :
        (fuel : ℕ) (all : List Fragment)
        → laws.IsReady sequence all
        → room all < fuel
        → Solves fuel all
    unfolding solve
    solve_total zero all ready h = absurd (omega arith)
    solve_total (suc fuel) all ready h =
        let (placed, code_len, run, ready', same) =
          place_loop_total sequence 0 all 0 ready refl (laws.sequenced sequence all ready) in
        let (checked, solved, run', ready'', le, less, done) =
          check_loop_total sequence 0 placed true ready' refl
            (laws.sequenced sequence placed ready') in
        elim (Bool-cases solved) [
          | inl t ↦
              let (_, kept, rep) = done t in
              (
                checked,
                code_len,
                rw (run, run', t),
                ready'',
                subst (λ a. AllRepresentable backend a sequence 0 sequence) (sym kept) rep,
              )
          | inr f ↦
              let (final, len, run'', l, r) =
                solve_total fuel checked ready'' (omega (arith, less f refl)) in
              (final, len, rw (run, run', f) run'', l, r)
        ]
