-- ===== src/X86Backend/Move.antt =====
-- The sizes of the x86 backend's code do not depend on where it stands.
use mcp_forth.Prelude.{
  ℕ, zero, suc, ◌+◌, ◌≡◌, refl, sym, ap, ◌∙◌, inl, inr, some, List, [], ◌∷◌, map, Option-cases,
  get_elem?, set, some-eq_some, ◌>>=◌,
}
use mcp_forth.Fragment.{Opcode, builtin_word, exit_word, Fragment, fragment_at}
use mcp_forth.X86Backend.{Generated, needs_at, fragment_bin_size, size_of, flags_of, get_flags}
use mcp_forth.X86Backend.Dump.{x86_32_backend}
use mcp_forth.Chores.{flags_at, needs_below, needs_above, backend_fragment_get_needed_chores}
use mcp_forth.Compiler.Layout.Positions.{Movable}

-- A fragment without its position.
abbrev unplaced : Fragment → Fragment
unplaced f = record f { position = 0 }

get_elem?-unplaced :
    (all : List Fragment) (t : ℕ)
    → get_elem? (map unplaced all) t ≡ (get_elem? all t >>= λ f. some (unplaced f))
get_elem?-unplaced [] t = refl
get_elem?-unplaced (f ∷ all) zero = refl
get_elem?-unplaced (f ∷ all) (suc t) = get_elem?-unplaced all t

unplaced-set :
    (all : List Fragment) (s p : ℕ) (f : Fragment)
    → get_elem? all s ≡ some f
    → map unplaced (set all s (record f { position = p })) ≡ map unplaced all
unplaced-set [] s p f e = refl
unplaced-set (g ∷ all) zero p f e = ap (λ h. unplaced h ∷ map unplaced all) (sym (some-eq_some e))
unplaced-set (g ∷ all) (suc s) p f e = ap (λ fs. unplaced g ∷ fs) (unplaced-set all s p f e)

module _ (gen : Generated) where
  flags_of-unplaced :
      (op : Opcode) (f : Fragment) → flags_of gen op (unplaced f) ≡ flags_of gen op f
  unfolding flags_of
  flags_of-unplaced builtin_word f = refl
  flags_of-unplaced op f = refl

  size_of-unplaced :
      (op : Opcode) (all : List Fragment) (f : Fragment)
      → size_of gen op (map unplaced all) (unplaced f) ≡ size_of gen op all f
  unfolding size_of
  size_of-unplaced exit_word all f = elim (Option-cases (get_elem? all f.param)) [
    | inl e ↦ rw (get_elem?-unplaced all f.param, e) refl
    | inr (g, e) ↦ rw (get_elem?-unplaced all f.param, e) refl
  ]
  size_of-unplaced op all f = refl

  module _ (all : List Fragment) (sequence : List ℕ) where
    fragment_at-unplaced :
        (i : ℕ)
        → fragment_at (map unplaced all) sequence i
          ≡ (fragment_at all sequence i >>= λ f. some (unplaced f))
    fragment_at-unplaced i = elim (Option-cases (get_elem? sequence i)) [
      | inl e ↦ rw e refl
      | inr (s, e) ↦ rw e (get_elem?-unplaced all s)
    ]

    flags_at-unplaced :
        (i : ℕ)
        → flags_at (get_flags gen) (map unplaced all) sequence i
          ≡ flags_at (get_flags gen) all sequence i
    unfolding flags_at get_flags
    flags_at-unplaced i = elim (Option-cases (fragment_at all sequence i)) [
      | inl e ↦ rw (fragment_at-unplaced i, e) refl
      | inr (f, e) ↦ rw (fragment_at-unplaced i, e) (flags_of-unplaced f.op f)
    ]

    needs_at-unplaced :
        (i : ℕ) → needs_at gen (map unplaced all) sequence i ≡ needs_at gen all sequence i
    unfolding needs_at backend_fragment_get_needed_chores needs_below needs_above
    needs_at-unplaced zero = rw (flags_at-unplaced 0, flags_at-unplaced 1) refl
    needs_at-unplaced (suc i) =
        rw (flags_at-unplaced (suc i), flags_at-unplaced i, flags_at-unplaced (suc i + 1)) refl

    fragment_bin_size-unplaced :
        (i : ℕ)
        → fragment_bin_size gen (map unplaced all) sequence i ≡ fragment_bin_size gen all sequence i
    unfolding fragment_bin_size
    fragment_bin_size-unplaced i = elim (Option-cases (fragment_at all sequence i)) [
      | inl e ↦ rw (needs_at-unplaced i, fragment_at-unplaced i, e) refl
      | inr (f, e) ↦
          rw (needs_at-unplaced i, fragment_at-unplaced i, e, size_of-unplaced f.op all f) refl
    ]

  -- The sizes of the x86 backend do not depend on the positions.
  pub x86_32_backend-Movable : Movable (x86_32_backend gen)
  x86_32_backend-Movable all sequence i s p f e =
      sym (fragment_bin_size-unplaced (set all s (record f { position = p })) sequence i)
      ∙ ap (λ fs. fragment_bin_size gen fs sequence i) (unplaced-set all s p f e)
      ∙ fragment_bin_size-unplaced all sequence i
