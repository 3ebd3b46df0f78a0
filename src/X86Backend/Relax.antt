-- ===== src/X86Backend/Relax.antt =====
-- The layout loop of `m4_compile` ends with the x86 backend.
use mcp_forth.Prelude.{
  ℕ, zero, suc, ◌+◌, ◌*◌, ◌≤◌, ◌<◌, ◌≡◌, refl, sym, ap, ◌∙◌, subst, ◌⊎◌, inl, inr, Bool, true,
  false, Option, some, List, [], ◌∷◌, arith, ◌==◌, length, get_elem?, set, length-set, some-eq_some,
  >>=-eq-some, All-set, All-get_elem?, get_elem?-some_lt,
}
use mcp_forth.Fragment.{
  Opcode, branch_if_zero, branch, loop, push_offset_address, Fragment, fragment_at,
}
use mcp_forth.X86Backend.{
  Generated, asm_num_is_small, fragment_bin_is_representable, jump_is_representable,
  address_is_representable, representable_of,
}
use mcp_forth.X86Backend.Dump.{x86_32_backend}
use mcp_forth.Compiler.Layout.{solve}
use mcp_forth.Compiler.Layout.Rounds
use mcp_forth.X86Backend.Ready.{
  refers, reads_next, limit, limit-le, limit-lt, IsKnown, IsReady, IsReady-sequenced,
  needs_at-total, fragment_bin_size-total, branch_offset-total, loop_offset-total,
  address_offset-total,
}

-- A verdict on a fragment: it can be encoded, or it can be relaxed once more.
abbrev Verdict : Option Bool → ℕ → ℕ → Type 0
Verdict result relaxation most =
    (result ≡ some true) ⊎ ((result ≡ some false) × (relaxation < most))

verdict : (b : Bool) (relaxation most : ℕ) → relaxation < most → Verdict (some b) relaxation most
verdict true relaxation most h = inl refl
verdict false relaxation most h = inr (refl, h)

jump-judged :
    (gen : Generated) (r : ℕ) (offset : Option ℕ)
    → r ≤ 1
    → ((num : ℕ) × (offset ≡ some num))
    → Verdict (jump_is_representable gen r offset) r 1
unfolding jump_is_representable
jump-judged gen zero offset h (num, e) = rw e (verdict (asm_num_is_small num) 0 1 (omega arith))
jump-judged gen (suc zero) offset h (num, e) = inl refl
jump-judged gen (suc (suc r)) offset h (num, e) = absurd (omega arith)

address-judged :
    (gen : Generated) (r offset : ℕ) → r ≤ 2 → Verdict (address_is_representable gen r offset) r 2
unfolding address_is_representable
address-judged gen zero offset h = verdict (offset == 0) 0 2 (omega arith)
address-judged gen (suc zero) offset h = verdict (asm_num_is_small offset) 1 2 (omega arith)
address-judged gen (suc (suc zero)) offset h = inl refl
address-judged gen (suc (suc (suc r))) offset h = absurd (omega arith)

module _ (gen : Generated) (n : ℕ) (sequence : List ℕ) (all : List Fragment)
    (ready : IsReady gen n sequence all) (i : ℕ) (h : i < length sequence) where
  representable_of-judged :
      (op : Opcode) (f : Fragment)
      → (refers op ≡ true → f.param < n)
      → (reads_next op ≡ true → suc i < length sequence)
      → f.relaxation ≤ limit op
      → Verdict (representable_of gen op all sequence i f) f.relaxation (limit op)
  unfolding representable_of refers reads_next limit
  representable_of-judged branch_if_zero f r m l =
      jump-judged gen f.relaxation _ l
        (branch_offset-total gen n sequence all ready i f (r refl) (m refl))
  representable_of-judged branch f r m l =
      jump-judged gen f.relaxation _ l
        (branch_offset-total gen n sequence all ready i f (r refl) (m refl))
  representable_of-judged loop f r m l =
      jump-judged gen f.relaxation _ l
        (loop_offset-total gen n sequence all ready i f (r refl) (m refl))
  representable_of-judged push_offset_address f r m l =
      let (needs, e) = needs_at-total gen n sequence all ready i h in
      let (offset, e') = address_offset-total gen n sequence all ready i f (r refl) needs in
      rw (e, e') (address-judged gen f.relaxation offset l)
  representable_of-judged op f r m l = inl refl

  fragment_bin_is_representable-judged :
      (f : Fragment)
      → fragment_at all sequence i ≡ some f
      → IsKnown gen n f
      → Verdict (fragment_bin_is_representable gen all sequence i) f.relaxation (limit f.op)
  unfolding fragment_bin_is_representable
  fragment_bin_is_representable-judged f e known =
      rw e
        (representable_of-judged f.op f known.referred (λ m. ready.followed i f e m) known.relaxed)

get_elem?-set-cases :
    (all : List Fragment) (s t : ℕ) (g f : Fragment)
    → get_elem? (set all s g) t ≡ some f
    → ((t ≡ s) × (f ≡ g)) ⊎ (get_elem? all t ≡ some f)
get_elem?-set-cases [] s t g f e = inr e
get_elem?-set-cases (x ∷ all) zero zero g f e = inl (refl, sym (some-eq_some e))
get_elem?-set-cases (x ∷ all) zero (suc t) g f e = inr e
get_elem?-set-cases (x ∷ all) (suc s) zero g f e = inr e
get_elem?-set-cases (x ∷ all) (suc s) (suc t) g f e = elim (get_elem?-set-cases all s t g f e) [
  | inl (p, q) ↦ inl (ap suc p, q)
  | inr q ↦ inr q
]

-- Another fragment with the opcode and the parameter, relaxed no further than its limit, keeps a
-- program ready.
IsReady-set :
    (gen : Generated) (n : ℕ) (sequence : List ℕ) (all : List Fragment) (s : ℕ) (f g : Fragment)
    → IsReady gen n sequence all
    → get_elem? all s ≡ some f
    → f.op ≡ g.op
    → f.param ≡ g.param
    → (f.relaxation ≡ g.relaxation) ⊎ (g.relaxation ≤ limit g.op)
    → IsReady gen n sequence (set all s g)
IsReady-set gen n sequence all s f g ready e op param relaxed =
    let old = All-get_elem? (IsKnown gen n) all s ready.known e in
    record {
      count = length-set all s g ∙ ready.count;
      sequenced = ready.sequenced;
      known = All-set (IsKnown gen n) all s g ready.known (record {
        builtin = λ b. rw (← param) (old.builtin (op ∙ b));
        referred = λ r. rw (← param) (old.referred (ap refers op ∙ r));
        relaxed = elim relaxed [ inl same ↦ rw (← same, ← op) old.relaxed | inr small ↦ small ];
      });
      followed = λ i h at reads.
          let (t, here, found) =
            >>=-eq-some (get_elem? sequence i) (λ t. get_elem? (set all s g) t) at in
          elim (get_elem?-set-cases all s t g h found) [
            | inl (same, is_g) ↦
                let there : get_elem? all t ≡ some f = rw same e in
                ready.followed i f (rw here there)
                  (ap reads_next op ∙ subst (λ x. reads_next x.op ≡ true) is_g reads)
            | inr old_one ↦ ready.followed i h (rw here old_one) reads
          ];
    }

-- The x86 backend keeps the laws of the layout loop.
x86_32_backend_laws : (gen : Generated) → ℕ → Rounds.Laws (x86_32_backend gen)
x86_32_backend_laws gen n = record {
  IsReady = λ sequence all. IsReady gen n sequence all;
  limit = limit;
  limited = limit-lt;
  sequenced = λ sequence all ready. IsReady-sequenced gen n sequence all ready;
  replaced = λ sequence all s f g ready e op param relaxed.
      IsReady-set gen n sequence all s f g ready e op param relaxed;
  sized = λ sequence all i s ready here.
      fragment_bin_size-total gen n sequence all ready i (get_elem?-some_lt sequence i here);
  judged = λ sequence all i s f ready here e.
      fragment_bin_is_representable-judged gen n sequence all ready i
        (get_elem?-some_lt sequence i here) f (rw here e)
        (All-get_elem? (IsKnown gen n) all s ready.known e);
}

room-le :
    (gen : Generated) (n : ℕ) (all : List Fragment)
    → Rounds.room (x86_32_backend gen) (x86_32_backend_laws gen n) all ≤ 2 * length all
unfolding Rounds.room x86_32_backend_laws
room-le gen n [] = omega arith
room-le gen n (f ∷ all) = omega (arith, room-le gen n all, limit-le f.op)

-- For every table of builtin words and every program in which the sequence, the jumps and the builtins
-- lead to entries, no fragment is relaxed past its longest form, and a fragment follows each jump: the
-- loop that solves lengths and positions ends after at most 2 * n + 1 rounds, n the number of
-- fragments, and every fragment can then be encoded where it stands.
pub x86_32_solve_ends :
    (gen : Generated) (sequence : List ℕ) (all : List Fragment)
    → IsReady gen (length all) sequence all
    → (solved : List Fragment) × (code_len : ℕ) × (solve
          (x86_32_backend gen)
          sequence
          (2 * length all + 1)
          all
        ≡ some (solved, code_len))
      × IsReady gen (length all) sequence solved
      × Rounds.AllRepresentable (x86_32_backend gen) solved sequence 0 sequence
unfolding x86_32_backend_laws
x86_32_solve_ends gen sequence all ready =
    Rounds.solve_total (x86_32_backend gen) (x86_32_backend_laws gen (length all)) sequence
      (2 * length all + 1) all ready (omega (arith, room-le gen (length all) all))
