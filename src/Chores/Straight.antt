-- ===== src/Chores/Straight.antt =====
-- A straight run of instructions with the chores of `m4_backend_fragment_get_needed_chores`.
use mcp_forth.Prelude.{
  ℕ, zero, suc, ◌+◌, ◌<◌, ◌≡◌, refl, ap, ◌∙◌, subst, inl, inr, true, false, Option, some, List,
  arith, ltb, Bool-cases, Option-cases, length, some-eq_some, IsWord, >>=-eq-some,
}
use mcp_forth.Fragment.{Fragment}
use mcp_forth.Chores.{
  Flags, below_up, above_down, flags_at, needs_below, needs_above,
  backend_fragment_get_needed_chores,
}
use mcp_forth.Chores.Boundary.{
  Machine, before, after, chore_a, chore_b, chore_y, chore_z, IsPaired, Agree, boundary,
  before-above_down, after-below_up, after-both,
}

module _ (get_flags : Fragment → Option Flags) (all : List Fragment) (sequence : List ℕ) where
  abbrev Has : ℕ → Flags → Type 0
  Has i f = flags_at get_flags all sequence i ≡ some f

  abbrev Needs : ℕ → Flags → Type 0
  Needs i n = backend_fragment_get_needed_chores get_flags all sequence i ≡ some n

  -- In front of the first instruction everything is needed.
  front_first : (f n : Flags) (m : Machine) → Has 0 f → Needs 0 n → before n m ≡ before f m
  unfolding backend_fragment_get_needed_chores needs_below needs_above
  front_first f n m h e = elim (Bool-cases (ltb 1 (length sequence))) [
    | inl t ↦
        let (down, d, e') = >>=-eq-some (flags_at get_flags all sequence 1) _ (rw (h, t) at e) in
        rw (← some-eq_some e') (before-above_down down f m)
    | inr t ↦ rw (some-eq_some (rw (h, t) at e)) refl
  ]

  -- In front of another, what the one above does not do.
  front :
      (i : ℕ) (up f n : Flags) (m : Machine)
      → Has i up
      → Has (suc i) f
      → Needs (suc i) n
      → before n m ≡ before (below_up up f) m
  unfolding backend_fragment_get_needed_chores needs_below needs_above
  front i up f n m u h e = elim (Bool-cases (ltb (suc i + 1) (length sequence))) [
    | inl t ↦
        let (down, d, e') =
          >>=-eq-some (flags_at get_flags all sequence (suc i + 1)) _ (rw (h, u, t) at e) in
        rw (← some-eq_some e') (before-above_down down (below_up up f) m)
    | inr t ↦ rw (some-eq_some (rw (h, u, t) at e)) refl
  ]

  -- Behind the last instruction everything is needed.
  back_last :
      (i : ℕ) (f n : Flags) (m : Machine)
      → length sequence ≡ suc i
      → Has i f
      → Needs i n
      → after n m ≡ after f m
  unfolding backend_fragment_get_needed_chores needs_below needs_above
  back_last zero f n m last h e = rw (some-eq_some (rw (h, last) at e)) refl
  back_last (suc i) f n m last h e =
      let t : ltb (suc i + 1) (length sequence) ≡ false = ground arith in
      elim (Option-cases (flags_at get_flags all sequence i)) [
        | inl u ↦ cc (rw (h, u) at e)
        | inr (up, u) ↦ rw (← some-eq_some (rw (h, u, t) at e)) (after-below_up up f m)
      ]

  -- Behind another, what the one below does not do.
  back :
      (i : ℕ) (down f n : Flags) (m : Machine)
      → suc i < length sequence
      → Has i f
      → Has (suc i) down
      → Needs i n
      → after n m ≡ after (above_down down f) m
  unfolding backend_fragment_get_needed_chores needs_below needs_above
  back zero down f n m more h d e =
      let t : ltb 1 (length sequence) ≡ true = ground arith in
      rw (some-eq_some (rw (h, t, d) at e)) refl
  back (suc i) down f n m more h d e =
      let t : ltb (suc i + 1) (length sequence) ≡ true = ground arith in
      let d' : Has (suc i + 1) down = subst (λ j. Has j down) (omega arith) d in
      elim (Option-cases (flags_at get_flags all sequence i)) [
        | inl u ↦ cc (rw (h, u) at e)
        | inr (up, u) ↦ rw (← some-eq_some (rw (h, u, t, d') at e)) (after-both up down f m)
      ]

-- `count` instructions from an index on, each between the chores given for it.
unfoldable pub run : (ℕ → Flags) → (ℕ → Machine → Machine) → ℕ → ℕ → Machine → Machine
run chores work zero i m = m
run chores work (suc count) i m =
    run chores work count (suc i) (after (chores i) (work i (before (chores i) m)))

-- An instruction's own work: it keeps ebx an address, and if it is said to clobber the top of the
-- stack, it does not read that.
pub record IsWork (f : Flags) (work : Machine → Machine) : Type 0 where
  pub address : (m : Machine) → IsWord m.ebx → IsWord (work m).ebx
  pub clobbers :
      f.clob ≡ true → (m m' : Machine) → m.ebx ≡ m'.ebx → m.memory ≡ m'.memory → work m ≡ work m'

Machine-ext : (m m' : Machine) → m.ebx ≡ m'.ebx → m.memory ≡ m'.memory → m.eax ≡ m'.eax → m ≡ m'
Machine-ext m m' p q r = λ i. record { eax = r i; ebx = p i; memory = q i }

-- Work from states that agree as far as the flags say gives the same state.
work-Agree :
    (f : Flags) (work : Machine → Machine) (m m' : Machine)
    → IsWork f work
    → Agree f.clob m m'
    → work m ≡ work m'
work-Agree f work m m' w (p, q, r) = elim (Bool-cases f.clob) [
  | inl t ↦ w.clobbers t m m' p q
  | inr t ↦ ap work (Machine-ext m m' p q (r t))
]

before-IsWord : (f : Flags) (m : Machine) → IsWord m.ebx → IsWord (before f m).ebx
unfolding before chore_a chore_b
before-IsWord f m h = elim (Bool-cases f.a) [
  | inl a ↦ elim (Bool-cases f.b) [
    | inl b ↦ rw (a, b) (omega arith)
    | inr b ↦ rw (a, b) (omega arith)
  ]
  | inr a ↦ elim (Bool-cases f.b) [ inl b ↦ rw (a, b) h | inr b ↦ rw (a, b) h ]
]

after-IsWord : (f : Flags) (m : Machine) → IsWord m.ebx → IsWord (after f m).ebx
unfolding after chore_y chore_z
after-IsWord f m h = elim (Bool-cases f.z) [
  | inl a ↦ elim (Bool-cases f.y) [
    | inl b ↦ rw (a, b) (omega arith)
    | inr b ↦ rw (a, b) (omega arith)
  ]
  | inr a ↦ elim (Bool-cases f.y) [ inl b ↦ rw (a, b) h | inr b ↦ rw (a, b) h ]
]

module _ (get_flags : Fragment → Option Flags) (all : List Fragment) (sequence : List ℕ)
    (flags needs : ℕ → Flags) (work : ℕ → Machine → Machine) where
  -- What is known of the instruction at each index of the sequence.
  abbrev pub Known : Type 0
  Known =
      (i : ℕ)
      → i < length sequence
      → Has get_flags all sequence i (flags i)
        × Needs get_flags all sequence i (needs i)
        × IsPaired (flags i)
        × IsWork (flags i) (work i)

  -- Behind the work of the instruction at `i`, with `count` more to come.
  run_rest :
      (count i : ℕ) (m : Machine)
      → Known
      → length sequence ≡ suc i + count
      → IsWord m.ebx
      → run needs work count (suc i) (after (needs i) m)
        ≡ run flags work count (suc i) (after (flags i) m)
  unfolding run
  run_rest zero i m known len h =
      let (has, need, _, _) = known i (omega arith) in
      back_last get_flags all sequence i (flags i) (needs i) m (omega arith) has need
  run_rest (suc count) i m known len h =
      let (has, need, paired, _) = known i (omega arith) in
      let (has', need', paired', is_work) = known (suc i) (omega arith) in
      let f = flags i in
      let d = flags (suc i) in
      let start : before (needs (suc i)) (after (needs i) m)
          ≡ before (below_up f d) (after (above_down d f) m) =
        front get_flags all sequence i f d (needs (suc i)) _ has has' need'
        ∙ ap (before (below_up f d))
            (back get_flags all sequence i d f (needs i) m (omega arith) has has' need) in
      let same : work (suc i) (before (needs (suc i)) (after (needs i) m))
          ≡ work (suc i) (before d (after f m)) =
        ap (work (suc i)) start
        ∙ work-Agree d (work (suc i)) _ _ is_work (boundary f d m paired paired' h) in
      ap (λ w. run needs work count (suc (suc i)) (after (needs (suc i)) w)) same
      ∙ run_rest count (suc i) _ known (omega arith)
          (is_work.address _ (before-IsWord d _ (after-IsWord f m h)))

  -- For a sequence of instructions executed one behind the other, whose flags are paired as the generator
  -- pairs them and whose work respects them, from any state with an address in ebx: with only the chores
  -- that the function calls needed, the run ends in the same registers and memory as with every chore
  -- that the flags name.
  pub run-needed_chores :
      (m : Machine)
      → Known
      → IsWord m.ebx
      → run needs work (length sequence) 0 m ≡ run flags work (length sequence) 0 m
  unfolding run
  run-needed_chores m known h = start (length sequence) refl
    where
      start : (n : ℕ) → length sequence ≡ n → run needs work n 0 m ≡ run flags work n 0 m
      start zero e = refl
      start (suc n) e =
          let (has, need, _, is_work) = known 0 (omega arith) in
          ap (λ b. run needs work n 1 (after (needs 0) (work 0 b)))
            (front_first get_flags all sequence (flags 0) (needs 0) m has need)
          ∙ run_rest n 0 _ known (omega arith) (is_work.address _ (before-IsWord (flags 0) m h))
