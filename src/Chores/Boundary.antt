-- ===== src/Chores/Boundary.antt =====
-- Leaving chores out between two instructions does not change what a run of instructions does.
use mcp_forth.Prelude.{
  ℕ, ◌≡◌, refl, sym, ap, inl, inr, Bool, true, false, ◌&&◌, arith, ◌==◌, if◌then◌else◌, ==_iff,
  Bool-cases, IsWord, add_word, sub_word,
}
use mcp_forth.Chores.{Flags, below_up, above_down}
use mathlib.Core.Path.{fun_ext}

-- The registers and the memory that the chores touch, as x86-32_backend.c describes them: eax is the
-- top of the stack, ebx points to the word below it, and the memory is read and written by words.
pub record Machine : Type 0 where
  pub eax : ℕ
  pub ebx : ℕ
  pub memory : ℕ → ℕ

abbrev pub store : (ℕ → ℕ) → ℕ → ℕ → ℕ → ℕ
store memory address value at = if at == address then value else memory at

-- A: `add ebx, 4`
unfoldable pub chore_a : Machine → Machine
chore_a m = record m { ebx = add_word m.ebx 4 }

-- B: `mov [ebx], eax`
unfoldable pub chore_b : Machine → Machine
chore_b m = record m { memory = store m.memory m.ebx m.eax }

-- Y: `mov eax, [ebx]`
unfoldable pub chore_y : Machine → Machine
chore_y m = record m { eax = m.memory m.ebx }

-- Z: `sub ebx, 4`
unfoldable pub chore_z : Machine → Machine
chore_z m = record m { ebx = sub_word m.ebx 4 }

abbrev pub when : Bool → (Machine → Machine) → Machine → Machine
when true chore m = chore m
when false chore m = m

-- What a dump puts in front of an instruction, and behind it.
unfoldable pub before : Flags → Machine → Machine
before needs m = when needs.b chore_b (when needs.a chore_a m)

unfoldable pub after : Flags → Machine → Machine
after needs m = when needs.z chore_z (when needs.y chore_y m)

-- What backend_generator.py gives for the flags of every word: B only with A, CLOB only with B, and Y
-- only with Z.
pub record IsPaired (f : Flags) : Type 0 where
  pub b_a : f.b ≡ true → f.a ≡ true
  pub clob_b : f.clob ≡ true → f.b ≡ true
  pub y_z : f.y ≡ true → f.z ≡ true

-- The same state, but for the top of the stack where that is about to be replaced.
abbrev pub Agree : Bool → Machine → Machine → Type 0
Agree clob m m' = (m.ebx ≡ m'.ebx) × (m.memory ≡ m'.memory) × (clob ≡ false → m.eax ≡ m'.eax)

store_self : (memory : ℕ → ℕ) (address : ℕ) → store memory address (memory address) ≡ memory
store_self memory address = fun_ext λ at. same at
  where
    same : (at : ℕ) → store memory address (memory address) at ≡ memory at
    same at = elim (Bool-cases (at == address)) [
      | inl e ↦ rw e (ap memory (sym ((==_iff at address).0 e)))
      | inr e ↦ rw e refl
    ]

store_at :
    (memory : ℕ → ℕ) (address address' : ℕ)
    → address' ≡ address
    → store memory address' (memory address) ≡ memory
store_at memory address address' e = rw e (store_self memory address)

-- `boundary` by the flags that matter.
by_flags :
    (a b y' z' clob' y z a' b' clob : Bool) (m : Machine)
    → (let up : Flags = record { a = a; b = b; clob = clob'; y = y; z = z } in
        let down : Flags = record { a = a'; b = b'; clob = clob; y = y'; z = z' } in
        IsPaired up
        → IsPaired down
        → add_word (sub_word m.ebx 4) 4 ≡ m.ebx
        → Agree clob
            (before (below_up up down) (after (above_down down up) m))
            (before down (after up m)))
unfolding below_up above_down before after chore_a chore_b chore_y chore_z
by_flags a b y' z' clob' true false a' b' clob m p q cancel = absurd (cc (p.y_z refl))
by_flags a b y' z' clob' false false false b' clob m p q cancel = (refl, refl, λ _. refl)
by_flags a b y' z' clob' false false true false clob m p q cancel = (refl, refl, λ _. refl)
by_flags a b y' z' clob' false false true true false m p q cancel = (refl, refl, λ _. refl)
by_flags a b y' z' clob' false false true true true m p q cancel = (refl, refl, λ _. refl)
by_flags a b y' z' clob' false true false false clob m p q cancel = (refl, refl, λ _. refl)
by_flags a b y' z' clob' true true false false clob m p q cancel = (refl, refl, λ _. refl)
by_flags a b y' z' clob' false true false true clob m p q cancel = absurd (cc (q.b_a refl))
by_flags a b y' z' clob' true true false true clob m p q cancel = absurd (cc (q.b_a refl))
by_flags a b y' z' clob' false true true false clob m p q cancel = (sym cancel, refl, λ _. refl)
by_flags a b y' z' clob' true true true false clob m p q cancel = (sym cancel, refl, λ _. refl)
by_flags a b y' z' clob' false true true true false m p q cancel =
    (sym cancel, ap (λ e. store m.memory e m.eax) (sym cancel), λ _. refl)
by_flags a b y' z' clob' false true true true true m p q cancel =
    (sym cancel, ap (λ e. store m.memory e m.eax) (sym cancel), λ _. refl)
by_flags a b y' z' clob' true true true true false m p q cancel =
    (sym cancel, sym (store_at m.memory m.ebx _ cancel), λ _. refl)
by_flags a b y' z' clob' true true true true true m p q cancel =
    (sym cancel, sym (store_at m.memory m.ebx _ cancel), λ e. cc)

-- Between an instruction and the next: what is left out makes no difference, but to a top that the next
-- instruction replaces.
pub boundary :
    (up down : Flags) (m : Machine)
    → IsPaired up
    → IsPaired down
    → IsWord m.ebx
    → Agree down.clob
        (before (below_up up down) (after (above_down down up) m))
        (before down (after up m))
boundary up down m p q h = by_flags _ _ _ _ _ _ _ _ _ _ m p q (omega arith)

pub before-above_down : (down f : Flags) (m : Machine) → before (above_down down f) m ≡ before f m
unfolding above_down before
before-above_down down f m = elim (Bool-cases down.a) [
  | inl a ↦ elim (Bool-cases (down.b && down.clob)) [
    | inl c ↦ rw (a, c) refl
    | inr c ↦ rw (a, c) refl
  ]
  | inr a ↦ rw a refl
]

pub after-below_up : (up f : Flags) (m : Machine) → after (below_up up f) m ≡ after f m
unfolding below_up after
after-below_up up f m = elim (Bool-cases up.z) [
  | inl a ↦ elim (Bool-cases up.y) [ inl c ↦ rw (a, c) refl | inr c ↦ rw (a, c) refl ]
  | inr a ↦ rw a refl
]

pub after-both :
    (up down f : Flags) (m : Machine)
    → after (above_down down (below_up up f)) m ≡ after (above_down down f) m
unfolding above_down after below_up
after-both up down f m = elim (Bool-cases down.a) [
  | inl a ↦ elim (Bool-cases (down.b && down.clob)) [
    | inl c ↦ rw (a, c) refl
    | inr c ↦ elim (Bool-cases up.z) [
      | inl z ↦ elim (Bool-cases up.y) [
        | inl y ↦ rw (a, c, z, y) refl
        | inr y ↦ rw (a, c, z, y) refl
      ]
      | inr z ↦ rw (a, c, z) refl
    ]
  ]
  | inr a ↦ rw a (after-below_up up f m)
]
