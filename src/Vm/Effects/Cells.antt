-- ===== src/Vm/Effects/Cells.antt =====
-- What the builtin words of vm_engine.c do to the data stack, each as one function of its cells.
use mcp_forth.Prelude.{
  ℕ, ◌≤◌, ◌<◌, ◌≡◌, refl, inl, inr, true, false, Option, none, some, List, [], ◌∷◌, arith, leb,
  ◌==◌, if◌then◌else◌, Bool-cases, Option-cases, length, get_elem?, is_negative, invert, word_mod,
  ◌-◌, get_elem?-some_lt, get_elem?-none_le,
}
use mcp_forth.Vm.{
  Env, Ctx, Outcome, next, done, fault, M, pure, return_code, get, defined, ◌>>=◌, ◌>>◌, pop, push,
  stack_underflow_error, stack_overflow_error,
}
use mcp_forth.Vm.Words

-- What a word makes of the data stack: too few cells, an operation that C leaves undefined, or a stack.
pub data Effect : Type 0 where
  underflow : Effect
  undefined : Effect
  leaves : List ℕ → Effect

abbrev pub with_cells : Ctx → List ℕ → Ctx
with_cells c xs = record c { stack = record c.stack { cells = xs } }

abbrev pub IsDone : ℕ → Outcome (Unit {0}) → Type 0
IsDone code (done k c) = k ≡ code
IsDone code (next _ c) = ⊥
IsDone code fault = ⊥

-- The outcome that an effect asks for: its error, or its stack with all else unchanged, if that fits.
abbrev pub Matches : Effect → Ctx → Outcome (Unit {0}) → Type 0
Matches underflow c o = IsDone stack_underflow_error o
Matches undefined c o = o ≡ fault
Matches (leaves ys) c o =
    (length ys ≤ c.stack.max → o ≡ next tt (with_cells c ys))
    × (c.stack.max < length ys → IsDone stack_overflow_error o)

abbrev pub Implements : (List ℕ → Effect) → M (Unit {0}) → Type 0
Implements f w =
    (c : Ctx) (xs : List ℕ) → length xs ≤ c.stack.max → Matches (f xs) c (w (with_cells c xs))

-- ( l r -- g l r )
unfoldable pub binary : (ℕ → ℕ → ℕ) → List ℕ → Effect
binary g [] = underflow
binary g (r ∷ []) = underflow
binary g (r ∷ l ∷ xs) = leaves (g l r ∷ xs)

abbrev pub leaves_defined : Option ℕ → List ℕ → Effect
leaves_defined none xs = undefined
leaves_defined (some x) xs = leaves (x ∷ xs)

unfoldable pub partial : (ℕ → ℕ → Option ℕ) → List ℕ → Effect
partial g [] = underflow
partial g (r ∷ []) = underflow
partial g (r ∷ l ∷ xs) = leaves_defined (g l r) xs

-- ( x -- g x )
unfoldable pub unary : (ℕ → ℕ) → List ℕ → Effect
unary g [] = underflow
unary g (x ∷ xs) = leaves (g x ∷ xs)

pub binary-Implements : (g : ℕ → ℕ → ℕ) → Implements (binary g) (do r ← pop; l ← pop; push (g l r))
unfolding binary ◌>>=◌ pop push
binary-Implements g c [] h = refl
binary-Implements g c (r ∷ []) h = refl
binary-Implements g c (r ∷ l ∷ xs) h = ground arith

pub partial-Implements :
    (g : ℕ → ℕ → Option ℕ)
    → Implements (partial g) (do r ← pop; l ← pop; x ← defined (g l r); push x)
unfolding partial ◌>>=◌ pop push defined
partial-Implements g c [] h = refl
partial-Implements g c (r ∷ []) h = refl
partial-Implements g c (r ∷ l ∷ xs) h = elim (Option-cases (g l r)) [
  | inl e ↦ rw (e, defined)
  | inr (x, e) ↦ rw (e, defined) (ground arith)
]

pub unary-Implements : (g : ℕ → ℕ) → Implements (unary g) (do x ← pop; push (g x))
unfolding unary ◌>>=◌ pop push
unary-Implements g c [] h = refl
unary-Implements g c (x ∷ xs) h = ground arith

-- ( x -- x x )
unfoldable pub dup_effect : List ℕ → Effect
dup_effect [] = underflow
dup_effect (x ∷ xs) = leaves (x ∷ x ∷ xs)

pub dup_word-Implements : Implements dup_effect Words.dup_word
unfolding dup_effect Words.dup_word ◌>>=◌ ◌>>◌ pop push pure
dup_word-Implements c [] h = refl
dup_word-Implements c (x ∷ xs) h = ground arith

-- ( b a -- b a b )
unfoldable pub over_effect : List ℕ → Effect
over_effect [] = underflow
over_effect (a ∷ []) = underflow
over_effect (a ∷ b ∷ xs) = leaves (b ∷ a ∷ b ∷ xs)

pub over_word-Implements : Implements over_effect Words.over_word
unfolding over_effect Words.over_word ◌>>=◌ ◌>>◌ pop push pure
over_word-Implements c [] h = refl
over_word-Implements c (a ∷ []) h = refl
over_word-Implements c (a ∷ b ∷ xs) h = ground arith

-- ( x -- )
unfoldable pub drop_effect : List ℕ → Effect
drop_effect [] = underflow
drop_effect (x ∷ xs) = leaves (xs)

pub drop_word-Implements : Implements drop_effect Words.drop_word
unfolding drop_effect Words.drop_word ◌>>=◌ ◌>>◌ pop push pure
drop_word-Implements c [] h = refl
drop_word-Implements c (x ∷ xs) h = ground arith

-- ( b a -- a b )
unfoldable pub swap_effect : List ℕ → Effect
swap_effect [] = underflow
swap_effect (a ∷ []) = underflow
swap_effect (a ∷ b ∷ xs) = leaves (b ∷ a ∷ xs)

pub swap_word-Implements : Implements swap_effect Words.swap_word
unfolding swap_effect Words.swap_word ◌>>=◌ ◌>>◌ pop push pure
swap_word-Implements c [] h = refl
swap_word-Implements c (a ∷ []) h = refl
swap_word-Implements c (a ∷ b ∷ xs) h = ground arith

-- ( x1 x2 x3 -- x2 x3 x1 )
unfoldable pub rot_effect : List ℕ → Effect
rot_effect [] = underflow
rot_effect (x3 ∷ []) = underflow
rot_effect (x3 ∷ x2 ∷ []) = underflow
rot_effect (x3 ∷ x2 ∷ x1 ∷ xs) = leaves (x1 ∷ x3 ∷ x2 ∷ xs)

pub rot_word-Implements : Implements rot_effect Words.rot_word
unfolding rot_effect Words.rot_word ◌>>=◌ ◌>>◌ pop push pure
rot_word-Implements c [] h = refl
rot_word-Implements c (x3 ∷ []) h = refl
rot_word-Implements c (x3 ∷ x2 ∷ []) h = refl
rot_word-Implements c (x3 ∷ x2 ∷ x1 ∷ xs) h = ground arith

-- ( y x -- )
unfoldable pub two_drop_effect : List ℕ → Effect
two_drop_effect [] = underflow
two_drop_effect (x ∷ []) = underflow
two_drop_effect (x ∷ y ∷ xs) = leaves (xs)

pub two_drop_word-Implements : Implements two_drop_effect Words.two_drop_word
unfolding two_drop_effect Words.two_drop_word ◌>>=◌ ◌>>◌ pop push pure
two_drop_word-Implements c [] h = refl
two_drop_word-Implements c (x ∷ []) h = refl
two_drop_word-Implements c (x ∷ y ∷ xs) h = ground arith

-- ( x1 x2 -- x2 x1 x2 )
unfoldable pub tuck_effect : List ℕ → Effect
tuck_effect [] = underflow
tuck_effect (x2 ∷ []) = underflow
tuck_effect (x2 ∷ x1 ∷ xs) = leaves (x2 ∷ x1 ∷ x2 ∷ xs)

pub tuck_word-Implements : Implements tuck_effect Words.tuck_word
unfolding tuck_effect Words.tuck_word ◌>>=◌ ◌>>◌ pop push pure
tuck_word-Implements c [] h = refl
tuck_word-Implements c (x2 ∷ []) h = refl
tuck_word-Implements c (x2 ∷ x1 ∷ xs) h = ground arith

-- ( l r -- l r l r )
unfoldable pub two_dup_effect : List ℕ → Effect
two_dup_effect [] = underflow
two_dup_effect (r ∷ []) = underflow
two_dup_effect (r ∷ l ∷ xs) = leaves (r ∷ l ∷ r ∷ l ∷ xs)

pub two_dup_word-Implements : Implements two_dup_effect Words.two_dup_word
unfolding two_dup_effect Words.two_dup_word ◌>>=◌ ◌>>◌ pop push pure
two_dup_word-Implements c [] h = refl
two_dup_word-Implements c (r ∷ []) h = refl
two_dup_word-Implements c (r ∷ l ∷ xs) h = ground arith

-- ( next_cell top -- top )
unfoldable pub nip_effect : List ℕ → Effect
nip_effect [] = underflow
nip_effect (t ∷ []) = underflow
nip_effect (t ∷ n ∷ xs) = leaves (t ∷ xs)

pub nip_word-Implements : Implements nip_effect Words.nip_word
unfolding nip_effect Words.nip_word ◌>>=◌ ◌>>◌ pop push pure
nip_word-Implements c [] h = refl
nip_word-Implements c (t ∷ []) h = refl
nip_word-Implements c (t ∷ n ∷ xs) h = ground arith

-- ( x -- 0 | x x )
unfoldable pub question_dup_effect : List ℕ → Effect
question_dup_effect [] = underflow
question_dup_effect (x ∷ xs) = leaves (if x == 0 then x ∷ xs else x ∷ x ∷ xs)

pub question_dup_word-Implements : Implements question_dup_effect Words.question_dup_word
unfolding question_dup_effect Words.question_dup_word ◌>>=◌ ◌>>◌ pop push pure
question_dup_word-Implements c [] h = refl
question_dup_word-Implements c (x ∷ xs) h = ground arith

-- ( -- n ), the number of cells before
unfoldable pub depth_effect : List ℕ → Effect
depth_effect xs = leaves (length xs ∷ xs)

pub depth_word-Implements : Implements depth_effect Words.depth_word
unfolding depth_effect Words.depth_word ◌>>=◌ get push
depth_word-Implements c xs h = ground arith

-- ( xu ... x0 u -- xu ... x0 xu ). The index -1 is the cell of the index itself, and the ones below are
-- the cells above it, of which the first has the index 1 in `slots`.
unfoldable pub pick_effect : (ℕ → Option ℕ) → List ℕ → Effect
pick_effect slot [] = underflow
pick_effect slot (n ∷ xs) =
    if is_negative n
    then (if n == 0xffffffff then leaves (n ∷ xs) else leaves_defined (slot (word_mod - 1 - n)) xs)
    else elim (get_elem? xs n) [ none ↦ underflow | some x ↦ leaves (x ∷ xs) ]

-- Where the cell to be picked is known or not.
above_top-Implements :
    (o : Option ℕ) (c : Ctx) (n : ℕ) (xs : List ℕ)
    → length (n ∷ xs) ≤ c.stack.max
    → Matches (leaves_defined o xs) c ((defined o >>= λ x. push x) (with_cells c xs))
unfolding ◌>>=◌ push defined
above_top-Implements none c n xs h = refl
above_top-Implements (some x) c n xs h = ground arith

pub pick_word-Implements :
    (env : Env) → Implements (pick_effect env.slots.stack) (Words.pick_word env)
unfolding pick_effect Words.pick_word Words.above_top ◌>>=◌ pop get
pick_word-Implements env c [] h = refl
pick_word-Implements env c (n ∷ xs) h = elim (Bool-cases (is_negative n)) [
  | inl neg ↦ elim (Bool-cases (n == 0xffffffff)) [
    | inl top ↦ rw (neg, top) (above_top-Implements (some n) c n xs h)
    | inr more ↦ rw (neg, more) (above_top-Implements (env.slots.stack (invert n)) c n xs h)
  ]
  | inr pos ↦ rw pos (elim (Option-cases (get_elem? xs n)) [
    | inl e ↦
        let l : leb (length xs) n ≡ true = ground (arith, get_elem?-none_le xs n e) in
        rw (e, l) (unfold return_code in refl)
    | inr (x, e) ↦
        let l : leb (length xs) n ≡ false = ground (arith, get_elem?-some_lt xs n e) in
        rw (e, l) (above_top-Implements (some x) c n xs h)
  ])
]
