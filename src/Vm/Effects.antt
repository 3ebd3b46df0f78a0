-- ===== src/Vm/Effects.antt =====
-- The stack effects of the builtin words of vm_engine.c, as the Forth standard's comments state them.
mod Cells
unfoldable pub use Cells.*
use mcp_forth.Prelude.{
  ℕ, zero, suc, ◌≤◌, ◌<◌, bit_and, bit_or, bit_xor, ◌≡◌, refl, subst, inl, inr, true, false, not,
  Option, none, some, List, [], ◌∷◌, arith, leb, ◌==◌, if◌then◌else◌, Bool-cases, Option-cases,
  length, get_elem?, some-eq_some, is_negative, invert, add_word, sub_word, mul_word, slt, sle,
  get_elem?-some_lt, get_elem?-none_le,
}
use mcp_forth.Vm.{
  Env, Ctx, Outcome, next, done, fault, M, pure, return_code, crash, get, defined, ◌>>=◌, ◌>>◌, pop,
  push, stack_underflow_error, stack_overflow_error,
}
use mcp_forth.Vm.Arith.{flag, negate, div_int, rem_int, halve, shift_left, shift_right}
use mcp_forth.Vm.Words

-- The effect of each builtin word that works on the data stack alone, by its number.
unfoldable pub effects : Env → List (Option (List ℕ → Effect))
effects env =
    some dup_effect
    ∷ some (binary (λ l r. sub_word l r))
    ∷ some (binary (λ l r. flag (slt r l)))
    ∷ some (binary (λ l r. add_word l r))
    ∷ some (binary (λ l r. flag (l == r)))
    ∷ some over_effect
    ∷ some (partial rem_int)
    ∷ some drop_effect
    ∷ some swap_effect
    ∷ some (binary (λ l r. mul_word l r))
    ∷ none
    ∷ some (unary (λ x. add_word x 1))
    ∷ some (unary (λ x. invert x))
    ∷ some (unary (λ x. flag (x == 0)))
    ∷ none
    ∷ none
    ∷ some (unary (λ x. sub_word x 1))
    ∷ some rot_effect
    ∷ some (pick_effect env.slots.stack)
    ∷ some (binary (λ l r. bit_xor l r))
    ∷ some (partial shift_left)
    ∷ some (partial shift_right)
    ∷ some (binary (λ l r. flag (slt l r)))
    ∷ some (binary (λ l r. flag (sle r l)))
    ∷ some (binary (λ l r. flag (sle l r)))
    ∷ some (binary (λ l r. bit_or l r))
    ∷ some (binary (λ l r. bit_and l r))
    ∷ some depth_effect
    ∷ none
    ∷ none
    ∷ some (unary (λ x. flag (is_negative x)))
    ∷ none
    ∷ none
    ∷ none
    ∷ none
    ∷ some (binary (λ l r. if slt r l then l else r))
    ∷ some (unary (λ x. mul_word x 2))
    ∷ some two_drop_effect
    ∷ some tuck_effect
    ∷ some (unary (λ x. add_word x 4))
    ∷ none
    ∷ none
    ∷ some question_dup_effect
    ∷ some (binary (λ l r. flag (not (l == r))))
    ∷ none
    ∷ none
    ∷ none
    ∷ none
    ∷ some (unary (λ x. halve x))
    ∷ some two_dup_effect
    ∷ some (unary (λ x. flag (not (x == 0))))
    ∷ some (unary (λ x. flag (slt 0 x)))
    ∷ none
    ∷ none
    ∷ none
    ∷ some (partial div_int)
    ∷ some (unary (λ x. mul_word x 4))
    ∷ some nip_effect
    ∷ some (binary (λ l r. if slt l r then l else r))
    ∷ some (unary (λ x. if is_negative x then negate x else x))
    ∷ none
    ∷ none
    ∷ some (unary (λ x. negate x))
    ∷ []

-- A word has its effect, if the table gives one; along both tables.
data Meets : Option (List ℕ → Effect) → M (Unit {0}) → Type 0 where
  no_effect : {w : M (Unit {0})} → Meets none w
  given : {f : List ℕ → Effect} {w : M (Unit {0})} → Implements f w → Meets (some f) w

infixr 4 ◌&◌
data MeetAll : List (Option (List ℕ → Effect)) → List (M (Unit {0})) → Type 0 where
  all_met : MeetAll [] []
  ◌&◌ :
      {o : Option (List ℕ → Effect)} {os : List (Option (List ℕ → Effect))} {w : M (Unit {0})}
      {ws : List (M (Unit {0}))}
      → Meets o w
      → MeetAll os ws
      → MeetAll (o ∷ os) (w ∷ ws)

words-MeetAll : (env : Env) → MeetAll (effects env) (Words.words env)
unfolding effects Words.words
words-MeetAll env =
    given dup_word-Implements
    & given (binary-Implements _)
    & given (binary-Implements _)
    & given (binary-Implements _)
    & given (binary-Implements _)
    & given over_word-Implements
    & given (partial-Implements _)
    & given drop_word-Implements
    & given swap_word-Implements
    & given (binary-Implements _)
    & no_effect
    & given (unary-Implements _)
    & given (unary-Implements _)
    & given (unary-Implements _)
    & no_effect
    & no_effect
    & given (unary-Implements _)
    & given rot_word-Implements
    & given (pick_word-Implements env)
    & given (binary-Implements _)
    & given (partial-Implements _)
    & given (partial-Implements _)
    & given (binary-Implements _)
    & given (binary-Implements _)
    & given (binary-Implements _)
    & given (binary-Implements _)
    & given (binary-Implements _)
    & given depth_word-Implements
    & no_effect
    & no_effect
    & given (unary-Implements _)
    & no_effect
    & no_effect
    & no_effect
    & no_effect
    & given (binary-Implements _)
    & given (unary-Implements _)
    & given two_drop_word-Implements
    & given tuck_word-Implements
    & given (unary-Implements _)
    & no_effect
    & no_effect
    & given question_dup_word-Implements
    & given (binary-Implements _)
    & no_effect
    & no_effect
    & no_effect
    & no_effect
    & given (unary-Implements _)
    & given two_dup_word-Implements
    & given (unary-Implements _)
    & given (unary-Implements _)
    & no_effect
    & no_effect
    & no_effect
    & given (partial-Implements _)
    & given (unary-Implements _)
    & given nip_word-Implements
    & given (binary-Implements _)
    & given (unary-Implements _)
    & no_effect
    & no_effect
    & given (unary-Implements _)
    & all_met

Meets-effect :
    {f : List ℕ → Effect} {o : Option (List ℕ → Effect)} {w : M (Unit {0})}
    → Meets o w
    → o ≡ some f
    → Implements f w
Meets-effect no_effect e = cc
Meets-effect (given {w = v} h) e = subst (λ k. Implements k v) (some-eq_some e) h

MeetAll-get_elem? :
    {os : List (Option (List ℕ → Effect))} {ws : List (M (Unit {0}))} (k : ℕ) {f : List ℕ → Effect}
    → MeetAll os ws
    → get_elem? os k ≡ some (some f)
    → (w : M (Unit {0})) × (get_elem? ws k ≡ some w) × Implements f w
MeetAll-get_elem? k all_met e = cc
MeetAll-get_elem? zero (m & ms) e = (_, refl, Meets-effect m (some-eq_some e))
MeetAll-get_elem? (suc k) (m & ms) e = MeetAll-get_elem? k ms e

-- For each builtin word that works on the data stack alone, by its number, and every stack within its
-- maximum: with too few cells the engine returns the underflow error; where the new stack does not fit,
-- the overflow error; it faults at a division by zero or of INT_MIN by -1, a shift by 32 or more, and a pick
-- from a cell above the stack that cannot be read; and else the stack is what the word's effect says, where
-- an overflow wraps, and nothing but the stack has changed.
pub run_builtin_effect :
    (env : Env) (k : ℕ) (f : List ℕ → Effect) (c : Ctx) (xs : List ℕ)
    → get_elem? (effects env) k ≡ some (some f)
    → length xs ≤ c.stack.max
    → Matches (f xs) c (Words.run_builtin env k (with_cells c xs))
unfolding Words.run_builtin
run_builtin_effect env k f c xs e h =
    let (w, at, i) = MeetAll-get_elem? k (words-MeetAll env) e in rw at (i c xs h)
