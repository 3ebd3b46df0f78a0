-- ===== src/Chores.antt =====
-- The stack chores of the native backends, `m4_backend_fragment_get_needed_chores` of mcp_forth.c.
use mcp_forth.Prelude.{
  ℕ, zero, suc, ◌+◌, ◌-◌, ◌*◌, ◌/◌, ◌%◌, ◌^◌, ◌≤◌, ◌<◌, min, bit_and, bit_or, bit_xor, ◌≡◌, refl,
  sym, ap, ap₂, ◌∙◌, subst, ◌≢◌, ◌↔◌, ◌⊎◌, inl, inr, Bool, true, false, not, ◌&&◌, ◌||◌, Option,
  none, some, List, [], ◌∷◌, ◌++◌, map, append-nil, append_assoc, arith, ltb, leb, ◌==◌,
  if◌then◌else◌, ltb→lt, lt→ltb, le→ltb_false, ltb_false→le, leb→le, ==_iff, tests, Bool-cases,
  Option-cases, holds_below, holds_below-at, agree_below, length, get_elem?, set, length-append,
  length-set, get_elem?-set_self, get_elem?-set_ne, get_or, take, drop, replicate, length-map, All,
  All-append, some-eq_some, IsByte, bit_and-7f, bit_and_80, bit_and_40, bit_and-3f, bit_or_80,
  bit_or_40, word_mod, IsWord, minus_one, is_negative, invert, add_word, sub_word, mul_word, bias,
  slt, sle, codes, if_intro, bytes_eq, bytes_eq_iff, ◌>>=◌, >>=-eq-some, All-set, All-get_elem?,
  get_elem?-lt, get_elem?-some_lt, drop-cons, add_word-sub_word, sub_word-add_word, length-drop,
  length-take, get_elem?-none_le, take-append-drop, get_elem?-append, get_elem?-append_length,
  All-mono,
}
use mcp_forth.Fragment.{Opcode, Fragment, Backend, fragment_at}
pub mod Boundary
pub mod Straight
mod Tests

-- The bits `M4_BACKEND_FLAG_*`: what an instruction does to the stack in front of its own work, A and B,
-- and behind it, Y and Z; and whether its work starts by giving the top a new value.
pub record Flags : Type 0 where
  pub a : Bool
  pub b : Bool
  pub clob : Bool
  pub y : Bool
  pub z : Bool

-- The flags 0.
abbrev pub no_flags : Flags
no_flags = record { a = false; b = false; clob = false; y = false; z = false }

-- What the fragment above takes from the chores in front.
unfoldable pub below_up : Flags → Flags → Flags
below_up frag_up_flags needs =
    if frag_up_flags.z
    then (if frag_up_flags.y
        then record needs { a = false; b = false }
        else record needs { a = false })
    else needs

-- What the fragment below takes from the chores behind.
unfoldable pub above_down : Flags → Flags → Flags
above_down frag_down_flags needs =
    if frag_down_flags.a
    then (if frag_down_flags.b && frag_down_flags.clob
        then record needs { z = false; y = false }
        else record needs { z = false })
    else needs

-- The flags of the fragment at an index of the sequence.
unfoldable pub flags_at : (Fragment → Option Flags) → List Fragment → List ℕ → ℕ → Option Flags
flags_at get_flags all_fragments sequence sequence_i = do
  fragment ← fragment_at all_fragments sequence sequence_i
  get_flags fragment

-- `if(sequence_i > 0)`
unfoldable pub needs_below :
    (Fragment → Option Flags) → List Fragment → List ℕ → ℕ → Flags → Option Flags
unfolding flags_at below_up
needs_below get_flags all_fragments sequence zero needs = some needs
needs_below get_flags all_fragments sequence (suc above) needs = do
  frag_up_flags ← flags_at get_flags all_fragments sequence above
  some (below_up frag_up_flags needs)

-- `if(sequence_i + 1 < sequence_len)`
unfoldable pub needs_above :
    (Fragment → Option Flags) → List Fragment → List ℕ → ℕ → Flags → Option Flags
unfolding flags_at above_down
needs_above get_flags all_fragments sequence sequence_i needs =
    if ltb (sequence_i + 1) (length sequence)
    then flags_at get_flags all_fragments sequence (sequence_i + 1)
      >>= (λ frag_down_flags. some (above_down frag_down_flags needs))
    else some needs

-- `none` is an index out of bounds, or that `get_flags` fails an assertion.
unfoldable pub backend_fragment_get_needed_chores :
    (Fragment → Option Flags) → List Fragment → List ℕ → ℕ → Option Flags
unfolding flags_at needs_below needs_above
backend_fragment_get_needed_chores get_flags all_fragments sequence sequence_i = do
  needs ← flags_at get_flags all_fragments sequence sequence_i
  needs' ← needs_below get_flags all_fragments sequence sequence_i needs
  needs_above get_flags all_fragments sequence sequence_i needs'
