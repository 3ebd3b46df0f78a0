-- ===== src/Vm/Arith.antt =====
-- The arithmetic of the builtin words, on 32-bit patterns.
use mathlib.Core.Bool.{xor}
use mcp_forth.Prelude.{
  ℕ, ◌-◌, ◌*◌, ◌/◌, ◌%◌, ◌^◌, Bool, ◌&&◌, ◌||◌, Option, none, some, ltb, ◌==◌, if◌then◌else◌,
  word_mod, minus_one, is_negative, sub_word,
}

-- The engine's truth values.
abbrev pub flag : Bool → ℕ
flag b = if b then minus_one else 0

abbrev pub negate : ℕ → ℕ
negate w = sub_word 0 w

-- The absolute value, as a number up to 2 ^ 31.
abbrev pub absolute : ℕ → ℕ
absolute w = if is_negative w then word_mod - w else w

-- `l / r` and `l % r` of C: towards zero; `none` is a zero divisor, or INT_MIN by -1, which traps.
abbrev pub traps : ℕ → ℕ → Bool
traps l r = r == 0 || (l == 2147483648 && r == minus_one)

unfoldable pub div_int : ℕ → ℕ → Option ℕ
div_int l r =
    let q = absolute l / absolute r in
    if traps l r then none else some (if xor (is_negative l) (is_negative r) then negate q else q)

unfoldable pub rem_int : ℕ → ℕ → Option ℕ
rem_int l r =
    let m = absolute l % absolute r in
    if traps l r then none else some (if is_negative l then negate m else m)

-- `x / 2`
abbrev pub halve : ℕ → ℕ
halve x = if is_negative x then negate (absolute x / 2) else x / 2

-- A shift by the word's width or more is undefined.
unfoldable pub shift_left : ℕ → ℕ → Option ℕ
shift_left l r = if ltb r 32 then some (l * 2 ^ r % word_mod) else none

unfoldable pub shift_right : ℕ → ℕ → Option ℕ
shift_right l r = if ltb r 32 then some (l / 2 ^ r) else none
