-- ===== src/Prelude/Word.antt =====
-- The C `int` and `unsigned` of the program: 32-bit patterns, the numbers below 2 ^ 32.
-- An `int` is its two's complement pattern; its sign is the top bit.
use Prim.Native.Nat.{ℕ, ◌+◌, ◌-◌, ◌*◌, ◌%◌, ◌<◌}
use mathlib.Core.Path.{◌≡◌}
use mathlib.Core.Bool.{Bool}
use native.Mathlib.Omega.{arith}
use mcp_forth.Prelude.Tests.{ltb, leb}

abbrev pub word_mod : ℕ
word_mod = 4294967296

abbrev pub IsWord : ℕ → Type 0
IsWord w = w < word_mod

-- The bit pattern of -1, which the VM pushes for true.
abbrev pub minus_one : ℕ
minus_one = 4294967295

abbrev pub is_negative : ℕ → Bool
is_negative w = leb 2147483648 w

-- `~w` on a 32-bit pattern.
abbrev pub invert : ℕ → ℕ
invert w = 4294967295 - w

abbrev pub add_word : ℕ → ℕ → ℕ
add_word a b = (a + b) % word_mod

abbrev pub sub_word : ℕ → ℕ → ℕ
sub_word a b = (a + word_mod - b) % word_mod

abbrev pub mul_word : ℕ → ℕ → ℕ
mul_word a b = a * b % word_mod

-- `a < b` as signed integers: with the sign bit flipped, the patterns are in the integers' order.
abbrev pub bias : ℕ → ℕ
bias w = (w + 2147483648) % word_mod

abbrev pub slt : ℕ → ℕ → Bool
slt a b = ltb (bias a) (bias b)

abbrev pub sle : ℕ → ℕ → Bool
sle a b = leb (bias a) (bias b)

pub sub_word-add_word : (a b : ℕ) → IsWord a → IsWord b → sub_word (add_word a b) b ≡ a
sub_word-add_word a b ha hb = omega arith

pub add_word-sub_word : (a b : ℕ) → IsWord a → IsWord b → add_word b (sub_word a b) ≡ a
add_word-sub_word a b ha hb = omega arith
