-- ===== src/Prelude/Bytes.antt =====
-- Masks on one byte as arithmetic: tables that evaluation checks.
use Prim.Native.Nat.{ℕ, ◌+◌, ◌*◌, ◌/◌, ◌%◌, ◌<◌, bit_and, bit_or}
use mathlib.Core.Path.{◌≡◌, refl}
use mcp_forth.Prelude.Tests.{holds_below, agree_below}

-- A byte is a number below 256.
abbrev pub IsByte : ℕ → Type 0
IsByte b = b < 256

pub bit_and-7f : (b : ℕ) → b < 256 → bit_and b 0x7f ≡ b % 128
unfolding holds_below
bit_and-7f = agree_below 256 _ _ refl

pub bit_and_80 : (b : ℕ) → b < 256 → bit_and b 0x80 ≡ b / 128 * 128
unfolding holds_below
bit_and_80 = agree_below 256 _ _ refl

pub bit_and_40 : (b : ℕ) → b < 128 → bit_and b 0x40 ≡ b / 64 * 64
unfolding holds_below
bit_and_40 = agree_below 128 _ _ refl

pub bit_and-3f : (b : ℕ) → b < 256 → bit_and b 0x3f ≡ b % 64
unfolding holds_below
bit_and-3f = agree_below 256 _ _ refl

pub bit_or_80 : (b : ℕ) → b < 128 → bit_or b 0x80 ≡ b + 128
unfolding holds_below
bit_or_80 = agree_below 128 _ _ refl

pub bit_or_40 : (b : ℕ) → b < 64 → bit_or b 0x40 ≡ b + 64
unfolding holds_below
bit_or_40 = agree_below 64 _ _ refl
