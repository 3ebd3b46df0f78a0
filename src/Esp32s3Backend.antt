-- ===== src/Esp32s3Backend.antt =====
-- The backend for the ESP32-S3, esp32s3_backend.c: its instructions, with the registers of esp32s3.h.
pub mod Auto
pub mod Branch
pub mod Flags
pub mod Dump
pub mod Lengths
pub mod Literals
pub mod Moves
pub mod Adds
pub mod Instructions
pub mod Fragments
mod Tests
use mcp_forth.Prelude.{
  ℕ, zero, suc, ◌+◌, ◌-◌, ◌*◌, ◌/◌, ◌%◌, ◌^◌, ◌≤◌, ◌<◌, min, bit_and, bit_or, bit_xor, ◌≡◌, refl,
  sym, ap, ap₂, ◌∙◌, subst, ◌≢◌, ◌↔◌, ◌⊎◌, inl, inr, Bool, true, false, not, ◌&&◌, ◌||◌, Option,
  none, some, List, [], ◌∷◌, ◌++◌, map, append-nil, append_assoc, arith, ltb, leb, ◌==◌,
  if◌then◌else◌, ltb→lt, lt→ltb, le→ltb_false, ltb_false→le, leb→le, ==_iff, tests, Bool-cases,
  Option-cases, holds_below, holds_below-at, agree_below, length, get_elem?, set, length-append,
  length-set, get_elem?-set_self, get_elem?-set_ne, get_or, take, drop, replicate, length-map, All,
  All-append, some-eq_some, IsByte, bit_and-7f, bit_and_80, bit_and_40, bit_and-3f, bit_or_80,
  bit_or_40, word_mod, IsWord, minus_one, is_negative, invert, add_word, sub_word, mul_word, bias,
  slt, sle, codes, if_intro, bytes_eq, bytes_eq_iff, ◌>>=◌, >>=-eq-some, bind_assoc, All-set,
  All-get_elem?, get_elem?-lt, get_elem?-some_lt, drop-cons, add_word-sub_word, sub_word-add_word,
  length-drop, length-take, get_elem?-none_le, take-append-drop, get_elem?-append,
  get_elem?-append_length, All-mono,
}

-- Registers.
abbrev pub lr : ℕ
lr = 0

abbrev pub sp : ℕ
sp = 1

abbrev pub cs : ℕ
cs = 2

abbrev pub rs : ℕ
rs = 3

abbrev pub rb : ℕ
rb = 4

abbrev pub dp : ℕ
dp = 5

abbrev pub va : ℕ
va = 6

abbrev pub la : ℕ
la = 7

abbrev pub rc : ℕ
rc = 8

abbrev pub s1 : ℕ
s1 = 11

abbrev pub n4 : ℕ
n4 = 12

abbrev pub ds : ℕ
ds = 13

abbrev pub dt : ℕ
dt = 14

abbrev pub s0 : ℕ
s0 = 15

-- Offsets in the engine's structures.
abbrev pub dso : ℕ
dso = 4

abbrev pub rso : ℕ
rso = 8

abbrev pub data_offset_in_cs : ℕ
data_offset_in_cs = 24

abbrev pub callback_targets : ℕ
callback_targets = 44

abbrev pub bin_start : ℕ
bin_start = 56

-- `-n`
abbrev pub minus : ℕ → ℕ
minus n = sub_word 0 n

-- `lo <= num && num <= hi`
abbrev pub between : ℕ → ℕ → ℕ → Bool
between lo hi num = sle lo num && sle num hi

-- `(reg & ~0xf) == 0`
abbrev pub is_reg : ℕ → Bool
is_reg reg = leb reg 15

-- An assertion in front of what is written.
abbrev pub assert_then : Bool → List ℕ → Option (List ℕ)
assert_then holds bytes = if holds then some bytes else none

-- `(offset & ~0b111100) == 0`
abbrev pub is_narrow : ℕ → Bool
is_narrow offset = offset % 4 == 0 && ltb offset 64

-- `(offset & ~0x3fc) == 0`
abbrev pub is_wide : ℕ → Bool
is_wide offset = offset % 4 == 0 && ltb offset 1024

unfoldable pub l32i_n : ℕ → ℕ → ℕ → Option (List ℕ)
l32i_n regdst regptr offset =
    assert_then (is_reg regdst && is_reg regptr && is_narrow offset)
      (bit_or (regdst * 16) 0x8 ∷ bit_or (offset * 4) regptr ∷ [])

unfoldable pub s32i_n : ℕ → ℕ → ℕ → Option (List ℕ)
s32i_n regsrc regptr offset =
    assert_then (is_reg regsrc && is_reg regptr && is_narrow offset)
      (bit_or (regsrc * 16) 0x9 ∷ bit_or (offset * 4) regptr ∷ [])

unfoldable pub add_n : ℕ → ℕ → ℕ → Option (List ℕ)
add_n regdst regleft regright =
    assert_then (is_reg regdst && is_reg regleft && is_reg regright)
      (bit_or (regright * 16) 0xa ∷ bit_or (regdst * 16) regleft ∷ [])

-- The three low bytes, the lowest first.
unfoldable pub le3 : ℕ → List ℕ
le3 val = val % 256 ∷ val / 256 % 256 ∷ val / 65536 % 256 ∷ []

-- `x >> 2` of an `int`
unfoldable pub shift_right_2 : ℕ → ℕ
shift_right_2 x = if is_negative x then x / 4 + 3221225472 else x / 4

unfoldable pub call0 : ℕ → ℕ → Option (List ℕ)
unfolding le3 shift_right_2
call0 target_pos call0_pos =
    let offset = shift_right_2 (sub_word (sub_word target_pos (call0_pos / 4 * 4)) 4) in
    assert_then (target_pos % 4 == 0 && between (minus 131072) 131071 offset)
      (le3 (bit_or (mul_word offset 64) 0x5))

abbrev pub nop_n : List ℕ
nop_n = 0x3d ∷ 0xf0 ∷ []

unfoldable pub callx0 : ℕ → Option (List ℕ)
unfolding le3
callx0 reg = assert_then (is_reg reg) (le3 (bit_or (reg * 256) 0xc0))

unfoldable pub mov_n : ℕ → ℕ → Option (List ℕ)
mov_n regdst regsrc =
    assert_then (is_reg regdst && is_reg regsrc) (bit_or (regdst * 16) 0xd ∷ regsrc ∷ [])

unfoldable pub movi_n : ℕ → ℕ → Option (List ℕ)
movi_n regdst imm =
    assert_then (is_reg regdst && between (minus 32) 95 imm)
      (bit_or (bit_and imm 0x70) 0xc ∷ bit_or (imm % 16 * 16) regdst ∷ [])

abbrev pub ret_n : List ℕ
ret_n = 0x0d ∷ 0xf0 ∷ []

unfoldable pub addi_n : ℕ → ℕ → ℕ → Option (List ℕ)
addi_n regdst regsrc imm =
    assert_then (is_reg regdst && is_reg regsrc && between minus_one 15 imm && not (imm == 0))
      (bit_or ((if imm == minus_one then 0 else imm) * 16) 0xb ∷ bit_or (regdst * 16) regsrc ∷ [])

unfoldable pub l32i : ℕ → ℕ → ℕ → Option (List ℕ)
l32i regdst regptr offset =
    assert_then (is_reg regdst && is_reg regptr && is_wide offset)
      (bit_or (regdst * 16) 0x2 ∷ bit_or 0x20 regptr ∷ offset / 4 ∷ [])

unfoldable pub s32i : ℕ → ℕ → ℕ → Option (List ℕ)
s32i regsrc regptr offset =
    assert_then (is_reg regsrc && is_reg regptr && is_wide offset)
      (bit_or (regsrc * 16) 0x2 ∷ bit_or 0x60 regptr ∷ offset / 4 ∷ [])

unfoldable pub addi : ℕ → ℕ → ℕ → Option (List ℕ)
addi regdst regsrc imm =
    assert_then (is_reg regdst && is_reg regsrc && between (minus 128) 127 imm)
      (bit_or (regdst * 16) 0x2 ∷ bit_or 0xc0 regsrc ∷ imm % 256 ∷ [])

unfoldable pub and_reg : ℕ → ℕ → ℕ → Option (List ℕ)
and_reg regdst regleft regright =
    assert_then (is_reg regdst && is_reg regleft && is_reg regright)
      (regright * 16 ∷ bit_or (regdst * 16) regleft ∷ 0x10 ∷ [])

unfoldable pub addmi : ℕ → ℕ → ℕ → Option (List ℕ)
addmi regdst regsrc raw_imm =
    assert_then (is_reg regdst && is_reg regsrc && between (minus 128) 127 raw_imm)
      (bit_or (regdst * 16) 0x2 ∷ bit_or 0xd0 regsrc ∷ raw_imm % 256 ∷ [])

-- `movi regdst, imm`
unfoldable pub movi : ℕ → ℕ → List ℕ
movi regdst imm = bit_or (regdst * 16) 0x2 ∷ bit_or 0xa0 (imm / 256 % 16) ∷ imm % 256 ∷ []
