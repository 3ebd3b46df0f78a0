-- ===== src/Esp32s3Backend/Branch.antt =====
-- The branches of the ESP32-S3: `beqz_auto`, `blt_auto` and the instructions that they are made of.
use mcp_forth.Prelude.{
  ℕ, zero, suc, ◌+◌, ◌*◌, ◌%◌, bit_and, bit_or, Bool, true, ◌&&◌, Option, none, some, List, [], ◌∷◌,
  leb, if◌then◌else◌, sub_word, mul_word,
}
use mcp_forth.Esp32s3Backend.{minus, between, is_reg, assert_then, le3, nop_n}
use mcp_forth.Esp32s3Backend.Auto.{both}

unfoldable pub beqz_n : ℕ → ℕ → Option (List ℕ)
beqz_n regsrc offset =
    assert_then (is_reg regsrc && between 0 63 offset)
      (bit_or (bit_and offset 0x30) 0x8c ∷ bit_or (offset * 16 % 256) regsrc ∷ [])

unfoldable pub bnez_n : ℕ → ℕ → Option (List ℕ)
bnez_n regsrc offset =
    assert_then (is_reg regsrc && between 0 63 offset)
      (bit_or (bit_and offset 0x30) 0xcc ∷ bit_or (offset * 16 % 256) regsrc ∷ [])

unfoldable pub beqz : ℕ → ℕ → Option (List ℕ)
unfolding le3
beqz regsrc offset =
    assert_then (is_reg regsrc && between (minus 2048) 2047 offset)
      (le3 (bit_or (bit_or (mul_word offset 4096) (regsrc * 256)) 0x16))

unfoldable pub blt : ℕ → ℕ → ℕ → Option (List ℕ)
blt regleft regright offset =
    assert_then (is_reg regleft && is_reg regright && between (minus 128) 127 offset)
      (bit_or (regright * 16) 0x7 ∷ bit_or 0x20 regleft ∷ offset % 256 ∷ [])

unfoldable pub bge : ℕ → ℕ → ℕ → Option (List ℕ)
bge regleft regright offset =
    assert_then (is_reg regleft && is_reg regright && between (minus 128) 127 offset)
      (bit_or (regright * 16) 0x7 ∷ bit_or 0xa0 regleft ∷ offset % 256 ∷ [])

unfoldable pub j : ℕ → Option (List ℕ)
unfolding le3
j offset =
    assert_then (between (minus 131072) 131071 offset) (le3 (bit_or (mul_word offset 64) 0x6))

unfoldable pub beqz_auto_size : ℕ → ℕ → Option ℕ
beqz_auto_size zero beqz_pos = some 2
beqz_auto_size (suc zero) beqz_pos = some 3
beqz_auto_size (suc (suc zero)) beqz_pos = some (if leb ((beqz_pos + 5) % 4) 1 then 5 else 7)
beqz_auto_size _ beqz_pos = none

-- `target_pos - pos - 4`
abbrev pub branch_distance : ℕ → ℕ → ℕ
branch_distance target_pos pos = sub_word (sub_word target_pos pos) 4

unfoldable pub beqz_auto_is_representable : ℕ → ℕ → ℕ → Option Bool
beqz_auto_is_representable zero target_pos beqz_pos =
    some (between 0 63 (branch_distance target_pos beqz_pos))
beqz_auto_is_representable (suc zero) target_pos beqz_pos =
    some (between (minus 2048) 2047 (branch_distance target_pos beqz_pos))
beqz_auto_is_representable (suc (suc zero)) target_pos beqz_pos = some true
beqz_auto_is_representable _ target_pos beqz_pos = none

unfoldable pub beqz_auto : ℕ → ℕ → ℕ → ℕ → Option (List ℕ)
unfolding beqz_n beqz bnez_n j both
beqz_auto zero regsrc target_pos beqz_pos = beqz_n regsrc (branch_distance target_pos beqz_pos)
beqz_auto (suc zero) regsrc target_pos beqz_pos = beqz regsrc (branch_distance target_pos beqz_pos)
beqz_auto (suc (suc zero)) regsrc target_pos beqz_pos =
    let jump = j (sub_word (branch_distance target_pos beqz_pos) 2) in
    if leb ((beqz_pos + 5) % 4) 1
    then both (bnez_n regsrc 1) jump
    else both (both (bnez_n regsrc 3) jump) (some nop_n)
beqz_auto _ regsrc target_pos beqz_pos = none

unfoldable pub blt_auto_size : ℕ → ℕ → Option ℕ
blt_auto_size zero blt_pos = some 3
blt_auto_size (suc zero) blt_pos = some (if leb ((blt_pos + 6) % 4) 1 then 6 else 8)
blt_auto_size _ blt_pos = none

unfoldable pub blt_auto_is_representable : ℕ → ℕ → ℕ → Option Bool
blt_auto_is_representable zero target_pos blt_pos =
    some (between (minus 128) 127 (branch_distance target_pos blt_pos))
blt_auto_is_representable (suc zero) target_pos blt_pos = some true
blt_auto_is_representable _ target_pos blt_pos = none

unfoldable pub blt_auto : ℕ → ℕ → ℕ → ℕ → ℕ → Option (List ℕ)
unfolding blt bge j both
blt_auto zero regleft regright target_pos blt_pos =
    blt regleft regright (branch_distance target_pos blt_pos)
blt_auto (suc zero) regleft regright target_pos blt_pos =
    let jump = j (sub_word (branch_distance target_pos blt_pos) 3) in
    if leb ((blt_pos + 6) % 4) 1
    then both (bge regleft regright 2) jump
    else both (both (bge regleft regright 4) jump) (some nop_n)
blt_auto _ regleft regright target_pos blt_pos = none
