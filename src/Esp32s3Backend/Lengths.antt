-- ===== src/Esp32s3Backend/Lengths.antt =====
-- The sizes of the ESP32-S3's instructions that depend on an operand.
use mcp_forth.Prelude.{
  ℕ, zero, suc, ◌+◌, ◌*◌, ◌/◌, ◌%◌, ◌≤◌, ◌<◌, ◌≡◌, refl, ap, ◌∙◌, inl, inr, Bool, true, false, ◌&&◌,
  Option, some, List, ◌++◌, arith, leb, ◌==◌, Bool-cases, length, length-append, sle,
}
use mcp_forth.Esp32s3Backend.{
  lr, minus, between, is_reg, assert_then, is_narrow, is_wide, l32i_n, s32i_n, shift_right_2, l32i,
  s32i, addmi,
}
use mcp_forth.Esp32s3Backend.Auto.{
  s32i_l32i_representable, s32i_l32i_relaxed_size, offset_fits, s32i_l32i_loop, s32i_l32i_auto_size,
  narrow, wide, both, s32i_l32i_by, s32i_l32i_relaxed, s32i_l32i_auto,
}

abbrev Wide : ℕ → Type 0
Wide i = i < 8192

sle_small : (i k : ℕ) → Wide i → Wide k → sle i k ≡ leb i k
sle_small i k h hk = ground arith

shift_right_2-mul : (i : ℕ) → Wide i → shift_right_2 (i * 4) ≡ i
unfolding shift_right_2
shift_right_2-mul i h = ground arith

four_mod : (i : ℕ) → ((i * 4) % 4 == 0) ≡ true
four_mod i = ground arith

-- The test of each relaxation, on the offset of a cell.
unfoldable pub fits : ℕ → ℕ → Bool
fits zero i = leb i 15
fits (suc zero) i = leb i 255
fits (suc (suc zero)) i = leb (i % 256) 15
fits _ i = true

pub fits_3 : (i : ℕ) → fits 3 i ≡ true
unfolding fits
fits_3 i = refl

leb_top : (i : ℕ) → Wide i → leb i 8191 ≡ true
leb_top i h = ground arith

pub representable-mul : (r i : ℕ) → Wide i → s32i_l32i_representable r (i * 4) ≡ some (fits r i)
unfolding s32i_l32i_representable fits offset_fits
representable-mul zero i h =
    rw
      (
        shift_right_2-mul i h,
        four_mod i,
        sle_small i 8191 h (omega arith),
        sle_small i 15 h (omega arith),
        leb_top i h,
      )
      refl
representable-mul (suc zero) i h =
    rw
      (
        shift_right_2-mul i h,
        four_mod i,
        sle_small i 8191 h (omega arith),
        sle_small i 255 h (omega arith),
        leb_top i h,
      )
      refl
representable-mul (suc (suc zero)) i h =
    rw (shift_right_2-mul i h, four_mod i, sle_small i 8191 h (omega arith), leb_top i h, small i)
      refl
  where
    small : (i : ℕ) → leb (i % 256) 15 ≡ leb (i % 256) 0xf
    small i = refl
representable-mul (suc (suc (suc r))) i h =
    rw (shift_right_2-mul i h, four_mod i, sle_small i 8191 h (omega arith), leb_top i h) refl

-- Bytes are written, and so many.
abbrev pub Writes : Option (List ℕ) → ℕ → Type 0
Writes code size = (bytes : List ℕ) × (code ≡ some bytes) × (length bytes ≡ size)

pub assert-total :
    (holds : Bool) (bytes : List ℕ) → holds ≡ true → Writes (assert_then holds bytes) (length bytes)
assert-total holds bytes h = (bytes, rw h refl, refl)

pub all_three : (a b c : Bool) → a ≡ true → b ≡ true → c ≡ true → (a && b && c) ≡ true
all_three a b c ha hb hc = rw (ha, hb, hc) refl

narrow-total :
    (is_store : Bool) (reg regptr offset : ℕ)
    → is_reg reg ≡ true
    → is_reg regptr ≡ true
    → is_narrow offset ≡ true
    → Writes (narrow is_store reg regptr offset) 2
unfolding narrow l32i_n s32i_n
narrow-total true reg regptr offset h hp ho =
    assert-total _ _ (all_three (is_reg reg) (is_reg regptr) (is_narrow offset) h hp ho)
narrow-total false reg regptr offset h hp ho =
    assert-total _ _ (all_three (is_reg reg) (is_reg regptr) (is_narrow offset) h hp ho)

wide-total :
    (is_store : Bool) (reg regptr offset : ℕ)
    → is_reg reg ≡ true
    → is_reg regptr ≡ true
    → is_wide offset ≡ true
    → Writes (wide is_store reg regptr offset) 3
unfolding wide l32i s32i
wide-total true reg regptr offset h hp ho =
    assert-total _ _ (all_three (is_reg reg) (is_reg regptr) (is_wide offset) h hp ho)
wide-total false reg regptr offset h hp ho =
    assert-total _ _ (all_three (is_reg reg) (is_reg regptr) (is_wide offset) h hp ho)

both-total :
    (code more : Option (List ℕ)) (a b : ℕ)
    → Writes code a
    → Writes more b
    → Writes (both code more) (a + b)
unfolding both
both-total code more a b (bytes, e, l) (rest, er, lr) =
    (bytes ++ rest, rw (e, er) refl, length-append bytes rest ∙ rw (l, lr) refl)

addmi-total :
    (regdst regsrc i : ℕ)
    → is_reg regdst ≡ true
    → is_reg regsrc ≡ true
    → Wide i
    → Writes (addmi regdst regsrc (i * 4 / 1024 * 4)) 3
unfolding addmi
addmi-total regdst regsrc i h hs hi = assert-total _ _ (
    all_three (is_reg regdst) (is_reg regsrc) (between (minus 128) 127 (i * 4 / 1024 * 4)) h hs
      (inside i hi))
  where
    inside : (i : ℕ) → Wide i → between (minus 128) 127 (i * 4 / 1024 * 4) ≡ true
    inside i h = ground arith

-- The bytes have the size that the relaxation says.
abbrev pub Sized : Option ℕ → Option (List ℕ) → Type 0
Sized size code = (n : ℕ) × (size ≡ some n) × Writes code n

by-total :
    (is_store : Bool) (r reg regptr i regscratch : ℕ)
    → is_reg reg ≡ true
    → is_reg regptr ≡ true
    → is_reg regscratch ≡ true
    → Wide i
    → r ≤ 3
    → fits r i ≡ true
    → Sized (s32i_l32i_relaxed_size r) (s32i_l32i_by is_store r reg regptr (i * 4) regscratch)
unfolding s32i_l32i_relaxed_size s32i_l32i_by fits
by-total is_store zero reg regptr i scratch h hp hs hi hr hf =
    (2, refl, narrow-total is_store reg regptr (i * 4) h hp (ground arith))
by-total is_store (suc zero) reg regptr i scratch h hp hs hi hr hf =
    (3, refl, wide-total is_store reg regptr (i * 4) h hp (ground arith))
by-total is_store (suc (suc zero)) reg regptr i scratch h hp hs hi hr hf = (
  5,
  refl,
  both-total _ _ 3 2 (addmi-total scratch regptr i hs hp hi)
      (narrow-total is_store reg scratch (i * 4 % 1024) h hs (ground arith)),
)
by-total is_store (suc (suc (suc zero))) reg regptr i scratch h hp hs hi hr hf = (
  6,
  refl,
  both-total _ _ 3 3 (addmi-total scratch regptr i hs hp hi)
      (wide-total is_store reg scratch (i * 4 % 1024) h hs (ground arith)),
)
by-total is_store (suc (suc (suc (suc r)))) reg regptr i scratch h hp hs hi hr hf =
    absurd (omega arith)

pub relaxed-total :
    (is_store : Bool) (r reg regptr i regscratch : ℕ)
    → is_reg reg ≡ true
    → is_reg regptr ≡ true
    → is_reg regscratch ≡ true
    → Wide i
    → r ≤ 3
    → fits r i ≡ true
    → Sized (s32i_l32i_relaxed_size r) (s32i_l32i_relaxed is_store r reg regptr (i * 4) regscratch)
unfolding s32i_l32i_relaxed
relaxed-total is_store r reg regptr i scratch h hp hs hi hr hf =
    rw (shift_right_2-mul i hi, four_mod i, sle_small i 8191 hi (omega arith), leb_top i hi)
      (by-total is_store r reg regptr i scratch h hp hs hi hr hf)

pub loop_here :
    (fuel r offset : ℕ)
    → s32i_l32i_representable r offset ≡ some true
    → s32i_l32i_loop (suc fuel) r offset ≡ some r
unfolding s32i_l32i_loop
loop_here fuel r offset h = rw (s32i_l32i_loop, h) refl

pub loop_next :
    (fuel r offset : ℕ)
    → s32i_l32i_representable r offset ≡ some false
    → s32i_l32i_loop (suc fuel) r offset ≡ s32i_l32i_loop fuel (r + 1) offset
unfolding s32i_l32i_loop
loop_next fuel r offset h = rw (s32i_l32i_loop, h) refl

pub loop-total :
    (i : ℕ) → Wide i → (r : ℕ) × (s32i_l32i_loop 4 0 (i * 4) ≡ some r) × (fits r i ≡ true) × (r ≤ 3)
loop-total i h = elim (Bool-cases (fits 0 i)) [
  | inl e ↦ (0, loop_here 3 0 (i * 4) (at 0 e), e, omega arith)
  | inr e0 ↦ elim (Bool-cases (fits 1 i)) [
    | inl e ↦ (1, on 3 0 e0 ∙ loop_here 2 1 (i * 4) (at 1 e), e, omega arith)
    | inr e1 ↦ elim (Bool-cases (fits 2 i)) [
      | inl e ↦ (2, on 3 0 e0 ∙ on 2 1 e1 ∙ loop_here 1 2 (i * 4) (at 2 e), e, omega arith)
      | inr e2 ↦ (
        3,
        on 3 0 e0 ∙ on 2 1 e1 ∙ on 1 2 e2 ∙ loop_here 0 3 (i * 4) (at 3 always),
        always,
        omega arith,
      )
    ]
  ]
]
  where
    at : {b : Bool} (r : ℕ) → fits r i ≡ b → s32i_l32i_representable r (i * 4) ≡ some b
    at r e = representable-mul r i h ∙ ap some e

    on :
        (fuel r : ℕ)
        → fits r i ≡ false
        → s32i_l32i_loop (suc fuel) r (i * 4) ≡ s32i_l32i_loop fuel (r + 1) (i * 4)
    on fuel r e = loop_next fuel r (i * 4) (at r e)

    always : fits 3 i ≡ true
    always = fits_3 i

-- A load or a store of a cell below 8192 is written, in the size that was counted.
pub s32i_l32i_auto-total :
    (is_store : Bool) (reg regptr i regscratch : ℕ) (pool : List ℕ)
    → is_reg reg ≡ true
    → is_reg regptr ≡ true
    → is_reg regscratch ≡ true
    → i < 8192
    → (bytes : List ℕ) × (s32i_l32i_auto is_store reg regptr (i * 4) regscratch pool
        ≡ some (bytes, pool))
      × (s32i_l32i_auto_size (i * 4) pool ≡ some (length bytes, pool))
unfolding s32i_l32i_auto s32i_l32i_auto_size
s32i_l32i_auto-total is_store reg regptr i scratch pool h hp hs hi =
    let (r, e, f, le) = loop-total i hi in
    let (size, se, (bytes, be, l)) =
      relaxed-total is_store r reg regptr i scratch h hp hs hi le f in
    (bytes, rw (e, be) refl, rw (e, se, l) refl)
