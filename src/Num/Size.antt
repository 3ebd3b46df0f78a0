-- ===== src/Num/Size.antt =====
-- How many bytes the variable-length numbers of mcp_forth.c take.
use mcp_forth.Prelude.{
  ℕ, zero, suc, ◌+◌, ◌-◌, ◌*◌, ◌/◌, ◌%◌, ◌^◌, ◌≤◌, ◌<◌, ◌≡◌, ◌↔◌, ◌⊎◌, word_mod, Bool, some, List,
  arith, length, IsWord, IsByte, is_negative, bit_or_80, bit_or_40, refl, All,
}
use mcp_forth.Num.{
  magnitude, size_loop, num_encoded_size_from_int, pad_loop, last_byte, encode_loop,
  num_encode_with_size,
}

pub magnitude-lt : (num : ℕ) → IsWord num → magnitude num < 2147483648
magnitude-lt num h = ground arith

pow_128_pos : (k : ℕ) → 1 ≤ 128 ^ k
pow_128_pos zero = omega arith
pow_128_pos (suc k) = omega (arith, pow_128_pos k)

size_loop-pos : (f u s : ℕ) → suc s ≤ size_loop f u s
unfolding size_loop
size_loop-pos zero u s = omega arith
size_loop-pos (suc f) u s = ground (arith, size_loop-pos f (u / 128) (s + 1))

-- The loop counts the groups: with fuel for `u`, it stops within `k` rounds exactly when `u` has
-- at most `k` groups of seven bits above its lowest six.
size_loop-le : (f k u s : ℕ) → u < 64 * 128 ^ k → size_loop f u s ≤ suc k + s
unfolding size_loop
size_loop-le zero k u s h = omega arith
size_loop-le (suc f) zero u s h = ground arith
size_loop-le (suc f) (suc k) u s h =
    ground (arith, size_loop-le f k (u / 128) (s + 1) (omega arith))

size_loop_fits : (f k u s : ℕ) → u < 64 * 128 ^ f → size_loop f u s ≤ suc k + s → u < 64 * 128 ^ k
unfolding size_loop
size_loop_fits zero k u s hu h = omega (arith, pow_128_pos k)
size_loop_fits (suc f) zero u s hu h = ground (arith, size_loop-pos f (u / 128) (s + 1))
size_loop_fits (suc f) (suc k) u s hu h =
    ground (arith, pow_128_pos k, size_loop_fits f k (u / 128) (s + 1) (omega arith))

-- The `int` with the pattern `num` is in -n .. n - 1.
abbrev pub IsWithin : ℕ → ℕ → Type 0
IsWithin n num = (num < 2147483648 × num < n) ⊎ (2147483648 ≤ num × word_mod ≤ num + n)

magnitude-IsWithin : (num n : ℕ) → IsWord num → (magnitude num < n) ↔ IsWithin n num
magnitude-IsWithin num n h = ground arith

-- For every `int`, the encoded size is at most k + 1 bytes exactly when the number lies in
-- -64 * 128 ^ k .. 64 * 128 ^ k - 1, the range that six bits and k further groups of seven hold.
pub num_encoded_size-le_iff :
    (num k : ℕ) → IsWord num → (num_encoded_size_from_int num ≤ suc k) ↔ IsWithin (64 * 128 ^ k) num
unfolding num_encoded_size_from_int
num_encoded_size-le_iff num k h =
    let within = magnitude-IsWithin num (64 * 128 ^ k) h in
    (
      λ le.
          within.0 (
            size_loop_fits 5 k (magnitude num) 0 (omega (arith, magnitude-lt num h)) (omega arith)),
      λ w. omega (arith, size_loop-le 5 k (magnitude num) 0 (within.1 w)),
    )

pub num_encoded_size_bounds :
    (num : ℕ)
    → IsWord num
    → (1 ≤ num_encoded_size_from_int num) × (num_encoded_size_from_int num ≤ 5)
unfolding num_encoded_size_from_int
num_encoded_size_bounds num h = omega (
  arith,
  size_loop-pos 5 (magnitude num) 0,
  size_loop-le 5 4 (magnitude num) 0 (omega (arith, magnitude-lt num h)),
)

length-pad_loop :
    (size u : ℕ) (negative : Bool) → 1 ≤ size → length (pad_loop size u negative) ≡ size
unfolding pad_loop
length-pad_loop zero u negative h = absurd (omega arith)
length-pad_loop (suc zero) u negative h = refl
length-pad_loop (suc (suc size)) u negative h =
    omega (arith, length-pad_loop (suc size) 0 negative (omega arith))

size_loop-add : (f u s : ℕ) → size_loop f u (s + 1) ≡ size_loop f u s + 1
unfolding size_loop
size_loop-add zero u s = refl
size_loop-add (suc f) u s = ground (arith, size_loop-add f (u / 128) (s + 1))

length-encode_loop :
    (f u size : ℕ) (negative : Bool)
    → u < 64 * 128 ^ f
    → size_loop f u 0 ≤ size
    → length (encode_loop f u size negative) ≡ size
unfolding encode_loop size_loop
length-encode_loop zero u size negative hu h = length-pad_loop size u negative (omega arith)
length-encode_loop (suc f) u size negative hu h = ground (
  arith,
  length-pad_loop size u negative,
  size_loop-add f (u / 128) 0,
  size_loop-pos f (u / 128) 0,
  length-encode_loop f (u / 128) (size - 1) negative (omega arith),
)

-- Given a size of at most 5 bytes that the number fits, exactly that many bytes are written.
pub length-num_encode_with_size :
    (num size : ℕ)
    → IsWord num
    → num_encoded_size_from_int num ≤ size
    → size ≤ 5
    → (bytes : List ℕ) × (num_encode_with_size num size ≡ some bytes) × (length bytes ≡ size)
unfolding num_encode_with_size
length-num_encode_with_size num size h fits le = (
  encode_loop 5 (magnitude num) size (is_negative num),
  ground (arith, num_encoded_size_bounds num h),
  length-encode_loop 5 (magnitude num) size (is_negative num) (omega (arith, magnitude-lt num h))
      (unfold num_encoded_size_from_int in fits),
)

pad_loop-IsByte : (size u : ℕ) (negative : Bool) → u < 64 → All IsByte (pad_loop size u negative)
unfolding pad_loop last_byte
pad_loop-IsByte zero u negative h = ground (arith, bit_or_40 u h)
pad_loop-IsByte (suc zero) u negative h = ground (arith, bit_or_40 u h)
pad_loop-IsByte (suc (suc size)) u negative h =
    (omega (arith, bit_or_80 u (omega arith)), pad_loop-IsByte (suc size) 0 negative (omega arith))

encode_loop-IsByte :
    (f u size : ℕ) (negative : Bool) → u < 64 * 128 ^ f → All IsByte (encode_loop f u size negative)
unfolding encode_loop
encode_loop-IsByte zero u size negative h = pad_loop-IsByte size u negative (omega arith)
encode_loop-IsByte (suc f) u size negative h = ground (
  arith,
  pad_loop-IsByte size u negative,
  bit_or_80 (u % 128) (omega arith),
  encode_loop-IsByte f (u / 128) (size - 1) negative (omega arith),
)

pub num_encode_with_size-IsByte :
    (num size : ℕ) (bytes : List ℕ)
    → IsWord num
    → num_encode_with_size num size ≡ some bytes
    → All IsByte bytes
unfolding num_encode_with_size
num_encode_with_size-IsByte num size bytes h e = ground (
  arith,
  encode_loop-IsByte 5 (magnitude num) size (is_negative num) (omega (arith, magnitude-lt num h)),
)
