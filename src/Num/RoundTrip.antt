-- ===== src/Num/RoundTrip.antt =====
-- What the encoder of mcp_forth.c writes, its decoder reads back.
use mcp_forth.Prelude.{
  ℕ, zero, suc, ◌+◌, ◌-◌, ◌*◌, ◌/◌, ◌%◌, ◌^◌, ◌<◌, bit_and, bit_or, ◌≡◌, ap, inl, inr, Bool, true,
  false, some, List, ◌∷◌, ◌++◌, arith, ltb, ◌==◌, ltb_false→le, Bool-cases, length, bit_and-7f,
  bit_and_80, bit_and_40, bit_and-3f, bit_or_80, bit_or_40, IsWord, is_negative,
}
use mcp_forth.Num.{
  magnitude, num_encoded_size_from_int, pad_loop, last_byte, encode_loop, num_encode_with_size,
  num_encode, num_decode,
}
use mcp_forth.Num.Size.{magnitude-lt, num_encoded_size_bounds, length-num_encode_with_size}
use mcp_forth.Num.Decode.{read, signed, add_group, num_decode-read}
use mathlib.Core.Option

last_byte-read :
    (u : ℕ) (negative : Bool) (rest : List ℕ)
    → u < 64
    → read (last_byte u negative ∷ rest) ≡ some (u, negative, rest)
unfolding read last_byte
last_byte-read u true rest h = rw (bit_or_40 u h) (
    ground (
      arith,
      bit_and_80 (u + 64) (omega arith),
      bit_and_40 (u + 64) (omega arith),
      bit_and-3f (u + 64) (omega arith),
    ))
last_byte-read u false rest h =
    ground
      (arith, bit_and_80 u (omega arith), bit_and_40 u (omega arith), bit_and-3f u (omega arith))

-- A byte with the top bit set over the group `g`.
read-inner :
    (g : ℕ) (bs : List ℕ)
    → g < 128
    → read (bit_or g 0x80 ∷ bs) ≡ Option.map (add_group (g + 128)) (read bs)
unfolding read
read-inner g bs h =
    let e : (bit_and (g + 128) 0x80 == 0) ≡ false =
      ground (arith, bit_and_80 (g + 128) (omega arith)) in
    rw (bit_or_80 g h, e)

pad_loop-read :
    (size u : ℕ) (negative : Bool) (rest : List ℕ)
    → u < 64
    → read (pad_loop size u negative ++ rest) ≡ some (u, negative, rest)
unfolding pad_loop
pad_loop-read zero u negative rest h = last_byte-read u negative rest h
pad_loop-read (suc zero) u negative rest h = last_byte-read u negative rest h
pad_loop-read (suc (suc size)) u negative rest h =
    rw (read-inner u (pad_loop (suc size) 0 negative ++ rest) (omega arith)) (
      rw (pad_loop-read (suc size) 0 negative rest (omega arith))
        (ground (arith, bit_and-7f (u + 128) (omega arith))))

encode_loop-read :
    (f u size : ℕ) (negative : Bool) (rest : List ℕ)
    → u < 64 * 128 ^ f
    → IsWord u
    → read (encode_loop f u size negative ++ rest) ≡ some (u, negative, rest)
unfolding encode_loop
encode_loop-read zero u size negative rest h w = pad_loop-read size u negative rest (omega arith)
encode_loop-read (suc f) u size negative rest h w = elim (Bool-cases (ltb 63 u)) [
  | inl more ↦
      rw (more, encode_loop)
        (rw
          (read-inner (u % 128) (encode_loop f (u / 128) (size - 1) negative ++ rest) (omega arith))
          (rw (encode_loop-read f (u / 128) (size - 1) negative rest (omega arith) (omega arith))
            (ground (arith, bit_and-7f (u % 128 + 128) (omega arith)))))
  | inr done ↦
      rw (done, encode_loop)
        (pad_loop-read size u negative rest (omega (arith, ltb_false→le 63 u done)))
]

signed-magnitude :
    (num : ℕ) (rest : List ℕ)
    → IsWord num
    → signed (magnitude num, is_negative num, rest) ≡ (num, rest)
signed-magnitude num rest h = ground arith

-- Any size that the encoder accepts: the decoder reads the number back, and leaves the rest. This
-- does not need the size to be enough, since the encoder then writes all the groups.
pub num_decode-num_encode_with_size :
    (num size : ℕ) (bytes rest : List ℕ)
    → IsWord num
    → num_encode_with_size num size ≡ some bytes
    → num_decode (bytes ++ rest) ≡ some (num, rest)
unfolding num_encode_with_size
num_decode-num_encode_with_size num size bytes rest h e = rw num_decode-read (
    let written : encode_loop 5 (magnitude num) size (is_negative num) ≡ bytes = ground arith in
    rw (← written) (
      rw
        (encode_loop-read 5 (magnitude num) size (is_negative num) rest
          (omega (arith, magnitude-lt num h)) (omega (arith, magnitude-lt num h)))
        (ap some (signed-magnitude num rest h))))

-- For every `int` the encoder succeeds, writes as many bytes as it announces, and the decoder
-- reads the number back and stops behind them.
pub num_decode-num_encode :
    (num : ℕ) (rest : List ℕ)
    → IsWord num
    → (bytes : List ℕ) × (num_encode num ≡ some bytes)
      × (length bytes ≡ num_encoded_size_from_int num)
      × (num_decode (bytes ++ rest) ≡ some (num, rest))
unfolding num_encode
num_decode-num_encode num rest h =
    let (_, le) = num_encoded_size_bounds num h in
    let (bytes, e, l) =
      length-num_encode_with_size num (num_encoded_size_from_int num) h (omega arith) le in
    (
      bytes,
      e,
      l,
      num_decode-num_encode_with_size num (num_encoded_size_from_int num) bytes rest h e,
    )

pub num_decode-one_byte : (b : ℕ) (rest : List ℕ) → b < 64 → num_decode (b ∷ rest) ≡ some (b, rest)
unfolding num_decode
num_decode-one_byte b rest h =
    ground
      (arith, bit_and_80 b (omega arith), bit_and_40 b (omega arith), bit_and-3f b (omega arith))
