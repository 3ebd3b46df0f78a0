-- ===== src/Num.antt =====
-- The variable-length numbers of mcp_forth.c: `m4_num_encode` and its relatives.
-- Seven bits a byte, lowest group first, the top bit set on every byte but the last; bit 6 of the
-- last byte is the sign, and a negative number is stored as its complement.
-- A mask that keeps low bits, and a shift, of a whole word are written `%`, `/` and `*`.
pub mod Size
pub mod Decode
pub mod RoundTrip
mod Tests
use mcp_forth.Prelude.{
  ℕ, zero, suc, ◌+◌, ◌-◌, ◌*◌, ◌/◌, ◌%◌, Bool, true, false, not, ◌&&◌, Option, none, some, List, [],
  ◌∷◌, ltb, leb, ◌==◌, if◌then◌else◌, bit_and, bit_or, take, drop, get_or, word_mod, is_negative,
  invert,
}
use mathlib.Core.Option

-- `if(num < 0) u = ~u`
abbrev pub magnitude : ℕ → ℕ
magnitude num = if is_negative num then invert num else num

-- `while(u & ~0x3f) { u >>= 7; size++; }`, then `size + 1`. A word leaves the loop after four rounds.
unfoldable pub size_loop : ℕ → ℕ → ℕ → ℕ
size_loop zero u size = size + 1
size_loop (suc f) u size = elim (ltb 63 u) [
  | true ↦ size_loop f (u / 128) (size + 1)
  | false ↦ size + 1
]

unfoldable pub num_encoded_size_from_int : ℕ → ℕ
unfolding size_loop
num_encoded_size_from_int num = size_loop 5 (magnitude num) 0

-- `if(negative) u |= 0x40; *dst = u;`
unfoldable pub last_byte : ℕ → Bool → ℕ
last_byte u negative = if negative then bit_or u 0x40 else u

-- `while(size-- > 1) { *(dst++) = u | 0x80; u = 0; }`, then the last byte.
unfoldable pub pad_loop : ℕ → ℕ → Bool → List ℕ
pad_loop zero u negative = last_byte u negative ∷ []
pad_loop (suc zero) u negative = last_byte u negative ∷ []
pad_loop (suc (suc size)) u negative = bit_or u 0x80 ∷ pad_loop (suc size) 0 negative

-- `while(u & ~0x3f) { *(dst++) = (u & 0x7f) | 0x80; u >>= 7; size--; }`, then the padding.
-- A size that the source lets fall below 1 is 0 here: the padding loop treats them alike.
unfoldable pub encode_loop : ℕ → ℕ → ℕ → Bool → List ℕ
encode_loop zero u size negative = pad_loop size u negative
encode_loop (suc f) u size negative = elim (ltb 63 u) [
  | true ↦ bit_or (u % 128) 0x80 ∷ encode_loop f (u / 128) (size - 1) negative
  | false ↦ pad_loop size u negative
]

-- The bytes written at `dst`; `none` is the failed assertion on `size`.
unfoldable pub num_encode_with_size : ℕ → ℕ → Option (List ℕ)
unfolding encode_loop pad_loop last_byte
num_encode_with_size num size =
    if leb 1 size && leb size 5
    then some (encode_loop 5 (magnitude num) size (is_negative num))
    else none

unfoldable pub num_encode : ℕ → Option (List ℕ)
unfolding num_encode_with_size num_encoded_size_from_int
num_encode num = num_encode_with_size num (num_encoded_size_from_int num)

-- `while(*(p++) & 0x80); return p - src;` `none` is a read past the bytes at hand.
unfoldable pub num_encoded_size_from_encoded : List ℕ → Option ℕ
num_encoded_size_from_encoded [] = none
num_encoded_size_from_encoded (b ∷ bs) =
    let more = num_encoded_size_from_encoded bs in
    if bit_and b 0x80 == 0 then some 1 else Option.map suc more

-- The loop over `i = len - 2 .. 0`: `u <<= 7; u |= b & 0x7f`, from the last of `bs` to its first.
unfoldable pub decode_loop : List ℕ → ℕ → ℕ
decode_loop [] u = u
decode_loop (b ∷ bs) u = decode_loop bs u * 128 % word_mod + bit_and b 0x7f

-- The number behind an encoding of `len` bytes, and the bytes from `new_src` on.
unfoldable pub decode_at : List ℕ → ℕ → ℕ × List ℕ
unfolding decode_loop
decode_at src len =
    let b = get_or src (len - 1) 0 in
    let u = decode_loop (take (len - 1) src) (bit_and b 0x3f) in
    (if bit_and b 0x40 == 0 then u else invert u, drop len src)

unfoldable pub num_decode : List ℕ → Option (ℕ × List ℕ)
unfolding num_encoded_size_from_encoded decode_at
num_decode src = Option.map (decode_at src) (num_encoded_size_from_encoded src)
