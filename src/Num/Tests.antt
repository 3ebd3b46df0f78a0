-- ===== src/Num/Tests.antt =====
-- The numbers of mcp_forth.c: runs, and the theorems at concrete numbers.
use mcp_forth.Prelude.{ℕ, ◌*◌, ◌^◌, ◌≤◌, ◌≡◌, refl, ◌↔◌, some, List, [], ◌∷◌, ◌++◌, arith, length}
use mcp_forth.Num.{num_encode, num_decode, num_encoded_size_from_int, num_encode_with_size}
use mcp_forth.Num.Size.{IsWithin, num_encoded_size-le_iff, length-num_encode_with_size}
use mcp_forth.Num.RoundTrip.{num_decode-num_encode_with_size, num_decode-num_encode}

encode_300 : num_encode 300 ≡ some (0xac ∷ 0x02 ∷ [])
unfolding num_encode
encode_300 = refl

decode_300 : num_decode (0xac ∷ 0x02 ∷ 9 ∷ []) ≡ some (300, 9 ∷ [])
unfolding num_decode
decode_300 = refl

encode_300_wide : num_encode_with_size 300 4 ≡ some (0xac ∷ 0x82 ∷ 0x80 ∷ 0x00 ∷ [])
unfolding num_encode_with_size
encode_300_wide = refl

num_decode-num_encode_example :
    (bytes : List ℕ) × (num_encode 0xfffffed4 ≡ some bytes)
    × (length bytes ≡ num_encoded_size_from_int 0xfffffed4)
    × (num_decode (bytes ++ 9 ∷ []) ≡ some (0xfffffed4, 9 ∷ []))
num_decode-num_encode_example = num_decode-num_encode 0xfffffed4 (9 ∷ []) (omega arith)

num_decode-num_encode_with_size_example :
    num_decode ((0xac ∷ 0x82 ∷ 0x80 ∷ 0x00 ∷ []) ++ 9 ∷ []) ≡ some (300, 9 ∷ [])
num_decode-num_encode_with_size_example =
    num_decode-num_encode_with_size 300 4 (0xac ∷ 0x82 ∷ 0x80 ∷ 0x00 ∷ []) (9 ∷ []) (omega arith)
      encode_300_wide

num_encoded_size-le_iff_example :
    (num_encoded_size_from_int 0xfffffed4 ≤ 2) ↔ IsWithin (64 * 128 ^ 1) 0xfffffed4
num_encoded_size-le_iff_example = num_encoded_size-le_iff 0xfffffed4 1 (omega arith)

size_300 : num_encoded_size_from_int 300 ≤ 4
unfolding num_encoded_size_from_int
size_300 = omega arith

length-num_encode_with_size_example :
    (bytes : List ℕ) × (num_encode_with_size 300 4 ≡ some bytes) × (length bytes ≡ 4)
length-num_encode_with_size_example =
    length-num_encode_with_size 300 4 (omega arith) size_300 (omega arith)
