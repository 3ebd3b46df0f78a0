-- ===== src/Num/Decode.antt =====
-- The decoder of mcp_forth.c against a one-pass reading of the same bytes.
use mcp_forth.Prelude.{
  ℕ, zero, suc, ◌+◌, ◌-◌, ◌*◌, ◌%◌, ◌≤◌, bit_and, ◌≡◌, refl, sym, ap, ◌∙◌, inl, inr, Bool, not,
  Option, none, some, List, [], ◌∷◌, ◌++◌, arith, ◌==◌, if◌then◌else◌, Bool-cases, Option-cases,
  get_or, take, drop, some-eq_some, word_mod, invert, take-append-drop,
}
use mcp_forth.Num.{num_encoded_size_from_encoded, decode_loop, decode_at, num_decode}
use mathlib.Core.Option

-- One more group below what was read.
abbrev pub add_group : ℕ → ℕ × Bool × List ℕ → ℕ × Bool × List ℕ
add_group b r = (r.0 * 128 % word_mod + bit_and b 0x7f, r.1, r.2)

-- The stored word, its sign, and the bytes behind it, in one pass.
unfoldable pub read : List ℕ → Option (ℕ × Bool × List ℕ)
read [] = none
read (b ∷ bs) =
    let more = read bs in
    if bit_and b 0x80 == 0
    then some (bit_and b 0x3f, not (bit_and b 0x40 == 0), bs)
    else Option.map (add_group b) more

abbrev pub signed : ℕ × Bool × List ℕ → ℕ × List ℕ
signed r = (if r.1 then invert r.0 else r.0, r.2)

-- What `decode_at` takes from an encoding of `len + 1` bytes, before the sign is applied.
abbrev stored_at : List ℕ → ℕ → ℕ × Bool × List ℕ
unfolding decode_loop
stored_at src len = (
  decode_loop (take len src) (bit_and (get_or src len 0) 0x3f),
  not (bit_and (get_or src len 0) 0x40 == 0),
  drop (suc len) src,
)

pred-suc : (n : ℕ) → suc n - 1 ≡ n
pred-suc n = omega arith

decode_at-stored_at :
    (src : List ℕ) (len : ℕ) → decode_at src (suc len) ≡ signed (stored_at src len)
unfolding decode_at
decode_at-stored_at src len = rw (pred-suc len) (ground arith)

size_from_encoded-pos :
    (src : List ℕ) {len : ℕ} → num_encoded_size_from_encoded src ≡ some len → 1 ≤ len
unfolding num_encoded_size_from_encoded
size_from_encoded-pos [] e = cc
size_from_encoded-pos (b ∷ bs) e = ground arith

stored_at-inner :
    (b : ℕ) (bs : List ℕ) (o : Option ℕ)
    → ((len : ℕ) → o ≡ some len → 1 ≤ len)
    → Option.map (add_group b) (Option.map (λ len. stored_at bs (len - 1)) o)
      ≡ Option.map (λ len. stored_at (b ∷ bs) (len - 1)) (Option.map suc o)
unfolding decode_loop
stored_at-inner b bs none pos = refl
stored_at-inner b bs (some zero) pos = absurd (omega (arith, pos 0 refl))
stored_at-inner b bs (some (suc m)) pos = rw (pred-suc m) (rw (pred-suc (suc m)))

read-stored_at :
    (src : List ℕ)
    → read src ≡ Option.map (λ len. stored_at src (len - 1)) (num_encoded_size_from_encoded src)
unfolding read num_encoded_size_from_encoded decode_loop
read-stored_at [] = refl
read-stored_at (b ∷ bs) = elim (Bool-cases (bit_and b 0x80 == 0)) [
  | inl done ↦ rw done
  | inr more ↦ rw more (
      rw (read-stored_at bs)
        (stored_at-inner b bs (num_encoded_size_from_encoded bs) (λ len. size_from_encoded-pos bs)))
]

signed-stored_at :
    (src : List ℕ) (o : Option ℕ)
    → ((len : ℕ) → o ≡ some len → 1 ≤ len)
    → Option.map (decode_at src) o
      ≡ Option.map signed (Option.map (λ len. stored_at src (len - 1)) o)
signed-stored_at src none pos = refl
signed-stored_at src (some zero) pos = absurd (omega (arith, pos 0 refl))
signed-stored_at src (some (suc m)) pos = rw (pred-suc m) (ap some (decode_at-stored_at src m))

-- The decoder, which first measures the encoding and then runs over it backwards, reads what one
-- pass over the bytes reads, and fails where that fails.
pub num_decode-read : (src : List ℕ) → num_decode src ≡ Option.map signed (read src)
unfolding num_decode
num_decode-read src =
    rw (read-stored_at src)
      (signed-stored_at src (num_encoded_size_from_encoded src) (λ len. size_from_encoded-pos src))

-- What the decoder leaves is the end of what it was given.
pub num_decode-suffix :
    (src : List ℕ) {x : ℕ} {rest : List ℕ}
    → num_decode src ≡ some (x, rest)
    → (front : List ℕ) × (src ≡ front ++ rest)
unfolding num_decode decode_at
num_decode-suffix src {x} {rest} e = elim (Option-cases (num_encoded_size_from_encoded src)) [
  | inl n ↦ absurd (cc (rw n at e))
  | inr (len, s) ↦
      let d : decode_at src len ≡ (x, rest) = some-eq_some (rw s at e) in
      let r : drop len src ≡ rest = ap (λ p. p.1) d in
      (take len src, sym (take-append-drop len src) ∙ ap (λ l. take len src ++ l) r)
]
