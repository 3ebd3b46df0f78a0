-- ===== src/Source/Literal/RoundTrip.antt =====
-- Every `int`, printed in decimal, is read back by compile.c.
use mcp_forth.Prelude.{
  ℕ, zero, suc, ◌+◌, ◌-◌, ◌*◌, ◌/◌, ◌%◌, ◌^◌, ◌≤◌, ◌<◌, ◌≡◌, refl, ap, ◌∙◌, ◌≢◌, inl, inr, true,
  false, ◌&&◌, none, some, List, [], ◌∷◌, ◌++◌, arith, ltb, ◌==◌, if◌then◌else◌, ltb→lt, Bool-cases,
  Option-cases, word_mod, IsWord, is_negative, ◌>>=◌,
}
use mcp_forth.Source.Literal.{decimal_digit, parse_literal}
use mcp_forth.Source.Literal.Value.{
  digits_value, in_range, unsigned_value, literal_value, parse_literal_lem,
}

-- Decimal digits, most significant first, for `n` below 10 ^ (f + 1).
unfoldable pub show : ℕ → ℕ → List ℕ
show zero n = (n + 48) ∷ []
show (suc f) n =
    let front = show f (n / 10) in if ltb n 10 then (n + 48) ∷ [] else front ++ ((n % 10 + 48) ∷ [])

-- An `int` as a programmer writes it.
unfoldable pub show_int : ℕ → List ℕ
unfolding show
show_int w = if is_negative w then b'-' ∷ show 9 (word_mod - w) else show 9 w

digits_value-append :
    (xs ys : List ℕ) (n : ℕ)
    → digits_value 10 decimal_digit (xs ++ ys) n
      ≡ (digits_value 10 decimal_digit xs n >>= digits_value 10 decimal_digit ys)
unfolding digits_value
digits_value-append [] ys n = refl
digits_value-append (x ∷ xs) ys n = elim (Option-cases (decimal_digit x)) [
  | inl e ↦ rw (e, digits_value)
  | inr (d, e) ↦ rw (e, digits_value) (digits_value-append xs ys (n * 10 + d))
]

decimal_digit-show : (d : ℕ) → d < 10 → decimal_digit (d + 48) ≡ some d
unfolding decimal_digit
decimal_digit-show d h = ground arith

digits_value-one :
    (d n : ℕ) → d < 10 → digits_value 10 decimal_digit ((d + 48) ∷ []) n ≡ some (n * 10 + d)
unfolding digits_value
digits_value-one d n h = rw (decimal_digit-show d h, digits_value)

digits_value-show : (f n : ℕ) → n < 10 ^ suc f → digits_value 10 decimal_digit (show f n) 0 ≡ some n
unfolding show
digits_value-show zero n h = digits_value-one n 0 (omega arith) ∙ ap some (omega arith)
digits_value-show (suc f) n h = elim (Bool-cases (ltb n 10)) [
  | inl small ↦ rw small (digits_value-one n 0 (ltb→lt n 10 small) ∙ ap some (omega arith))
  | inr large ↦ rw large (
      rw (digits_value-append (show f (n / 10)) ((n % 10 + 48) ∷ []) 0) (
        rw (digits_value-show f (n / 10) (omega arith))
          (digits_value-one (n % 10) (n / 10) (omega arith) ∙ ap some (omega arith))))
]

-- The first byte of a printed number is a digit.
abbrev StartsWithDigit : List ℕ → Type 0
StartsWithDigit [] = ⊥
StartsWithDigit (c ∷ cs) = (48 ≤ c) × (c ≤ 57)

StartsWithDigit-append : (xs ys : List ℕ) → StartsWithDigit xs → StartsWithDigit (xs ++ ys)
StartsWithDigit-append [] ys h = absurd h
StartsWithDigit-append (c ∷ cs) ys h = h

show-StartsWithDigit : (f n : ℕ) → n < 10 ^ suc f → StartsWithDigit (show f n)
unfolding show
show-StartsWithDigit zero n h = omega arith
show-StartsWithDigit (suc f) n h = elim (Bool-cases (ltb n 10)) [
  | inl small ↦ rw small (omega (arith, ltb→lt n 10 small))
  | inr large ↦
      rw large
        (StartsWithDigit-append (show f (n / 10)) _ (show-StartsWithDigit f (n / 10) (omega arith)))
]

hex_prefix_digits :
    (c d : ℕ)
    → (c == b'0' && d == b'x') ≡ true
    → (decimal_digit c ≡ some 0) × (decimal_digit d ≡ none)
unfolding decimal_digit
hex_prefix_digits c d h = ground arith

-- A hexadecimal prefix is not among digits.
hex_prefix-no_value :
    (c d : ℕ) (ds : List ℕ) (v : ℕ)
    → (c == b'0' && d == b'x') ≡ true
    → digits_value 10 decimal_digit (c ∷ d ∷ ds) 0 ≢ some v
unfolding digits_value
hex_prefix-no_value c d ds v h e =
    let (zero_c, none_d) = hex_prefix_digits c d h in
    cc (rw (zero_c, digits_value, none_d, digits_value) at e)

unsigned_value-digits :
    (word : List ℕ) (v : ℕ)
    → StartsWithDigit word
    → digits_value 10 decimal_digit word 0 ≡ some v
    → unsigned_value word ≡ some v
unfolding unsigned_value
unsigned_value-digits [] v s e = absurd s
unsigned_value-digits (c ∷ []) v s e = e
unsigned_value-digits (c ∷ d ∷ []) v s e = elim (Bool-cases (c == b'0' && d == b'x')) [
  | inl hex ↦ absurd (hex_prefix-no_value c d [] v hex e)
  | inr dec ↦ rw dec e
]
unsigned_value-digits (c ∷ d ∷ x ∷ ds) v s e = elim (Bool-cases (c == b'0' && d == b'x')) [
  | inl hex ↦ absurd (hex_prefix-no_value c d (x ∷ ds) v hex e)
  | inr dec ↦ rw dec e
]

unsigned_value-show : (n : ℕ) → n < 10 ^ 10 → unsigned_value (show 9 n) ≡ some n
unsigned_value-show n h =
    unsigned_value-digits (show 9 n) n (show-StartsWithDigit 9 n h) (digits_value-show 9 n h)

literal_value-digits :
    (word : List ℕ)
    → StartsWithDigit word
    → literal_value word ≡ (unsigned_value word >>= in_range false)
unfolding literal_value
literal_value-digits [] s = absurd s
literal_value-digits (c ∷ cs) s = let e : (c == b'-') ≡ false = ground arith in rw e

-- For every `int`, its decimal text is a literal with that value.
pub parse_literal-show_int : (w : ℕ) → IsWord w → parse_literal (show_int w) ≡ some w
unfolding show_int literal_value in_range
parse_literal-show_int w h = elim (Bool-cases (is_negative w)) [
  | inl neg ↦
      rw (parse_literal_lem, neg)
        (rw (unsigned_value-show (word_mod - w) (omega arith)) (ground arith))
  | inr pos ↦
      rw (parse_literal_lem, pos)
        (rw (literal_value-digits (show 9 w) (show-StartsWithDigit 9 w (omega arith)))
          (rw (unsigned_value-show w (omega arith)) (ground arith)))
]
