-- ===== src/Source/Literal/Standard.antt =====
-- What a number literal of compile.c means: its digits by their place in the alphabet of the base, each
-- times its power of the base.
use mcp_forth.Prelude.{
  ℕ, suc, ◌+◌, ◌*◌, ◌^◌, ◌≤◌, ◌<◌, ◌≡◌, refl, sym, ap, ◌∙◌, inl, inr, Bool, true, false, ◌&&◌,
  Option, none, some, List, [], ◌∷◌, All, arith, ltb, ◌==◌, ==_iff, if◌then◌else◌, Bool-cases,
  holds_below, holds_below-at, length, codes, Option-cases, ltb→lt, ltb_false→le, ◌>>=◌,
}
use native.Mathlib.Nat.{pow-suc, pow-zero}
use mcp_forth.Source.Literal.{decimal_digit, hex_digit, parse_literal}
use mcp_forth.Source.Literal.Value.{
  digits_value, in_range, unsigned_value, literal_value, parse_literal_lem,
}

-- The index of a byte in an alphabet.
unfoldable place : List ℕ → ℕ → Option ℕ
place [] c = none
place (x ∷ xs) c =
    if c == x then some 0 else elim (place xs c) [ none ↦ none | some i ↦ some (suc i) ]

unfoldable decimal_place : ℕ → Option ℕ
unfolding place
decimal_place c = place (codes "0123456789") c

unfoldable hex_place : ℕ → Option ℕ
unfolding place
hex_place c = elim (place (codes "0123456789abcdef") c) [
  | some i ↦ some i
  | none ↦ place (codes "0123456789ABCDEF") c
]

-- The digits, the first with the highest power; `none` where one is not in the alphabet.
unfoldable powers : ℕ → (ℕ → Option ℕ) → List ℕ → Option ℕ
powers base digit [] = some 0
powers base digit (c ∷ cs) = elim (digit c) [
  | none ↦ none
  | some d ↦ elim (powers base digit cs) [ none ↦ none | some v ↦ some (d * base ^ length cs + v) ]
]

-- One digit at least.
unfoldable number : ℕ → (ℕ → Option ℕ) → List ℕ → Option ℕ
unfolding powers
number base digit [] = none
number base digit (c ∷ cs) = powers base digit (c ∷ cs)

-- What follows a prefix.
unfoldable strip : List ℕ → List ℕ → Option (List ℕ)
strip [] word = some word
strip (p ∷ ps) [] = none
strip (p ∷ ps) (c ∷ cs) = if c == p then strip ps cs else none

-- Hexadecimal digits behind `0x`, or else decimal digits.
unfoldable by_prefix : Option (List ℕ) → List ℕ → Option ℕ
unfolding number decimal_place hex_place
by_prefix (some digits) word = number 16 hex_place digits
by_prefix none word = number 10 decimal_place word

unfoldable unsigned_meaning : List ℕ → Option ℕ
unfolding by_prefix strip
unsigned_meaning word = by_prefix (strip (codes "0x") word) word

unfoldable pub meaning : List ℕ → Option ℕ
unfolding unsigned_meaning strip in_range
meaning word = elim (strip (codes "-") word) [
  | some rest ↦ unsigned_meaning rest >>= in_range true
  | none ↦ unsigned_meaning word >>= in_range false
]

-- Equal options of numbers, as a test.
same : Option ℕ → Option ℕ → Bool
same none none = true
same none (some b) = false
same (some a) none = false
same (some a) (some b) = a == b

same→eq : (o p : Option ℕ) → same o p ≡ true → o ≡ p
unfolding same
same→eq none none e = refl
same→eq none (some b) e = cc e
same→eq (some a) none e = cc e
same→eq (some a) (some b) e = ap some ((==_iff a b).0 e)

place-none : (xs : List ℕ) (c : ℕ) → All (λ x. x < 128) xs → 128 ≤ c → place xs c ≡ none
unfolding place
place-none [] c h le = refl
place-none (x ∷ xs) c (hx, h) le =
    let ne : (c == x) ≡ false = ground arith in rw (place, ne, place-none xs c h le)

hex_table : holds_below (λ c. same (hex_digit c) (hex_place c)) 128 ≡ true
unfolding holds_below same hex_digit hex_place
hex_table = refl

decimal_table : holds_below (λ c. same (decimal_digit c) (decimal_place c)) 128 ≡ true
unfolding holds_below same decimal_digit decimal_place
decimal_table = refl

hex_digit-large : (c : ℕ) → 128 ≤ c → hex_digit c ≡ none
unfolding hex_digit
hex_digit-large c h = ground arith

decimal_digit-large : (c : ℕ) → 128 ≤ c → decimal_digit c ≡ none
unfolding decimal_digit
decimal_digit-large c h = ground arith

hex_place-none : (c : ℕ) → 128 ≤ c → hex_place c ≡ none
unfolding hex_place
hex_place-none c le = rw (
  hex_place,
  place-none (codes "0123456789abcdef") c (ground arith) le,
  place-none (codes "0123456789ABCDEF") c (ground arith) le,
)

hex_digit-place : hex_digit ≡ hex_place
hex_digit-place = λ i c. at c i
  where
    at : (c : ℕ) → hex_digit c ≡ hex_place c
    at c = elim (Bool-cases (ltb c 128)) [
      | inl h ↦ same→eq _ _ (holds_below-at _ 128 (ltb→lt c 128 h) hex_table)
      | inr h ↦
          let le : 128 ≤ c = ltb_false→le c 128 h in
          hex_digit-large c le ∙ sym (hex_place-none c le)
    ]

decimal_digit-place : decimal_digit ≡ decimal_place
decimal_digit-place = λ i c. at c i
  where
    at : (c : ℕ) → decimal_digit c ≡ decimal_place c
    at c = elim (Bool-cases (ltb c 128)) [
      | inl h ↦ same→eq _ _ (holds_below-at _ 128 (ltb→lt c 128 h) decimal_table)
      | inr h ↦
          let le : 128 ≤ c = ltb_false→le c 128 h in
          decimal_digit-large c le
          ∙ sym (unfold decimal_place in place-none (codes "0123456789") c (ground arith) le)
    ]

sum_step : (base num d n v : ℕ) → (num * base + d) * n + v ≡ num * (base * n) + (d * n + v)
sum_step base num d n v = grind arith

shifted : ℕ → Option ℕ → Option ℕ
shifted k none = none
shifted k (some v) = some (k + v)

power_suc : (base n : ℕ) → base ^ suc n ≡ base * base ^ n
power_suc base n = grind (arith, pow-suc base n)

-- The digits from the first on, against the powers.
digits_value-powers :
    (base : ℕ) (digit : ℕ → Option ℕ) (cs : List ℕ) (num : ℕ)
    → digits_value base digit cs num ≡ shifted (num * base ^ length cs) (powers base digit cs)
unfolding digits_value powers shifted
digits_value-powers base digit [] num = ap some (alone base num)
  where
    alone : (base num : ℕ) → num ≡ num * base ^ 0 + 0
    alone base num = grind (arith, pow-zero base)
digits_value-powers base digit (c ∷ cs) num = elim (Option-cases (digit c)) [
  | inl e ↦ rw (digits_value, powers, e)
  | inr (d, e) ↦
      rw (digits_value, powers, e)
        (digits_value-powers base digit cs (num * base + d)
          ∙ step base num d (length cs) (powers base digit cs))
]
  where
    step :
        (base num d n : ℕ) (o : Option ℕ)
        → shifted ((num * base + d) * base ^ n) o
          ≡ shifted (num * base ^ suc n) (elim o [ none ↦ none | some v ↦ some (d * base ^ n + v) ])
    step base num d n none = refl
    step base num d n (some v) = ap some (
        sum_step base num d (base ^ n) v
        ∙ ap (λ k. num * k + (d * base ^ n + v)) (sym (power_suc base n)))

whole_number :
    (base : ℕ) (digit : ℕ → Option ℕ) (c : ℕ) (cs : List ℕ)
    → digits_value base digit (c ∷ cs) 0 ≡ number base digit (c ∷ cs)
unfolding number shifted
whole_number base digit c cs =
    digits_value-powers base digit (c ∷ cs) 0
    ∙ zero_front (base ^ length (c ∷ cs)) (powers base digit (c ∷ cs))
  where
    zero_front : (n : ℕ) (o : Option ℕ) → shifted (0 * n) o ≡ o
    zero_front n none = refl
    zero_front n (some v) = ap some (omega arith)

decimal_number :
    (c : ℕ) (cs : List ℕ)
    → digits_value 10 decimal_digit (c ∷ cs) 0 ≡ number 10 decimal_place (c ∷ cs)
decimal_number c cs =
    whole_number 10 decimal_digit c cs ∙ ap (λ digit. number 10 digit (c ∷ cs)) decimal_digit-place

hex_number :
    (c : ℕ) (cs : List ℕ) → digits_value 16 hex_digit (c ∷ cs) 0 ≡ number 16 hex_place (c ∷ cs)
hex_number c cs =
    whole_number 16 hex_digit c cs ∙ ap (λ digit. number 16 digit (c ∷ cs)) hex_digit-place

number-none : (base : ℕ) (digit : ℕ → Option ℕ) → number base digit [] ≡ none
unfolding number
number-none base digit = refl

strip_two :
    (c d : ℕ) (ds : List ℕ)
    → strip (codes "0x") (c ∷ d ∷ ds) ≡ (if c == b'0' && d == b'x' then some ds else none)
unfolding strip
strip_two c d ds = elim (Bool-cases (c == b'0')) [ inl z ↦ rw (strip, z) | inr z ↦ rw (strip, z) ]

strip_empty : strip (codes "0x") [] ≡ none
unfolding strip
strip_empty = refl

strip_one : (c : ℕ) → strip (codes "0x") (c ∷ []) ≡ none
unfolding strip
strip_one c = elim (Bool-cases (c == b'0')) [ inl z ↦ rw (strip, z) | inr z ↦ rw (strip, z) ]

meaning_by :
    (word : List ℕ) (o : Option (List ℕ))
    → strip (codes "0x") word ≡ o
    → unsigned_meaning word ≡ by_prefix o word
unfolding unsigned_meaning
meaning_by word o e = ap (λ p. by_prefix p word) e

by_hex : (digits word : List ℕ) → by_prefix (some digits) word ≡ number 16 hex_place digits
unfolding by_prefix
by_hex digits word = refl

by_decimal : (word : List ℕ) → by_prefix none word ≡ number 10 decimal_place word
unfolding by_prefix
by_decimal word = refl

two_digits :
    (c d : ℕ) (ds : List ℕ) (b : Bool)
    → (c == b'0' && d == b'x') ≡ b
    → unsigned_meaning (c ∷ d ∷ ds)
      ≡ (if b then number 16 hex_place ds else number 10 decimal_place (c ∷ d ∷ ds))
two_digits c d ds true e =
    meaning_by (c ∷ d ∷ ds) (some ds) (strip_two c d ds ∙ ap (λ b. if b then some ds else none) e)
    ∙ by_hex ds (c ∷ d ∷ ds)
two_digits c d ds false e =
    meaning_by (c ∷ d ∷ ds) none (strip_two c d ds ∙ ap (λ b. if b then some ds else none) e)
    ∙ by_decimal (c ∷ d ∷ ds)

unsigned_value-meaning : (word : List ℕ) → unsigned_value word ≡ unsigned_meaning word
unfolding unsigned_value
unsigned_value-meaning [] =
    sym (number-none 10 decimal_place) ∙ sym (meaning_by [] none strip_empty ∙ by_decimal [])
unsigned_value-meaning (c ∷ []) =
    decimal_number c [] ∙ sym (meaning_by (c ∷ []) none (strip_one c) ∙ by_decimal (c ∷ []))
unsigned_value-meaning (c ∷ d ∷ []) = elim (Bool-cases (c == b'0' && d == b'x')) [
  | inl hex ↦ rw hex (sym (number-none 16 hex_place) ∙ sym (two_digits c d [] true hex))
  | inr dec ↦ rw dec (decimal_number c (d ∷ []) ∙ sym (two_digits c d [] false dec))
]
unsigned_value-meaning (c ∷ d ∷ e ∷ ds) = elim (Bool-cases (c == b'0' && d == b'x')) [
  | inl hex ↦ rw hex (hex_number e ds ∙ sym (two_digits c d (e ∷ ds) true hex))
  | inr dec ↦ rw dec (decimal_number c (d ∷ e ∷ ds) ∙ sym (two_digits c d (e ∷ ds) false dec))
]

negative :
    (c : ℕ) (cs : List ℕ)
    → (c == b'-') ≡ true
    → literal_value (c ∷ cs) ≡ (unsigned_value cs >>= in_range true)
unfolding literal_value
negative c cs e = rw e

positive :
    (c : ℕ) (cs : List ℕ)
    → (c == b'-') ≡ false
    → literal_value (c ∷ cs) ≡ (unsigned_value (c ∷ cs) >>= in_range false)
unfolding literal_value
positive c cs e = rw e

signed : Option (List ℕ) → List ℕ → Option ℕ
signed (some rest) word = unsigned_meaning rest >>= in_range true
signed none word = unsigned_meaning word >>= in_range false

meaning_by_sign :
    (c : ℕ) (cs : List ℕ) (b : Bool)
    → (c == b'-') ≡ b
    → meaning (c ∷ cs) ≡ signed (if b then some cs else none) (c ∷ cs)
unfolding meaning strip signed
meaning_by_sign c cs true e = rw (meaning, e)
meaning_by_sign c cs false e = rw (meaning, e)

signed_minus : (cs word : List ℕ) → signed (some cs) word ≡ (unsigned_meaning cs >>= in_range true)
unfolding signed
signed_minus cs word = refl

signed_plus : (word : List ℕ) → signed none word ≡ (unsigned_meaning word >>= in_range false)
unfolding signed
signed_plus word = refl

meaning_empty : meaning [] ≡ none
unfolding meaning strip
meaning_empty = refl

literal_empty : literal_value [] ≡ none
unfolding literal_value
literal_empty = refl

-- For every word, the parser gives what the word means: behind `-` and `0x`, where they stand, one digit
-- or more of the base's alphabet, each worth its place there times its power of the base. It refuses the
-- word exactly where it is no such number, or its value is above UINT_MAX, or below INT_MIN.
pub parse_literal_value : (word : List ℕ) → parse_literal word ≡ meaning word
parse_literal_value [] = parse_literal_lem [] ∙ literal_empty ∙ sym meaning_empty
parse_literal_value (c ∷ cs) = elim (Bool-cases (c == b'-')) [
  | inl minus ↦
      parse_literal_lem (c ∷ cs)
      ∙ negative c cs minus
      ∙ ap (λ o. o >>= in_range true) (unsigned_value-meaning cs)
      ∙ sym (meaning_by_sign c cs true minus ∙ signed_minus cs (c ∷ cs))
  | inr plus ↦
      parse_literal_lem (c ∷ cs)
      ∙ positive c cs plus
      ∙ ap (λ o. o >>= in_range false) (unsigned_value-meaning (c ∷ cs))
      ∙ sym (meaning_by_sign c cs false plus ∙ signed_plus (c ∷ cs))
]
