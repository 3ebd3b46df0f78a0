-- ===== src/Source/Literal/Value.antt =====
-- Which values the number literals of compile.c have.
use mcp_forth.Prelude.{
  ℕ, ◌+◌, ◌-◌, ◌*◌, ◌%◌, ◌≤◌, ◌≡◌, refl, inl, inr, Bool, true, false, ◌&&◌, Option, none, some,
  List, [], ◌∷◌, arith, ltb, ◌==◌, if◌then◌else◌, ltb→lt, lt→ltb, le→ltb_false, ltb_false→le,
  Bool-cases, Option-cases, some-eq_some, word_mod, IsWord, ◌>>=◌,
}
use mcp_forth.Source.Literal.{
  uint_max, decimal_digit, hex_digit, digit_loop, finish_literal, parse_hex, parse_decimal,
  parse_unsigned, parse_literal,
}

-- The value of the digits, of any size.
unfoldable pub digits_value : ℕ → (ℕ → Option ℕ) → List ℕ → ℕ → Option ℕ
digits_value base digit [] num = some num
digits_value base digit (c ∷ cs) num = elim (digit c) [
  | none ↦ none
  | some new_digit ↦ digits_value base digit cs (num * base + new_digit)
]

digits_value-ge :
    (base : ℕ) (digit : ℕ → Option ℕ) (cs : List ℕ) (num v : ℕ)
    → 1 ≤ base
    → digits_value base digit cs num ≡ some v
    → num ≤ v
unfolding digits_value
digits_value-ge base digit [] num v h e = omega (arith, some-eq_some e)
digits_value-ge base digit (c ∷ cs) num v h e = elim (Option-cases (digit c)) [
  | inl n ↦ cc (rw (n, digits_value) at e)
  | inr (d, s) ↦
      let le : num * base + d ≤ v =
        digits_value-ge base digit cs (num * base + d) v h (rw (s, digits_value) at e) in
      grind arith
]

-- The early exits of the loop only refuse what is too large at the end.
digit_loop-digits_value :
    (base : ℕ) (digit : ℕ → Option ℕ) (cs : List ℕ) (num : ℕ)
    → 1 ≤ base
    → num ≤ uint_max
    → digit_loop base digit cs num
      ≡ (digits_value base digit cs num >>= λ v. if ltb uint_max v then none else some v)
unfolding digit_loop digits_value
digit_loop-digits_value base digit [] num h le = rw (le→ltb_false uint_max num le)
digit_loop-digits_value base digit (c ∷ cs) num h le = elim (Option-cases (digit c)) [
  | inl n ↦ rw (n, digit_loop, digits_value)
  | inr (d, s) ↦
      rw (s, digit_loop, digits_value)
        (elim (Bool-cases (ltb uint_max (num * base + d))) [
          | inl big ↦ rw big (
              large (digits_value base digit cs (num * base + d)) (λ v e. lt→ltb uint_max v (
                omega (
                  arith,
                  ltb→lt uint_max (num * base + d) big,
                  digits_value-ge base digit cs (num * base + d) v h e,
                ))))
          | inr small ↦ rw small (
              digit_loop-digits_value base digit cs (num * base + d) h
                (ltb_false→le uint_max (num * base + d) small))
        ])
]
  where
    large :
        (o : Option ℕ)
        → ((v : ℕ) → o ≡ some v → ltb uint_max v ≡ true)
        → none ≡ (o >>= λ v. if ltb uint_max v then none else some v)
    large none big = refl
    large (some v) big = rw (big v refl)

-- The values that the literal may have, and the `int` that each becomes.
unfoldable pub in_range : Bool → ℕ → Option ℕ
in_range true v = if ltb 2147483648 v then none else some ((word_mod - v) % word_mod)
in_range false v = if ltb uint_max v then none else some v

in_range-finish :
    (negative : Bool) (o : Option ℕ)
    → ((o >>= λ v. if ltb uint_max v then none else some v) >>= finish_literal negative)
      ≡ (o >>= in_range negative)
unfolding in_range finish_literal
in_range-finish negative none = refl
in_range-finish true (some v) = ground arith
in_range-finish false (some v) = ground arith

parse_decimal-value :
    (negative : Bool) (word : List ℕ)
    → parse_decimal negative word ≡ (digits_value 10 decimal_digit word 0 >>= in_range negative)
unfolding parse_decimal
parse_decimal-value negative word =
    rw (digit_loop-digits_value 10 decimal_digit word 0 (omega arith) (omega arith))
      (in_range-finish negative (digits_value 10 decimal_digit word 0))

-- The literal's value in full, with no limit on the way: what the word stands for after its sign.
unfoldable pub unsigned_value : List ℕ → Option ℕ
unsigned_value [] = none
unsigned_value (c ∷ []) = digits_value 10 decimal_digit (c ∷ []) 0
unsigned_value (c ∷ d ∷ []) =
    if c == b'0' && d == b'x' then none else digits_value 10 decimal_digit (c ∷ d ∷ []) 0
unsigned_value (c ∷ d ∷ e ∷ ds) =
    if c == b'0' && d == b'x'
    then digits_value 16 hex_digit (e ∷ ds) 0
    else digits_value 10 decimal_digit (c ∷ d ∷ e ∷ ds) 0

parse_unsigned-value :
    (negative : Bool) (word : List ℕ)
    → parse_unsigned negative word ≡ (unsigned_value word >>= in_range negative)
unfolding parse_unsigned parse_hex unsigned_value
parse_unsigned-value negative [] = refl
parse_unsigned-value negative (c ∷ []) = parse_decimal-value negative (c ∷ [])
parse_unsigned-value negative (c ∷ d ∷ []) = elim (Bool-cases (c == b'0' && d == b'x')) [
  | inl hex ↦ rw hex
  | inr dec ↦ rw dec (parse_decimal-value negative (c ∷ d ∷ []))
]
parse_unsigned-value negative (c ∷ d ∷ e ∷ ds) = elim (Bool-cases (c == b'0' && d == b'x')) [
  | inl hex ↦ rw hex (
      rw (digit_loop-digits_value 16 hex_digit (e ∷ ds) 0 (omega arith) (omega arith))
        (in_range-finish negative (digits_value 16 hex_digit (e ∷ ds) 0)))
  | inr dec ↦ rw dec (parse_decimal-value negative (c ∷ d ∷ e ∷ ds))
]

unfoldable pub literal_value : List ℕ → Option ℕ
unfolding unsigned_value in_range
literal_value [] = none
literal_value (c ∷ cs) =
    if c == b'-'
    then unsigned_value cs >>= in_range true
    else unsigned_value (c ∷ cs) >>= in_range false

-- The parser gives what the digits are worth without the limit on the way.
pub parse_literal_lem : (word : List ℕ) → parse_literal word ≡ literal_value word
unfolding parse_literal literal_value
parse_literal_lem [] = refl
parse_literal_lem (c ∷ cs) = elim (Bool-cases (c == b'-')) [
  | inl minus ↦ rw minus (parse_unsigned-value true cs)
  | inr plus ↦ rw plus (parse_unsigned-value false (c ∷ cs))
]

in_range-IsWord :
    (negative : Bool) (o : Option ℕ) {w : ℕ} → (o >>= in_range negative) ≡ some w → IsWord w
unfolding in_range
in_range-IsWord negative none e = cc
in_range-IsWord true (some v) e = ground arith
in_range-IsWord false (some v) e = ground arith

-- Every literal that is accepted is a 32-bit pattern.
pub parse_literal-IsWord : (word : List ℕ) (w : ℕ) → parse_literal word ≡ some w → IsWord w
unfolding literal_value
parse_literal-IsWord [] w e = cc (rw (parse_literal_lem []) at e)
parse_literal-IsWord (c ∷ cs) w e = elim (Bool-cases (c == b'-')) [
  | inl minus ↦
      in_range-IsWord true (unsigned_value cs) (rw (parse_literal_lem (c ∷ cs), minus) at e)
  | inr plus ↦
      in_range-IsWord false (unsigned_value (c ∷ cs)) (rw (parse_literal_lem (c ∷ cs), plus) at e)
]
