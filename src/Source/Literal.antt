-- ===== src/Source/Literal.antt =====
-- Number literals in compile.c. The source computes in `long long`: no value that it reaches leaves
-- that type, since each round starts at most at UINT_MAX.
pub mod Value
pub mod Standard
pub mod RoundTrip
mod Tests
use mcp_forth.Prelude.{
  ℕ, ◌+◌, ◌-◌, ◌*◌, ◌%◌, Bool, true, false, ◌&&◌, ◌||◌, Option, none, some, List, [], ◌∷◌, ltb, leb,
  ◌==◌, if◌then◌else◌, word_mod, ◌>>=◌,
}

abbrev pub uint_max : ℕ
uint_max = 4294967295

unfoldable pub decimal_digit : ℕ → Option ℕ
decimal_digit c = if ltb c b'0' || ltb b'9' c then none else some (c - b'0')

unfoldable pub hex_digit : ℕ → Option ℕ
hex_digit c =
    if leb b'0' c && leb c b'9'
    then some (c - b'0')
    else if leb b'a' c && leb c b'f'
    then some (c - b'a' + 10)
    else if leb b'A' c && leb c b'F'
    then some (c - b'A' + 10)
    else none

-- The loop over the digits, in the base that the branch multiplies by.
unfoldable pub digit_loop : ℕ → (ℕ → Option ℕ) → List ℕ → ℕ → Option ℕ
digit_loop base digit [] num = some num
digit_loop base digit (c ∷ cs) num = elim (digit c) [
  | none ↦ none
  | some new_digit ↦
      let num' = num * base + new_digit in
      let rest = digit_loop base digit cs num' in if ltb uint_max num' then none else rest
]

-- Below the loops: `num = -num; if(num < INT_MIN) return false`, or the value as an `int`.
unfoldable pub finish_literal : Bool → ℕ → Option ℕ
finish_literal true num = if ltb 2147483648 num then none else some ((word_mod - num) % word_mod)
finish_literal false num = some num

unfoldable pub parse_hex : Bool → List ℕ → Option ℕ
unfolding hex_digit digit_loop finish_literal
parse_hex negative [] = none
parse_hex negative (c ∷ cs) = do
  num ← digit_loop 16 hex_digit (c ∷ cs) 0
  finish_literal negative num

unfoldable pub parse_decimal : Bool → List ℕ → Option ℕ
unfolding decimal_digit digit_loop finish_literal
parse_decimal negative word = do
  num ← digit_loop 10 decimal_digit word 0
  finish_literal negative num

-- What follows the sign.
unfoldable pub parse_unsigned : Bool → List ℕ → Option ℕ
unfolding parse_hex parse_decimal
parse_unsigned negative [] = none
parse_unsigned negative (c ∷ []) = parse_decimal negative (c ∷ [])
parse_unsigned negative (c ∷ d ∷ ds) =
    if c == b'0' && d == b'x' then parse_hex negative ds else parse_decimal negative (c ∷ d ∷ ds)

-- `none` where the source returns false.
unfoldable pub parse_literal : List ℕ → Option ℕ
unfolding parse_unsigned
parse_literal [] = none
parse_literal (c ∷ cs) = if c == b'-' then parse_unsigned true cs else parse_unsigned false (c ∷ cs)
