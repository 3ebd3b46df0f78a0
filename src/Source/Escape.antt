-- ===== src/Source/Escape.antt =====
-- The escaped strings of compile.c, from the byte behind the opening quote on.
-- The functions that are called with no end of the source read up to the closing quote; a list that
-- ends before it stands for a read past the text.
pub mod Dump
pub mod RoundTrip
pub mod Meaning
mod Tests
use mcp_forth.Prelude.{
  ℕ, zero, suc, ◌+◌, Bool, true, false, ◌&&◌, ◌||◌, Option, none, some, List, [], ◌∷◌, ◌==◌,
  if◌then◌else◌, length,
}
use mathlib.Core.Option

-- The result of one call: a byte, or how the string ended; with the new `cur`.
pub data IterResult : Type 0 where
  char : ℕ → List ℕ → IterResult
  ended_ok : List ℕ → IterResult
  ended_early : IterResult

-- The `switch` on the byte behind a backslash. `again` is the next round of the loop.
unfoldable pub escape_switch : ℕ → List ℕ → IterResult → IterResult
escape_switch c rest again =
    if c == b'\\' || c == 34
    then char c rest
    else if c == b'n'
    then char 10 rest
    else if c == b'r'
    then char 13 rest
    else if c == b't'
    then char 9 rest
    else if c == 10
    then again
    else char b'\\' (c ∷ rest)

unfoldable pub escaped_string_iter_char : List ℕ → IterResult
unfolding escape_switch
escaped_string_iter_char [] = ended_early
escaped_string_iter_char (c ∷ []) =
    if c == 34 then ended_ok [] else if c == b'\\' then ended_early else char c []
escaped_string_iter_char (c ∷ d ∷ ds) =
    let again = escaped_string_iter_char ds in
    if c == 34
    then ended_ok (d ∷ ds)
    else if c == b'\\'
    then escape_switch d ds again
    else char c (d ∷ ds)

-- `while((iter_res = …) >= 0) *(dst++) = iter_res;` and the assertion behind it. Every round takes a
-- byte, so one round more than the text has bytes is enough; `none` is a text with no closing quote.
unfoldable pub dump_loop : ℕ → List ℕ → Option (List ℕ)
dump_loop zero src = none
dump_loop (suc f) src = elim (escaped_string_iter_char src) [
  | char c rest ↦ Option.map (λ out. c ∷ out) (dump_loop f rest)
  | ended_ok rest ↦ some []
  | ended_early ↦ none
]

unfoldable pub dump_escaped_string : List ℕ → Option (List ℕ)
unfolding dump_loop escaped_string_iter_char
dump_escaped_string src = dump_loop (suc (length src)) src

-- `while((iter_res = …) >= 0) ss->word_len++;`
unfoldable pub next_loop : ℕ → List ℕ → ℕ → Option (ℕ × List ℕ)
next_loop zero src word_len = none
next_loop (suc f) src word_len = elim (escaped_string_iter_char src) [
  | char c rest ↦ next_loop f rest (word_len + 1)
  | ended_ok rest ↦ some (word_len, rest)
  | ended_early ↦ none
]

-- The length of the string that begins at `cur`, and the new `cur`; `none` where the function is false.
unfoldable pub next_escaped_string : List ℕ → Option (ℕ × List ℕ)
unfolding next_loop escaped_string_iter_char
next_escaped_string src = next_loop (suc (length src)) src 0

-- The loop of `equal_escaped_string`; `none` is a failed assertion.
unfoldable pub equal_loop : ℕ → List ℕ → List ℕ → Option Bool
equal_loop zero s1 s2 = none
equal_loop (suc f) s1 s2 = elim (escaped_string_iter_char s1) [
  | ended_early ↦ none
  | ended_ok _ ↦ elim (escaped_string_iter_char s2) [
    | ended_early ↦ none
    | ended_ok _ ↦ some true
    | char _ _ ↦ some false
  ]
  | char c r1 ↦ elim (escaped_string_iter_char s2) [
    | ended_early ↦ none
    | ended_ok _ ↦ some false
    | char d r2 ↦ elim (c == d) [ true ↦ equal_loop f r1 r2 | false ↦ some false ]
  ]
]

unfoldable pub equal_escaped_string : List ℕ → List ℕ → Option Bool
unfolding equal_loop escaped_string_iter_char
equal_escaped_string s1 s2 = equal_loop (suc (length s1)) s1 s2
