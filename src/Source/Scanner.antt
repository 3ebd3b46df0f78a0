-- ===== src/Source/Scanner.antt =====
-- The scanner of compile.c: `next_word` and `next_line`.
pub mod Words
mod Tests
use mcp_forth.Prelude.{ℕ, Bool, ◌||◌, Option, none, some, List, [], ◌∷◌, ◌==◌, if◌then◌else◌}
use mathlib.Core.Option

-- `c == ' ' || c == '\t' || c == '\n' || c == '\r'`
abbrev pub is_space : ℕ → Bool
is_space c = c == 32 || c == 9 || c == 10 || c == 13

-- The `do` loop: `none` is the end of the source, else the first byte that is no space, and what follows.
unfoldable pub skip_space : List ℕ → Option (ℕ × List ℕ)
skip_space [] = none
skip_space (c ∷ cs) = let again = skip_space cs in if is_space c then again else some (c, cs)

-- The `while` loop: the rest of the word, and what follows the space that ends it.
unfoldable pub take_word : List ℕ → List ℕ × List ℕ
take_word [] = ([], [])
take_word (c ∷ cs) =
    let (word, rest) = take_word cs in if is_space c then ([], cs) else (c ∷ word, rest)

-- The word, and the source behind the space that ends it.
unfoldable pub next_word : List ℕ → Option (List ℕ × List ℕ)
unfolding skip_space take_word
next_word src =
    Option.map (λ s. let (word, rest) = take_word s.1 in (s.0 ∷ word, rest)) (skip_space src)

-- What follows the next newline; the end of the source where there is none.
unfoldable pub next_line : List ℕ → List ℕ
next_line [] = []
next_line (c ∷ cs) = let again = next_line cs in if c == 10 then cs else again
