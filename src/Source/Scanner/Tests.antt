-- ===== src/Source/Scanner/Tests.antt =====
-- The scanner of compile.c: runs, and the theorems at a concrete source.
use mcp_forth.Prelude.{ℕ, ◌≡◌, refl, none, some, List, [], ◌∷◌, ◌++◌, arith, All}
use mcp_forth.Source.Scanner.{next_word}
use mcp_forth.Source.Scanner.Words.{
  Splits, IsSpace, next_word-Splits, next_word-append, next_word-none,
}

abbrev star_text : List ℕ
star_text = 42 ∷ []

-- A source, and its first word.
abbrev source_text : List ℕ
source_text = 32 ∷ 10 ∷ 100 ∷ 117 ∷ 112 ∷ 32 ∷ 42 ∷ []

abbrev dup_text : List ℕ
dup_text = 100 ∷ 117 ∷ 112 ∷ []

next_word_source : next_word source_text ≡ some (dup_text, 42 ∷ [])
unfolding next_word
next_word_source = refl

next_word_spaces : next_word (32 ∷ 10 ∷ []) ≡ none
unfolding next_word
next_word_spaces = refl

next_word-Splits_example : Splits source_text dup_text (42 ∷ [])
next_word-Splits_example = next_word-Splits source_text dup_text (42 ∷ []) next_word_source

next_word-append_example :
    next_word ((32 ∷ 10 ∷ []) ++ (dup_text ++ 32 ∷ 42 ∷ [])) ≡ some (dup_text, 42 ∷ [])
next_word-append_example =
    next_word-append (32 ∷ 10 ∷ []) dup_text (42 ∷ []) 32 (refl, (refl, tt))
      (refl, (refl, (refl, tt))) (λ h. ground arith) refl

next_word-none_example : All IsSpace (32 ∷ 10 ∷ [])
next_word-none_example = next_word-none (32 ∷ 10 ∷ []) next_word_spaces
