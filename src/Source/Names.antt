-- ===== src/Source/Names.antt =====
-- How compile.c compares and finds names.
pub mod Find
mod Tests
use mcp_forth.Prelude.{
  ℕ, zero, suc, ◌+◌, Bool, true, false, ◌&&◌, Option, none, some, List, [], ◌∷◌, leb, ◌==◌,
  if◌then◌else◌, length, codes,
}

-- `if(c >= 'A' && c <= 'Z') c += 32;` As a signed char a byte above 127 is below 'A'; here it is above 'Z'.
abbrev pub to_lower : ℕ → ℕ
to_lower c = if leb b'A' c && leb c b'Z' then c + 32 else c

-- A read past either text is false: `find_nstring` compares texts of one length only.
unfoldable pub equal_string : List ℕ → List ℕ → ℕ → Bool → Bool
equal_string s1 s2 zero case_sensitive = true
equal_string [] s2 (suc n) case_sensitive = false
equal_string (c1 ∷ s1) [] (suc n) case_sensitive = false
equal_string (c1 ∷ s1) (c2 ∷ s2) (suc n) case_sensitive =
    let rest = equal_string s1 s2 n case_sensitive in
    (if case_sensitive then c1 == c2 else to_lower c1 == to_lower c2) && rest

-- The loop from index `i` on; `none` is the source's -1.
unfoldable pub find_loop : List (List ℕ) → List ℕ → Bool → ℕ → Option ℕ
unfolding equal_string
find_loop [] match case_sensitive i = none
find_loop (s ∷ nstrings) match case_sensitive i =
    let again = find_loop nstrings match case_sensitive (suc i) in
    if length s == length match && equal_string s match (length match) case_sensitive
    then some i
    else again

unfoldable pub find_nstring : List (List ℕ) → List ℕ → Bool → Option ℕ
unfolding find_loop
find_nstring nstrings match case_sensitive = find_loop nstrings match case_sensitive 0

-- The table of the builtin words; the index of a name is the number that the engines switch on.
abbrev pub builtins : List (List ℕ)
builtins =
    codes "dup"
    ∷ codes "-"
    ∷ codes ">"
    ∷ codes "+"
    ∷ codes "="
    ∷ codes "over"
    ∷ codes "mod"
    ∷ codes "drop"
    ∷ codes "swap"
    ∷ codes "*"
    ∷ codes "allot"
    ∷ codes "1+"
    ∷ codes "invert"
    ∷ codes "0="
    ∷ codes "i"
    ∷ codes "j"
    ∷ codes "1-"
    ∷ codes "rot"
    ∷ codes "pick"
    ∷ codes "xor"
    ∷ codes "lshift"
    ∷ codes "rshift"
    ∷ codes "<"
    ∷ codes ">="
    ∷ codes "<="
    ∷ codes "or"
    ∷ codes "and"
    ∷ codes "depth"
    ∷ codes "c!"
    ∷ codes "c@"
    ∷ codes "0<"
    ∷ codes "!"
    ∷ codes "@"
    ∷ codes "c,"
    ∷ codes "here"
    ∷ codes "max"
    ∷ codes "2*"
    ∷ codes "2drop"
    ∷ codes "tuck"
    ∷ codes "cell+"
    ∷ codes "align"
    ∷ codes ","
    ∷ codes "?dup"
    ∷ codes "<>"
    ∷ codes ">r"
    ∷ codes "r>"
    ∷ codes "2>r"
    ∷ codes "2r>"
    ∷ codes "2/"
    ∷ codes "2dup"
    ∷ codes "0<>"
    ∷ codes "0>"
    ∷ codes "w@"
    ∷ codes "w!"
    ∷ codes "+!"
    ∷ codes "/"
    ∷ codes "cells"
    ∷ codes "nip"
    ∷ codes "min"
    ∷ codes "abs"
    ∷ codes "r@"
    ∷ codes "w,"
    ∷ codes "negate"
    ∷ []
