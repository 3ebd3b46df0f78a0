-- ===== src/Source/Escape/Tests.antt =====
-- The escaped strings of compile.c: runs, and the theorems at concrete strings.
use mcp_forth.Prelude.{ℕ, ◌≡◌, refl, ◌↔◌, Bool, true, some, List, [], ◌∷◌, ◌++◌, length}
use mcp_forth.Source.Escape.{next_escaped_string, dump_escaped_string, equal_escaped_string}
use mcp_forth.Source.Escape.Dump.{dump-next_escaped_string, equal_escaped_string_iff}
use mcp_forth.Source.Escape.Meaning.{Unescapes, next_escaped_string_iff}
use mcp_forth.Source.Escape.RoundTrip.{escape, dump-escape}

-- `ab` and a closing quote, before a space; the first has a backslash and a line's end between them.
abbrev ab_broken : List ℕ
ab_broken = 97 ∷ 92 ∷ 10 ∷ 98 ∷ 34 ∷ 32 ∷ []

abbrev ab_plain : List ℕ
ab_plain = 97 ∷ 98 ∷ 34 ∷ 32 ∷ []

scan_ab_broken : next_escaped_string ab_broken ≡ some (2, 32 ∷ [])
unfolding next_escaped_string
scan_ab_broken = refl

scan_ab_plain : next_escaped_string ab_plain ≡ some (2, 32 ∷ [])
unfolding next_escaped_string
scan_ab_plain = refl

next_escaped_string_iff_example :
    (next_escaped_string ab_broken ≡ some (2, 32 ∷ []))
    ↔ ((out : List ℕ) × Unescapes ab_broken out (32 ∷ []) × (length out ≡ 2))
next_escaped_string_iff_example = next_escaped_string_iff ab_broken 2 (32 ∷ [])

dump-next_escaped_string_example :
    (out : List ℕ) × (dump_escaped_string ab_broken ≡ some out) × (length out ≡ 2)
dump-next_escaped_string_example = dump-next_escaped_string ab_broken 2 (32 ∷ []) scan_ab_broken

dump-escape_example :
    (next_escaped_string (escape (34 ∷ 92 ∷ []) ++ 34 ∷ 32 ∷ []) ≡ some (2, 32 ∷ []))
    × (dump_escaped_string (escape (34 ∷ 92 ∷ []) ++ 34 ∷ 32 ∷ []) ≡ some (34 ∷ 92 ∷ []))
dump-escape_example = dump-escape (34 ∷ 92 ∷ []) (32 ∷ [])

equal_escaped_string_iff_example :
    ((b : Bool) × (equal_escaped_string ab_broken ab_plain ≡ some b))
    × ((equal_escaped_string ab_broken ab_plain ≡ some true)
        ↔ (dump_escaped_string ab_broken ≡ dump_escaped_string ab_plain))
equal_escaped_string_iff_example =
    equal_escaped_string_iff ab_broken ab_plain (32 ∷ []) (32 ∷ []) 2 2 scan_ab_broken scan_ab_plain
