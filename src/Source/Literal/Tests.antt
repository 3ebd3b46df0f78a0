-- ===== src/Source/Literal/Tests.antt =====
-- The number literals of compile.c: runs, and the theorems at concrete literals.
use mcp_forth.Prelude.{◌≡◌, refl, none, some, arith, IsWord, codes}
use mcp_forth.Source.Literal.{parse_literal}
use mcp_forth.Source.Literal.Value.{parse_literal-IsWord}
use mcp_forth.Source.Literal.Standard.{meaning, parse_literal_value}
use mcp_forth.Source.Literal.RoundTrip.{show_int, parse_literal-show_int}

parse_hex_text : parse_literal (codes "0xff") ≡ some 255
unfolding parse_literal
parse_hex_text = refl

parse_negative_text : parse_literal (codes "-2") ≡ some 4294967294
unfolding parse_literal
parse_negative_text = refl

parse_large_text : parse_literal (codes "4294967296") ≡ none
unfolding parse_literal
parse_large_text = refl

parse_literal_value_example : parse_literal (codes "-2147483648") ≡ meaning (codes "-2147483648")
parse_literal_value_example = parse_literal_value (codes "-2147483648")

parse_literal-IsWord_example : IsWord 4294967294
parse_literal-IsWord_example = parse_literal-IsWord (codes "-2") 4294967294 parse_negative_text

parse_literal-show_int_example : parse_literal (show_int 4294967294) ≡ some 4294967294
parse_literal-show_int_example = parse_literal-show_int 4294967294 (omega arith)
