-- ===== src/Source/Escape/RoundTrip.antt =====
-- Every text can be written as an escaped string of compile.c, which reads it back.
use mcp_forth.Prelude.{
  ℕ, suc, ◌≡◌, refl, ap, ◌∙◌, false, ◌||◌, some, List, [], ◌∷◌, ◌++◌, append_assoc, arith, ◌==◌,
  if◌then◌else◌, length,
}
use mcp_forth.Source.Escape.{
  char, ended_ok, escape_switch, escaped_string_iter_char, dump_escaped_string, next_escaped_string,
}
use mcp_forth.Source.Escape.Dump.{
  Iterates, close, step, next_escaped_string-Iterates, dump_loop-Iterates,
}

-- How a programmer writes one byte, and a text, between quotes.
unfoldable pub escape_byte : ℕ → List ℕ
escape_byte c =
    if c == 34 || c == 92
    then 92 ∷ c ∷ []
    else if c == 10
    then 92 ∷ b'n' ∷ []
    else if c == 13
    then 92 ∷ b'r' ∷ []
    else if c == 9
    then 92 ∷ b't' ∷ []
    else c ∷ []

unfoldable pub escape : List ℕ → List ℕ
unfolding escape_byte
escape [] = []
escape (c ∷ cs) = escape_byte c ++ escape cs

pub iter_char-plain :
    (c : ℕ) (ds : List ℕ)
    → (c == 34) ≡ false
    → (c == 92) ≡ false
    → escaped_string_iter_char (c ∷ ds) ≡ char c ds
unfolding escaped_string_iter_char
iter_char-plain c [] q b = rw (q, b)
iter_char-plain c (d ∷ ds) q b = rw (q, b)

iter_char-escape_byte :
    (c : ℕ) (ds : List ℕ) → escaped_string_iter_char (escape_byte c ++ ds) ≡ char c ds
unfolding escape_byte escaped_string_iter_char escape_switch
iter_char-escape_byte c ds = ground (arith, iter_char-plain c ds)

pub iter_char-quote : (rest : List ℕ) → escaped_string_iter_char (34 ∷ rest) ≡ ended_ok rest
unfolding escaped_string_iter_char
iter_char-quote [] = refl
iter_char-quote (d ∷ rest) = refl

Iterates-escape : (text rest : List ℕ) → Iterates (escape text ++ 34 ∷ rest) text rest
unfolding escape
Iterates-escape [] rest = close (iter_char-quote rest)
Iterates-escape (c ∷ cs) rest =
    step
      (ap escaped_string_iter_char (append_assoc (escape_byte c) (escape cs) (34 ∷ rest))
        ∙ iter_char-escape_byte c (escape cs ++ 34 ∷ rest))
      (Iterates-escape cs rest)

-- Every text, escaped and closed by a quote, is scanned with its length and dumped as it was; the
-- scanner goes on behind the quote.
pub dump-escape :
    (text rest : List ℕ)
    → (next_escaped_string (escape text ++ 34 ∷ rest) ≡ some (length text, rest))
      × (dump_escaped_string (escape text ++ 34 ∷ rest) ≡ some text)
unfolding dump_escaped_string
dump-escape text rest = (
  (next_escaped_string-Iterates _ (length text) rest).1 (text, Iterates-escape text rest, refl),
  dump_loop-Iterates (suc (length (escape text ++ 34 ∷ rest))) (Iterates-escape text rest)
      (omega arith),
)
