-- ===== src/Compiler/Strings.antt =====
-- The strings of `m4_compile`: `."` and `s"`.
use mcp_forth.Prelude.{
  ℕ, zero, suc, ◌+◌, Bool, false, Option, none, some, List, [], ◌∷◌, ◌++◌, ◌==◌, if◌then◌else◌,
  length, codes,
}
use mathlib.Core.Option
use mcp_forth.Fragment.{Opcode}
use mcp_forth.Source.Names.{find_nstring}
use mcp_forth.Source.Escape.{next_escaped_string, equal_escaped_string}
use mcp_forth.Compiler.State.{
  Result, ok, ◌>>=◌, defined, or_error, DataString, Compiler, sequence_helper, early_end_of_source,
}

-- `find_nstring_escaped`, from index `i` on.
unfoldable pub find_escaped_loop : List DataString → List ℕ → ℕ → ℕ → Result (Option ℕ)
find_escaped_loop [] match match_len i = ok none
find_escaped_loop (s ∷ nstrings) match match_len i =
    let again = find_escaped_loop nstrings match match_len (i + 1) in
    if s.len == match_len
    then (do same ← defined (equal_escaped_string s.str match); if same then ok (some i) else again)
    else again

-- The offset of the string with index `data_i`: each takes its length and a zero byte. `none` is a read
-- past the end of the array.
unfoldable pub data_offset : ℕ → List DataString → Option ℕ
data_offset zero nstrings = some 0
data_offset (suc data_i) [] = none
data_offset (suc data_i) (s ∷ nstrings) =
    Option.map (λ offset. (s.len + 1) + offset) (data_offset data_i nstrings)

-- The index of a string among the data, where it is added if it is new.
unfoldable pub data_index : DataString → Compiler → Result (ℕ × Compiler)
unfolding find_escaped_loop
data_index s c = do
  found ← find_escaped_loop c.data_nstrings s.str s.len 0
  elim found [
    | some i ↦ ok (i, c)
    | none ↦ ok (length c.data_nstrings, record c { data_nstrings = c.data_nstrings ++ s ∷ [] })
  ]

-- The index of a name among the runtime words, where it is added if it is new.
unfoldable pub runtime_index : List ℕ → Compiler → ℕ × Compiler
runtime_index word c = elim (find_nstring c.runtime_word_nstrings word false) [
  | some i ↦ (i, c)
  | none ↦ (
    length c.runtime_word_nstrings,
    record c { runtime_word_nstrings = c.runtime_word_nstrings ++ word ∷ [] },
  )
]

-- `is_dot_quote` appends a call of the runtime word `type`.
unfoldable pub string_handler : Bool → Compiler → Result Compiler
unfolding data_index data_offset runtime_index
string_handler is_dot_quote c = do
  (word_len, rest) ← or_error (next_escaped_string c.cur) early_end_of_source
  (data_i, c₁) ← data_index (record { str = c.cur; len = word_len }) (record c { cur = rest })
  offset ← defined (data_offset data_i c₁.data_nstrings)
  let c₂ = sequence_helper Opcode.push_data_address offset c₁
  let c₃ = sequence_helper Opcode.push_literal word_len c₂
  let (type_i, c₄) = runtime_index (codes "type") c₃
  if is_dot_quote then ok (sequence_helper Opcode.runtime_word type_i c₄) else ok c₃
