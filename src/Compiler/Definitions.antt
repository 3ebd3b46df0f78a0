-- ===== src/Compiler/Definitions.antt =====
-- The words of `m4_compile` that define and name words: `: ; exit ( recurse variable constant ' c'`.
use mcp_forth.Prelude.{
  ℕ, zero, suc, ◌+◌, ◌*◌, ◌/◌, ◌%◌, min, Bool, true, false, not, ◌&&◌, ◌||◌, Option, none, some,
  List, [], ◌∷◌, ◌++◌, ltb, leb, ◌==◌, if◌then◌else◌, length, get_elem?, set, codes,
}
use mcp_forth.Fragment.{Opcode, defined_word_location, Backend}
use mcp_forth.Source.Names.{find_nstring}
use mcp_forth.Source.Scanner.{next_word}
use mcp_forth.Compiler.State.{
  Result, ok, undefined, ◌>>=◌, ◌>>◌, rassert, defined, or_error, ControlFlow, if_cf, do_cf,
  Compiler, sequence_helper, last_of, is_word, param_loops, set_param_flag, update_nested_call,
}
use mcp_forth.Compiler.State.{
  not_allowed_inside_word, early_end_of_source, word_redefined, word_used_before_defined,
  unexpected_semicolon, not_allowed_outside_word, variable_or_constant_redefined,
  unterminated_control_flow, tick_operator_could_not_find_defined_word,
  invalid_defined_word_parenthesis_for_c_callback,
}

abbrev pub is_none {ℓ} : {A : Type ℓ} → Option A → Bool
is_none none = true
is_none (some _) = false

abbrev pub is_empty {ℓ} : {A : Type ℓ} → List A → Bool
is_empty [] = true
is_empty (_ ∷ _) = false

-- `RASSERT(next_word(&ss), EARLY_END_OF_SOURCE_ERROR)`: the word, and the scanner behind it.
unfoldable pub next_name : Compiler → Result (List ℕ × Compiler)
next_name c = do
  (word, rest) ← or_error (next_word c.cur) early_end_of_source
  ok (word, record c { cur = rest })

-- The three checks that a name is new.
unfoldable pub check_new_name : List ℕ → Compiler → Result (Unit {0})
check_new_name word c = do
  rassert (is_none (find_nstring c.defined_word_nstrings word false)) word_redefined
  rassert (is_none (find_nstring c.runtime_word_nstrings word false)) word_used_before_defined
  rassert (is_none (find_nstring c.variable_nstrings word false)) variable_or_constant_redefined

unfoldable pub colon : Compiler → Result Compiler
unfolding next_name check_new_name
colon c = do
  rassert (not c.defining_word) not_allowed_inside_word
  (word, c₁) ← next_name c
  check_new_name word c₁
  rassert (is_empty c₁.control_flow_stack) unterminated_control_flow
  let c₂ = record c₁ {
    defining_word = true;
    defined_word_nstrings = c₁.defined_word_nstrings ++ word ∷ [];
  }
  let c₃ = sequence_helper defined_word_location 0 c₂
  ok (record c₃ {
    defined_word_fragments = c₃.defined_word_fragments ++ length c₂.all_fragments ∷ [];
  })

unfoldable pub semicolon : Backend → Compiler → Result Compiler
semicolon backend c = do
  rassert c.defining_word unexpected_semicolon
  rassert (is_empty c.control_flow_stack) unterminated_control_flow
  d ← defined (last_of c.defined_word_fragments)
  c' ← update_nested_call backend d (sequence_helper Opcode.exit_word d c)
  ok (record c' { defining_word = false })

abbrev pub is_do : ControlFlow → Bool
is_do cf = elim cf.type [ if_cf ↦ false | do_cf ↦ true | _ ↦ false ]

-- The loop over the control flow stack that stops at the first DO.
unfoldable pub has_do : List ControlFlow → Bool
has_do [] = false
has_do (cf ∷ cfs) = is_do cf || has_do cfs

unfoldable pub exit_handler : Backend → Compiler → Result Compiler
unfolding has_do
exit_handler backend c = do
  rassert c.defining_word not_allowed_outside_word
  d ← defined (last_of c.defined_word_fragments)
  let c₁ = sequence_helper Opcode.exit_word d c
  c₂ ← if has_do c.control_flow_stack then set_param_flag d param_loops c₁ else ok c₁
  update_nested_call backend d c₂

-- `ss.word[ss.word_len - 1] == ')'`
unfoldable pub ends_with_paren : List ℕ → Bool
ends_with_paren [] = false
ends_with_paren (x ∷ []) = x == b')'
ends_with_paren (x ∷ y ∷ ys) = ends_with_paren (y ∷ ys)

-- The signature's loop: parameters, return values, and whether `--` has come. The closing parenthesis
-- alone is not counted. Each round takes a byte, so more rounds than bytes are not needed.
unfoldable pub signature_loop : ℕ → Compiler → ℕ → ℕ → Bool → Result (ℕ × ℕ × Compiler)
unfolding ends_with_paren
signature_loop zero c param_count return_count divider_found = undefined
signature_loop (suc fuel) c param_count return_count divider_found = do
  (word, c') ← next_name c
  let divider = is_word (codes "--") word
  let counted = not divider && (ltb 1 (length word) || not (is_word (codes ")") word))
  let params = if counted && not divider_found then param_count + 1 else param_count
  let returns = if counted && divider_found then return_count + 1 else return_count
  elim (ends_with_paren word) [
    | true ↦ ok (params, returns, c')
    | false ↦ signature_loop fuel c' params returns (divider || divider_found)
  ]

unfoldable pub comment_loop : ℕ → Compiler → Result Compiler
unfolding ends_with_paren
comment_loop zero c = undefined
comment_loop (suc fuel) c = do
  (word, c') ← next_name c
  elim (ends_with_paren word) [ true ↦ ok c' | false ↦ comment_loop fuel c' ]

-- `1 << 2`, two bits for the return values, five for the parameters, each at most what fits.
unfoldable pub pack_signature : ℕ → ℕ → ℕ
pack_signature param_count return_count = (4 + min return_count 3) * 32 + min param_count 31

abbrev pub is_location : Opcode → Bool
is_location defined_word_location = true
is_location _ = false

-- Whether a word is being defined and the last thing compiled is its start.
unfoldable pub at_definition : Compiler → Result Bool
at_definition c =
    if c.defining_word
    then (do
      s ← defined (last_of c.sequence)
      f ← defined (get_elem? c.all_fragments s)
      ok (is_location f.op))
    else ok false

-- `fragment->ext_param = ext_param;` for the fragment of the last defined word.
unfoldable pub set_signature : ℕ → Compiler → Result Compiler
set_signature ext_param c = do
  d ← defined (last_of c.defined_word_fragments)
  f ← defined (get_elem? c.all_fragments d)
  ok (record c { all_fragments = set c.all_fragments d (record f { ext_param = ext_param }) })

unfoldable pub paren : Compiler → Result Compiler
unfolding signature_loop comment_loop pack_signature at_definition set_signature
paren c = do
  signature ← at_definition c
  let counted = do
    (param_count, return_count, c') ← signature_loop (suc (length c.cur)) c 0 0 false
    set_signature (pack_signature param_count return_count) c'
  let skipped = comment_loop (suc (length c.cur)) c
  if signature then counted else skipped

unfoldable pub recurse_handler : Compiler → Result Compiler
recurse_handler c = do
  rassert c.defining_word not_allowed_outside_word
  d ← defined (last_of c.defined_word_fragments)
  ok (sequence_helper Opcode.defined_word d c)

-- `variable` and `constant`, by the first letter.
unfoldable pub declare : Bool → Compiler → Result Compiler
unfolding next_name check_new_name
declare is_constant c = do
  rassert (not c.defining_word) not_allowed_inside_word
  (word, c₁) ← next_name c
  check_new_name word c₁
  let variable_i = length c₁.variable_nstrings
  ok (
      sequence_helper (if is_constant then Opcode.declare_constant else Opcode.declare_variable)
        variable_i (record c₁ { variable_nstrings = c₁.variable_nstrings ++ word ∷ [] }))

unfoldable pub tick : Compiler → Result Compiler
unfolding next_name
tick c = do
  (word, c₁) ← next_name c
  i ←
      or_error (find_nstring c₁.defined_word_nstrings word false)
        tick_operator_could_not_find_defined_word
  d ← defined (get_elem? c₁.defined_word_fragments i)
  ok (sequence_helper Opcode.push_offset_address d c₁)

-- The index of a word among those that need callbacks.
unfoldable pub find_callback : List ℕ → ℕ → ℕ → Option ℕ
find_callback [] word_i i = none
find_callback (w ∷ ws) word_i i =
    let again = find_callback ws word_i (i + 1) in if word_i == w then some i else again

-- `ext_param && n_parameters >= 1 && n_parameters <= 8 && n_return_vals <= 1`
unfoldable pub valid_signature : ℕ → Bool
valid_signature ext_param =
    not (ext_param == 0)
    && leb 1 (ext_param % 32)
    && leb (ext_param % 32) 8
    && leb (ext_param / 32 % 4) 1

-- A word that has no callback yet gets the next one.
unfoldable pub callback_of : ℕ → Compiler → Result (ℕ × Compiler)
unfolding valid_signature
callback_of word_i c = elim (find_callback c.defined_words_that_need_callbacks word_i 0) [
  | some i ↦ ok (i, c)
  | none ↦ do
    d ← defined (get_elem? c.defined_word_fragments word_i)
    f ← defined (get_elem? c.all_fragments d)
    rassert (valid_signature f.ext_param) invalid_defined_word_parenthesis_for_c_callback
    ok (
      length c.defined_words_that_need_callbacks,
      record c {
        defined_words_that_need_callbacks = c.defined_words_that_need_callbacks ++ word_i ∷ [];
      },
    )
]

unfoldable pub c_tick : Compiler → Result Compiler
unfolding next_name callback_of find_callback
c_tick c = do
  (word, c₁) ← next_name c
  word_i ←
      or_error (find_nstring c₁.defined_word_nstrings word false)
        tick_operator_could_not_find_defined_word
  (callback_i, c₂) ← callback_of word_i c₁
  ok (sequence_helper Opcode.push_callback callback_i c₂)
