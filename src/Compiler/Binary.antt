-- ===== src/Compiler/Binary.antt =====
-- The binary in front of the code, as `m4_compile` writes it: counts, names, strings, callbacks, literals.
pub mod Length
use mcp_forth.Prelude.{
  ℕ, zero, suc, ◌+◌, ◌-◌, ◌*◌, ◌/◌, ◌%◌, ◌^◌, ◌≤◌, ◌<◌, min, bit_and, bit_or, bit_xor, ◌≡◌, refl,
  sym, ap, ap₂, ◌∙◌, subst, ◌≢◌, ◌↔◌, ◌⊎◌, inl, inr, Bool, true, false, not, ◌&&◌, ◌||◌, Option,
  none, some, List, [], ◌∷◌, ◌++◌, map, append-nil, append_assoc, arith, ltb, leb, ◌==◌,
  if◌then◌else◌, ltb→lt, lt→ltb, le→ltb_false, ltb_false→le, leb→le, ==_iff, tests, Bool-cases,
  Option-cases, holds_below, holds_below-at, agree_below, length, get_elem?, set, length-append,
  length-set, get_elem?-set_self, get_elem?-set_ne, get_or, take, drop, replicate, length-map, All,
  All-append, some-eq_some, IsByte, bit_and-7f, bit_and_80, bit_and_40, bit_and-3f, bit_or_80,
  bit_or_40, word_mod, IsWord, minus_one, is_negative, invert, add_word, sub_word, mul_word, bias,
  slt, sle, codes, if_intro, bytes_eq, bytes_eq_iff, ◌>>=◌, >>=-eq-some, bind_assoc, All-set,
  All-get_elem?, get_elem?-lt, get_elem?-some_lt, drop-cons, add_word-sub_word, sub_word-add_word,
  length-drop, length-take, get_elem?-none_le, take-append-drop, get_elem?-append,
  get_elem?-append_length, All-mono,
}
use mcp_forth.Fragment.{Fragment}
use mcp_forth.Num.{num_encode, num_encoded_size_from_int}
use mcp_forth.Source.Names.{to_lower}
use mcp_forth.Source.Escape.{dump_escaped_string}
use mcp_forth.Compiler.State.{DataString, Compiler}

-- `M4_ALIGN(x)`
unfoldable pub align_len : ℕ → ℕ
align_len x = (x + 3) / 4 * 4

-- `runtime_words_len`: each name and a zero byte.
unfoldable pub names_len : List (List ℕ) → ℕ
names_len [] = 0
names_len (word ∷ words) = (length word + 1) + names_len words

-- `data_len`
unfoldable pub strings_len : List DataString → ℕ
strings_len [] = 0
strings_len (s ∷ strings) = (s.len + 1) + strings_len strings

-- `all_fragments[defined_word_fragments[i]]`
unfoldable pub fragment_of_word : Compiler → ℕ → Option Fragment
fragment_of_word c i = do d ← get_elem? c.defined_word_fragments i; get_elem? c.all_fragments d

-- `callback_info_len`
unfoldable pub callbacks_len : Compiler → List ℕ → Option ℕ
unfolding fragment_of_word
callbacks_len c [] = some 0
callbacks_len c (i ∷ callbacks) = do
  f ← fragment_of_word c i
  rest ← callbacks_len c callbacks
  some ((1 + num_encoded_size_from_int f.position) + rest)

-- `bin_len` where it is stored as the code's offset.
unfoldable pub code_offset : Compiler → List ℕ → Option ℕ
unfolding names_len strings_len callbacks_len align_len
code_offset c literals = do
  callback_info_len ← callbacks_len c c.defined_words_that_need_callbacks
  let runtime = c.runtime_word_nstrings
  let data_len = strings_len c.data_nstrings
  let bin_len =
      num_encoded_size_from_int (length c.variable_nstrings)
      + (num_encoded_size_from_int (length runtime)
          + (names_len runtime
              + (num_encoded_size_from_int data_len
                  + (data_len
                      + (num_encoded_size_from_int (length c.defined_words_that_need_callbacks)
                          + (callback_info_len + num_encoded_size_from_int (length literals)))))))
  some (align_len bin_len + 4 * length literals)

-- The names in lower case, each with a zero byte.
unfoldable pub dump_names : List (List ℕ) → List ℕ
dump_names [] = []
dump_names (word ∷ words) = map to_lower word ++ 0 ∷ dump_names words

-- The strings. The writer goes on behind the counted length: a text of another length would leave a gap
-- or be overwritten.
unfoldable pub dump_strings : List DataString → Option (List ℕ)
dump_strings [] = some []
dump_strings (s ∷ strings) = do
  text ← dump_escaped_string s.str
  rest ← dump_strings strings
  if length text == s.len then some (text ++ 0 ∷ rest) else none

-- `params_info`
unfoldable pub params_info : ℕ → ℕ
params_info ext_param = ext_param % 32 * 2 + (if bit_and ext_param 0x60 == 0 then 0 else 1)

unfoldable pub dump_callbacks : Compiler → List ℕ → Option (List ℕ)
unfolding fragment_of_word params_info
dump_callbacks c [] = some []
dump_callbacks c (i ∷ callbacks) = do
  f ← fragment_of_word c i
  position ← num_encode f.position
  rest ← dump_callbacks c callbacks
  some (params_info f.ext_param ∷ (position ++ rest))

-- `memcpy(bin_p, literals, 4 * arr_len);` of little-endian numbers.
unfoldable pub dump_literals : List ℕ → List ℕ
dump_literals [] = []
dump_literals (x ∷ literals) =
    x % 256 ∷ x / 256 % 256 ∷ x / 65536 % 256 ∷ x / 16777216 % 256 ∷ dump_literals literals

-- `while((uintptr_t)bin_p % 4) *(bin_p++) = 0;` from an aligned start.
unfoldable pub pad : List ℕ → List ℕ
unfolding align_len
pad bytes = bytes ++ replicate (align_len (length bytes) - length bytes) 0

-- All that is written in front of the code.
unfoldable pub dump_header : Compiler → List ℕ → Option (List ℕ)
unfolding dump_names dump_strings dump_callbacks dump_literals pad
dump_header c literals = do
  variables ← num_encode (length c.variable_nstrings)
  runtime ← num_encode (length c.runtime_word_nstrings)
  data_len ← num_encode (strings_len c.data_nstrings)
  strings ← dump_strings c.data_nstrings
  callback_count ← num_encode (length c.defined_words_that_need_callbacks)
  callbacks ← dump_callbacks c c.defined_words_that_need_callbacks
  literal_count ← num_encode (length literals)
  some (
      pad (
        variables
        ++ (runtime
            ++ (dump_names c.runtime_word_nstrings
                ++ (data_len ++ (strings ++ (callback_count ++ (callbacks ++ literal_count)))))))
      ++ dump_literals literals)
