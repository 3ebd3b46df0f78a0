-- ===== src/Compiler/Binary/Length.antt =====
-- The header of the binary has the length that `m4_compile` allocates for it.
use mcp_forth.Prelude.{
  ℕ, ◌+◌, ◌-◌, ◌*◌, ◌/◌, ◌≡◌, refl, true, some, List, [], ◌∷◌, ◌++◌, map, arith, ◌==◌, ==_iff,
  length, length-append, replicate, length-map, All, IsWord, All-get_elem?, get_elem?-lt,
  length-replicate,
}
use mcp_forth.Fragment.{Fragment}
use mcp_forth.Num.{num_encode, num_encoded_size_from_int}
use mcp_forth.Num.RoundTrip.{num_decode-num_encode}
use mcp_forth.Source.Names.{to_lower}
use mcp_forth.Source.Escape.Dump.{dump-next_escaped_string}
use mcp_forth.Compiler.State.{DataString, Compiler}
use mcp_forth.Compiler.Sound.{Below, IsLocation, IsScanned, IsSound}
use mcp_forth.Compiler.Binary.{
  align_len, names_len, strings_len, fragment_of_word, callbacks_len, code_offset, dump_names,
  dump_strings, params_info, dump_callbacks, dump_literals, pad, dump_header,
}

-- A number is written in as many bytes as were counted for it.
written :
    (n : ℕ)
    → IsWord n
    → (bytes : List ℕ) × (num_encode n ≡ some bytes) × (length bytes ≡ num_encoded_size_from_int n)
written n h = let (bytes, e, l, _) = num_decode-num_encode n [] h in (bytes, e, l)

length-dump_names : (words : List (List ℕ)) → length (dump_names words) ≡ names_len words
unfolding dump_names names_len
length-dump_names [] = refl
length-dump_names (word ∷ words) = omega (
  arith,
  length-append (map to_lower word) (0 ∷ dump_names words),
  length-map word to_lower,
  length-dump_names words,
)

pub dump_strings_written :
    (strings : List DataString)
    → All IsScanned strings
    → (bytes : List ℕ) × (dump_strings strings ≡ some bytes) × (length bytes ≡ strings_len strings)
unfolding dump_strings strings_len
dump_strings_written [] h = ([], refl, refl)
dump_strings_written (s ∷ strings) ((rest, e), hs) =
    let (text, et, lt) = dump-next_escaped_string s.str s.len rest e in
    let (bytes, eb, lb) = dump_strings_written strings hs in
    let same : (length text == s.len) ≡ true = (==_iff (length text) s.len).1 lt in
    (
      text ++ 0 ∷ bytes,
      rw (et, eb, same) refl,
      omega (arith, length-append text (0 ∷ bytes), lt, lb),
    )

pub length-dump_literals :
    (literals : List ℕ) → length (dump_literals literals) ≡ 4 * length literals
unfolding dump_literals
length-dump_literals [] = refl
length-dump_literals (x ∷ literals) = omega (arith, length-dump_literals literals)

-- Each callback's word has a fragment, and its position is an `int`.
dump_callbacks_written :
    (c : Compiler) (callbacks : List ℕ)
    → All (IsLocation c.all_fragments) c.defined_word_fragments
    → All (λ (f : Fragment). IsWord f.position) c.all_fragments
    → Below (length c.defined_word_fragments) callbacks
    → (n : ℕ) × (bytes : List ℕ) × (callbacks_len c callbacks ≡ some n)
      × (dump_callbacks c callbacks ≡ some bytes)
      × (length bytes ≡ n)
unfolding dump_callbacks callbacks_len fragment_of_word
dump_callbacks_written c [] located words below = (0, [], refl, refl, refl)
dump_callbacks_written c (i ∷ callbacks) located words (h, hs) =
    let (d, ed) = get_elem?-lt c.defined_word_fragments i h in
    let (f, ef, o) =
      All-get_elem? (IsLocation c.all_fragments) c.defined_word_fragments i located ed in
    let w = All-get_elem? (λ (f : Fragment). IsWord f.position) c.all_fragments d words ef in
    let (position, ep, lp) = written f.position w in
    let (n, bytes, en, eb, l) = dump_callbacks_written c callbacks located words hs in
    (
      (1 + num_encoded_size_from_int f.position) + n,
      params_info f.ext_param ∷ (position ++ bytes),
      rw (ed, ef, en) refl,
      rw (ed, ef, ep, eb) refl,
      omega (arith, length-append position bytes, lp, l),
    )

length-pad : (bytes : List ℕ) → length (pad bytes) ≡ align_len (length bytes)
unfolding pad align_len
length-pad bytes =
    let zeros : ℕ = (length bytes + 3) / 4 * 4 - length bytes in
    let l : length (replicate {A = ℕ} zeros 0) ≡ zeros = length-replicate zeros 0 in
    omega (arith, length-append bytes (replicate {A = ℕ} zeros 0), l)

-- What is asked of the counts that the header holds: each is an `int`.
pub record HasCounts (c : Compiler) (literals : List ℕ) : Type 0 where
  pub variables : IsWord (length c.variable_nstrings)
  pub runtime : IsWord (length c.runtime_word_nstrings)
  pub data_len : IsWord (strings_len c.data_nstrings)
  pub callback_count : IsWord (length c.defined_words_that_need_callbacks)
  pub literal_count : IsWord (length literals)
  pub positions : All (λ (f : Fragment). IsWord f.position) c.all_fragments

-- For every state of the compiler in which its invariant holds, with counts and positions that fit an
-- `int`: the header is written, no assertion fails, and it takes exactly the bytes that were allocated for
-- it, so the code begins where the stored offset says.
pub length-dump_header :
    (limit : ℕ) (c : Compiler) (literals : List ℕ)
    → IsSound 0 limit c
    → HasCounts c literals
    → (bytes : List ℕ) × (dump_header c literals ≡ some bytes)
      × (code_offset c literals ≡ some (length bytes))
unfolding dump_header code_offset
length-dump_header limit c literals s k =
    let (b₁, e₁, l₁) = written _ k.variables in
    let (b₂, e₂, l₂) = written _ k.runtime in
    let (b₄, e₄, l₄) = written _ k.data_len in
    let (b₅, e₅, l₅) = dump_strings_written c.data_nstrings s.scanned in
    let (b₆, e₆, l₆) = written _ k.callback_count in
    let (n, b₇, en, e₇, l₇) =
      dump_callbacks_written c c.defined_words_that_need_callbacks s.located k.positions
        s.needing in
    let (b₈, e₈, l₈) = written _ k.literal_count in
    let b₃ = dump_names c.runtime_word_nstrings in
    let whole = b₁ ++ (b₂ ++ (b₃ ++ (b₄ ++ (b₅ ++ (b₆ ++ (b₇ ++ b₈)))))) in
    let counted : ℕ =
      num_encoded_size_from_int (length c.variable_nstrings)
      + (num_encoded_size_from_int (length c.runtime_word_nstrings)
          + (names_len c.runtime_word_nstrings
              + (num_encoded_size_from_int (strings_len c.data_nstrings)
                  + (strings_len c.data_nstrings
                      + (num_encoded_size_from_int (length c.defined_words_that_need_callbacks)
                          + (n + num_encoded_size_from_int (length literals))))))) in
    let l : length whole ≡ counted = omega (
      arith,
      l₁,
      l₂,
      l₄,
      l₅,
      l₆,
      l₇,
      l₈,
      length-dump_names c.runtime_word_nstrings,
      length-append b₁ (b₂ ++ (b₃ ++ (b₄ ++ (b₅ ++ (b₆ ++ (b₇ ++ b₈)))))),
      length-append b₂ (b₃ ++ (b₄ ++ (b₅ ++ (b₆ ++ (b₇ ++ b₈))))),
      length-append b₃ (b₄ ++ (b₅ ++ (b₆ ++ (b₇ ++ b₈)))),
      length-append b₄ (b₅ ++ (b₆ ++ (b₇ ++ b₈))),
      length-append b₅ (b₆ ++ (b₇ ++ b₈)),
      length-append b₆ (b₇ ++ b₈),
      length-append b₇ b₈,
    ) in
    (
      pad whole ++ dump_literals literals,
      rw (e₁, e₂, e₄, e₅, e₆, e₇, e₈) refl,
      rw
          (
            en,
            length-append (pad whole) (dump_literals literals),
            length-pad whole,
            length-dump_literals literals,
            l,
          )
          refl,
    )
