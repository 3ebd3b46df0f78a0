-- ===== src/Header/Pieces.antt =====
-- The parts of the header that `m4_compile` writes, one by one.
use mcp_forth.Prelude.{
  ℕ, suc, ◌+◌, ◌-◌, ◌*◌, ◌/◌, ◌%◌, ◌<◌, ◌≡◌, refl, sym, ap, ◌∙◌, inl, inr, false, not, ◌&&◌, some,
  List, [], ◌∷◌, ◌++◌, append_assoc, arith, ◌==◌, ==_iff, Bool-cases, length, length-append,
  replicate, some-eq_some, IsWord, sub_word, >>=-eq-some,
}
use mcp_forth.Num.{num_decode, num_encode}
use mcp_forth.Num.RoundTrip.{num_decode-num_encode}
use mcp_forth.Compiler.State.{DataString, Compiler}
use mcp_forth.Compiler.Binary.{
  align_len, strings_len, dump_names, dump_strings, dump_callbacks, dump_literals, pad, dump_header,
}
use mcp_forth.Header.{m4_align, rounds, CbArray, find_word, no_arrays, address}
use mcp_forth.Header.Memory.{small-is_negative}
use mcp_forth.Header.Parts.{FoundAll}
use mcp_forth.Source.Escape.{dump_escaped_string}

-- A number that was encoded is read back.
pub decoded :
    (n : ℕ) (bytes rest : List ℕ)
    → IsWord n
    → num_encode n ≡ some bytes
    → num_decode (bytes ++ rest) ≡ some (n, rest)
decoded n bytes rest h e =
    let (bytes', e', _, d) = num_decode-num_encode n rest h in
    let same : bytes' ≡ bytes = some-eq_some (sym e' ∙ e) in rw (← same) d

-- A pointer into the binary, by what is in front of it.
pub address-plain :
    (bin_base : ℕ) (bin before behind : List ℕ)
    → bin_base + length bin < 4294967292
    → bin ≡ before ++ behind
    → address bin_base bin behind ≡ bin_base + length before
address-plain bin_base bin before behind below e =
    let l : length bin ≡ length before + length behind =
      ap length e ∙ length-append before behind in
    omega (arith, l)

pub FoundAll-arrays :
    {A : Type 0} (arrays : List (CbArray A)) (words : List (List ℕ)) (cbs : List A)
    → FoundAll arrays words cbs
    → ((not (length words == 0) && no_arrays (some arrays)) ≡ false) × (length cbs ≡ length words)
unfolding no_arrays find_word
FoundAll-arrays arrays [] [] f = (refl, refl)
FoundAll-arrays arrays [] (cb ∷ cbs) f = absurd f
FoundAll-arrays arrays (word ∷ words) [] f = absurd f
FoundAll-arrays [] (word ∷ words) (cb ∷ cbs) (f, fs) = cc f
FoundAll-arrays (array ∷ arrays) (word ∷ words) (cb ∷ cbs) (f, fs) =
    (ground arith, ap suc (let (_, l) = FoundAll-arrays (array ∷ arrays) words cbs fs in l))

-- The parts of the header, in their order.
pub record Pieces (c : Compiler) (literals header_bytes : List ℕ) : Type 0 where
  pub b₁ : List ℕ
  pub b₂ : List ℕ
  pub b₄ : List ℕ
  pub b₅ : List ℕ
  pub b₆ : List ℕ
  pub b₇ : List ℕ
  pub b₈ : List ℕ
  pub variables : num_encode (length c.variable_nstrings) ≡ some b₁
  pub runtime : num_encode (length c.runtime_word_nstrings) ≡ some b₂
  pub data_len : num_encode (strings_len c.data_nstrings) ≡ some b₄
  pub strings : dump_strings c.data_nstrings ≡ some b₅
  pub callback_count : num_encode (length c.defined_words_that_need_callbacks) ≡ some b₆
  pub callbacks : dump_callbacks c c.defined_words_that_need_callbacks ≡ some b₇
  pub literal_count : num_encode (length literals) ≡ some b₈
  pub whole :
      header_bytes
      ≡ pad
          (b₁ ++ (b₂ ++ (dump_names c.runtime_word_nstrings ++ (b₄ ++ (b₅ ++ (b₆ ++ (b₇ ++ b₈)))))))
        ++ dump_literals literals

pub dump_header-Pieces :
    (c : Compiler) (literals header_bytes : List ℕ)
    → dump_header c literals ≡ some header_bytes
    → Pieces c literals header_bytes
unfolding dump_header
dump_header-Pieces c literals header_bytes e =
    let (b₁, e₁, r₁) = >>=-eq-some (num_encode (length c.variable_nstrings)) _ e in
    let (b₂, e₂, r₂) = >>=-eq-some (num_encode (length c.runtime_word_nstrings)) _ r₁ in
    let (b₄, e₄, r₄) = >>=-eq-some (num_encode (strings_len c.data_nstrings)) _ r₂ in
    let (b₅, e₅, r₅) = >>=-eq-some (dump_strings c.data_nstrings) _ r₄ in
    let (b₆, e₆, r₆) = >>=-eq-some (num_encode (length c.defined_words_that_need_callbacks)) _ r₅ in
    let (b₇, e₇, r₇) = >>=-eq-some (dump_callbacks c c.defined_words_that_need_callbacks) _ r₆ in
    let (b₈, e₈, r₈) = >>=-eq-some (num_encode (length literals)) _ r₇ in
    record {
      b₁ = b₁;
      b₂ = b₂;
      b₄ = b₄;
      b₅ = b₅;
      b₆ = b₆;
      b₇ = b₇;
      b₈ = b₈;
      variables = e₁;
      runtime = e₂;
      data_len = e₄;
      strings = e₅;
      callback_count = e₆;
      callbacks = e₇;
      literal_count = e₈;
      whole = sym (some-eq_some r₈);
    }

pub length-dump_strings :
    (strings : List DataString) (bytes : List ℕ)
    → dump_strings strings ≡ some bytes
    → length bytes ≡ strings_len strings
unfolding dump_strings strings_len
length-dump_strings [] bytes e = rw (← some-eq_some e) refl
length-dump_strings (s ∷ strings) bytes e =
    let (text, _, e₁) = >>=-eq-some (dump_escaped_string s.str) _ e in
    let (rest, written, e₂) = >>=-eq-some (dump_strings strings) _ e₁ in
    elim (Bool-cases (length text == s.len)) [
      | inl t ↦
          let same : text ++ (0 ∷ rest) ≡ bytes = some-eq_some (rw t at e₂) in
          ap length (sym same)
          ∙ omega (
            arith,
            length-append text (0 ∷ rest),
            (==_iff (length text) s.len).0 t,
            length-dump_strings strings rest written,
          )
      | inr t ↦ cc (rw t at e₂)
    ]

-- Eight parts in a row and what is behind them, grouped in three ways.
module _ (b₁ b₂ b₃ b₄ b₅ b₆ b₇ b₈ t : List ℕ) where
  pub chained :
      (b₁ ++ (b₂ ++ (b₃ ++ (b₄ ++ (b₅ ++ (b₆ ++ (b₇ ++ b₈))))))) ++ t
      ≡ b₁ ++ (b₂ ++ (b₃ ++ (b₄ ++ (b₅ ++ (b₆ ++ (b₇ ++ (b₈ ++ t)))))))
  chained = simp append_assoc

  pub behind_four : b₁ ++ (b₂ ++ (b₃ ++ (b₄ ++ t))) ≡ (b₁ ++ (b₂ ++ (b₃ ++ b₄))) ++ t
  behind_four = simp append_assoc

pub padded :
    (front zeros literals code header_bytes : List ℕ)
    → header_bytes ≡ (front ++ zeros) ++ literals
    → header_bytes ++ code ≡ front ++ (zeros ++ (literals ++ code))
padded front zeros literals code header_bytes e = rw e (simp append_assoc)

-- The bytes that the reader skips to align itself are the zeros that were written.
pub pad-count :
    (bin_base n : ℕ)
    → bin_base % 4 ≡ 0
    → bin_base + n < 4294967292
    → sub_word (m4_align (bin_base + n)) (bin_base + n) ≡ (n + 3) / 4 * 4 - n
pad-count bin_base n aligned below = omega arith

pub rounds-small : (n : ℕ) → n < 2147483648 → rounds n ≡ n
rounds-small n h = rw (small-is_negative n h) refl

-- The binary up to the names of the runtime words.
pub first_parts :
    (c : Compiler) (literals header_bytes code : List ℕ) (k : Pieces c literals header_bytes)
    → (t : List ℕ) × (header_bytes ++ code
        ≡ k.b₁ ++ (k.b₂ ++ (dump_names c.runtime_word_nstrings ++ t)))
unfolding pad
first_parts c literals header_bytes code k =
    let b₃ = dump_names c.runtime_word_nstrings in
    let front = k.b₁ ++ (k.b₂ ++ (b₃ ++ (k.b₄ ++ (k.b₅ ++ (k.b₆ ++ (k.b₇ ++ k.b₈)))))) in
    let zeros = replicate (align_len (length front) - length front) 0 in
    (
      _,
      padded front zeros (dump_literals literals) code header_bytes k.whole
          ∙ chained k.b₁ k.b₂ b₃ k.b₄ k.b₅ k.b₆ k.b₇ k.b₈
              (zeros ++ (dump_literals literals ++ code)),
    )
