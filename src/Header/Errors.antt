-- ===== src/Header/Errors.antt =====
-- The reader of the header where it returns an error.
use mcp_forth.Prelude.{
  ℕ, suc, ◌≡◌, refl, sym, subst, ◌≢◌, ◌⊎◌, inl, inr, false, not, ◌&&◌, none, some, List, [], ◌∷◌,
  ◌++◌, map, append_assoc, arith, ◌==◌, Bool-cases, length, All, is_negative, mul_word, slt,
}
use mcp_forth.Num.{num_decode}
use mcp_forth.Source.Names.{to_lower}
use mcp_forth.Compiler.State.{Compiler}
use mcp_forth.Compiler.Binary.{dump_names, dump_header}
use mcp_forth.Header.{
  bytes_remaining, ok, missing, rounds, CbArray, find_word, load_words, no_arrays, check_arrays,
  unpack_binary_header,
}
use mcp_forth.Header.Run.{words_at}
use mcp_forth.Header.Memory.{words_fit, pairs_fit}
use mcp_forth.Header.Pieces.{first_parts, rounds-small, decoded, dump_header-Pieces}
use mcp_forth.Header.Parts.{c_string-append, FoundAll}
use mcp_forth.Compiler.Binary.Length.{HasCounts}
use mcp_forth.Header.RoundTrip.{HasRoom}

load_words-missing :
    {A : Type 0} (arrays : List (CbArray A)) (before behind : List (List ℕ)) (word : List ℕ)
    → (cbs : List A) (rest : List ℕ)
    → All (λ w. All (λ b. b ≢ 0) (map to_lower w)) (before ++ (word ∷ behind))
    → FoundAll arrays before cbs
    → find_word arrays (map to_lower word) ≡ none
    → load_words arrays
        (length (before ++ (word ∷ behind)))
        (dump_names (before ++ (word ∷ behind)) ++ rest)
      ≡ missing (map to_lower word)
unfolding load_words dump_names
load_words-missing arrays [] behind word cbs rest (h, hs) f none_found =
    let start : (map to_lower word ++ (0 ∷ dump_names behind)) ++ rest
        ≡ map to_lower word ++ (0 ∷ (dump_names behind ++ rest)) =
      append_assoc (map to_lower word) (0 ∷ dump_names behind) rest in
    rw (start, c_string-append (map to_lower word) (dump_names behind ++ rest) h, none_found) refl
load_words-missing arrays (w ∷ before) behind word [] rest h f none_found = absurd f
load_words-missing arrays (w ∷ before) behind word (cb ∷ cbs) rest (h, hs) (f, fs) none_found =
    let words = before ++ (word ∷ behind) in
    let start : (map to_lower w ++ (0 ∷ dump_names words)) ++ rest
        ≡ map to_lower w ++ (0 ∷ (dump_names words ++ rest)) =
      append_assoc (map to_lower w) (0 ∷ dump_names words) rest in
    rw
      (
        start,
        c_string-append (map to_lower w) (dump_names words ++ rest) h,
        f,
        load_words-missing arrays before behind word cbs rest hs fs none_found,
      )
      refl

-- The first steps of the reader, up to a runtime word that is missing.
missing-run :
    {A : Type 0} (bin_base : ℕ) (bin : List ℕ) (memory_start memory_len : ℕ)
    → (arrays : List (CbArray A)) (max_callbacks nv nw : ℕ) (p₁ p₂ name : List ℕ)
    → num_decode bin ≡ some (nv, p₁)
    → is_negative (bytes_remaining memory_start (words_at memory_start nv) memory_len) ≡ false
    → num_decode p₁ ≡ some (nw, p₂)
    → check_arrays (not (nw == 0) && no_arrays (some arrays)) p₂ ≡ ok tt
    → slt (bytes_remaining memory_start (words_at memory_start nv) memory_len) (mul_word nw 4)
      ≡ false
    → load_words arrays (rounds nw) p₂ ≡ missing name
    → unpack_binary_header bin_base bin memory_start memory_len (some arrays) max_callbacks
      ≡ missing name
unfolding unpack_binary_header
missing-run bin_base bin memory_start memory_len arrays max_callbacks nv nw p₁ p₂ name e₁ t₁ e₂ t₂
      t₃ e₃ =
    rw (e₁, t₁, e₂, t₂, t₃, e₃) refl

check-run :
    {A : Type 0} (bin_base : ℕ) (bin : List ℕ) (memory_start memory_len : ℕ)
    → (arrays : List (CbArray A)) (max_callbacks nv nw : ℕ) (p₁ p₂ name : List ℕ)
    → num_decode bin ≡ some (nv, p₁)
    → is_negative (bytes_remaining memory_start (words_at memory_start nv) memory_len) ≡ false
    → num_decode p₁ ≡ some (nw, p₂)
    → check_arrays (not (nw == 0) && no_arrays (some arrays)) p₂ ≡ missing name
    → unpack_binary_header bin_base bin memory_start memory_len (some arrays) max_callbacks
      ≡ missing name
unfolding unpack_binary_header
check-run bin_base bin memory_start memory_len arrays max_callbacks nv nw p₁ p₂ name e₁ t₁ e₂ t₂ =
    rw (e₁, t₁, e₂, t₂) refl

-- With no array at all the first word is missing; with one, the search ends without the word.
missing-cases :
    {A : Type 0} (arrays : List (CbArray A)) (before behind : List (List ℕ)) (word : List ℕ)
    → (cbs : List A) (rest : List ℕ)
    → (let words = before ++ (word ∷ behind) in
        All (λ w. All (λ b. b ≢ 0) (map to_lower w)) words
        → FoundAll arrays before cbs
        → find_word arrays (map to_lower word) ≡ none
        → ((check_arrays
                (not (length words == 0) && no_arrays (some arrays))
                (dump_names words ++ rest)
              ≡ ok tt)
            × (load_words arrays (length words) (dump_names words ++ rest)
                ≡ missing (map to_lower word)))
          ⊎ (check_arrays
                (not (length words == 0) && no_arrays (some arrays))
                (dump_names words ++ rest)
              ≡ missing (map to_lower word)))
unfolding check_arrays no_arrays find_word dump_names
missing-cases [] [] behind word cbs rest (h, hs) f none_found =
    let start : (map to_lower word ++ (0 ∷ dump_names behind)) ++ rest
        ≡ map to_lower word ++ (0 ∷ (dump_names behind ++ rest)) =
      append_assoc (map to_lower word) (0 ∷ dump_names behind) rest in
    let some_words : (suc (length behind) == 0) ≡ false = ground arith in
    inr (
      rw (some_words, start, c_string-append (map to_lower word) (dump_names behind ++ rest) h)
        refl)
missing-cases [] (w ∷ before) behind word [] rest h f none_found = absurd f
missing-cases [] (w ∷ before) behind word (cb ∷ cbs) rest h (f, fs) none_found = cc f
missing-cases (array ∷ arrays) before behind word cbs rest h f none_found =
    let words = before ++ (word ∷ behind) in
    elim (Bool-cases (length words == 0)) [
      | inl t ↦ inl (
        rw t refl,
        load_words-missing (array ∷ arrays) before behind word cbs rest h f none_found,
      )
      | inr t ↦ inl (
        rw t refl,
        load_words-missing (array ∷ arrays) before behind word cbs rest h f none_found,
      )
    ]

-- For every compiled program with enough memory: if the runtime words before one are in the arrays and
-- that one, in lower case, is not, the reader returns M4_RUNTIME_WORD_MISSING_ERROR and
-- `*missing_runtime_word_dst` points to it, whatever comes behind it in the binary.
pub unpack-missing :
    {A : Type 0} (c : Compiler) (literals header_bytes code : List ℕ) (arrays : List (CbArray A))
    → (cbs : List A) (before behind : List (List ℕ)) (word : List ℕ)
    → (bin_base memory_start memory_len max_callbacks : ℕ)
    → dump_header c literals ≡ some header_bytes
    → HasCounts c literals
    → c.runtime_word_nstrings ≡ before ++ (word ∷ behind)
    → All (λ w. All (λ b. b ≢ 0) (map to_lower w)) c.runtime_word_nstrings
    → FoundAll arrays before cbs
    → find_word arrays (map to_lower word) ≡ none
    → HasRoom c bin_base (header_bytes ++ code) memory_start memory_len
    → unpack_binary_header bin_base
        (header_bytes ++ code)
        memory_start
        memory_len
        (some arrays)
        max_callbacks
      ≡ missing (map to_lower word)
unpack-missing c literals header_bytes code arrays cbs before behind word bin_base memory_start
      memory_len max_callbacks e counts split nonzero found none_found room =
    let k = dump_header-Pieces c literals header_bytes e in
    let words = c.runtime_word_nstrings in
    let nv = length c.variable_nstrings in
    let nc = length c.defined_words_that_need_callbacks in
    let (t, in_a_row) = first_parts c literals header_bytes code k in
    let first =
      subst (λ b. num_decode b ≡ some (nv, k.b₂ ++ (dump_names words ++ t))) (sym in_a_row)
        (decoded nv k.b₁ (k.b₂ ++ (dump_names words ++ t)) counts.variables k.variables) in
    let second = decoded (length words) k.b₂ (dump_names words ++ t) counts.runtime k.runtime in
    let fit =
      words_fit memory_start memory_len nv (length words) nc room.memory_below room.memory_small
        room.room in
    let cases =
      subst
        (λ ws.
          ((check_arrays (not (length ws == 0) && no_arrays (some arrays)) (dump_names ws ++ t)
              ≡ ok tt)
            × (load_words arrays (length ws) (dump_names ws ++ t) ≡ missing (map to_lower word)))
          ⊎ (check_arrays (not (length ws == 0) && no_arrays (some arrays)) (dump_names ws ++ t)
              ≡ missing (map to_lower word)))
        (sym split)
        (missing-cases arrays before behind word cbs t
          (subst (λ ws. All (λ w. All (λ b. b ≢ 0) (map to_lower w)) ws) split nonzero) found
          none_found) in
    elim cases [
      | inl (checked, loaded) ↦
          missing-run bin_base (header_bytes ++ code) memory_start memory_len arrays max_callbacks
            nv (length words) _ _ (map to_lower word) first fit second checked
            (pairs_fit memory_start memory_len nv (length words) nc room.memory_below
              room.memory_small room.room)
            (rw (rounds-small (length words) (omega (arith, room.room, room.memory_small))) loaded)
      | inr checked ↦
          check-run bin_base (header_bytes ++ code) memory_start memory_len arrays max_callbacks nv
            (length words) _ _ (map to_lower word) first fit second checked
    ]
