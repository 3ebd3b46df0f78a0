-- ===== src/Header/Run.antt =====
-- A successful run of the reader, from what its steps read and test.
use mcp_forth.Prelude.{
  ℕ, ◌*◌, ◌≡◌, refl, false, not, ◌&&◌, Option, some, List, map, ◌==◌, length, is_negative, add_word,
  sub_word, mul_word, slt,
}
use mcp_forth.Num.{num_decode}
use mcp_forth.Header.{
  bytes_remaining, m4_align, ok, rounds, CbArray, load_words, no_arrays, check_arrays, arrays_of,
  skip, load_callbacks, Header, address, unpack_binary_header,
}

-- Where the reader puts the pairs of the runtime words, the callbacks, and what is free behind them.
abbrev pub words_at : ℕ → ℕ → ℕ
words_at memory_start n_variables = add_word (m4_align memory_start) (mul_word n_variables 4)

abbrev pub infos_at : ℕ → ℕ → ℕ → ℕ
infos_at memory_start n_variables n_words =
    add_word (words_at memory_start n_variables) (4 * n_words)

abbrev pub offsets_at : ℕ → ℕ → ℕ → ℕ → ℕ
offsets_at memory_start n_variables n_words n_callbacks =
    m4_align (add_word (infos_at memory_start n_variables n_words) n_callbacks)

abbrev pub used_end : ℕ → ℕ → ℕ → ℕ → ℕ
used_end memory_start n_variables n_words n_callbacks =
    add_word (offsets_at memory_start n_variables n_words n_callbacks) (mul_word n_callbacks 4)

module _ {A : Type 0} (bin_base : ℕ) (bin : List ℕ) (memory_start memory_len : ℕ)
    (cb_arrays : Option (List (CbArray A)))
    (max_callbacks n_variables n_words data_len n_callbacks n_literals : ℕ) (cbs : List A)
    (infos offsets p₁ p₂ p₃ p₄ p₅ p₆ p₇ p₈ p₉ program : List ℕ) where
  abbrev pub header : Header A
  header = record {
    callback_count = n_callbacks;
    variables = m4_align memory_start;
    runtime_cbs_at = words_at memory_start n_variables;
    runtime_cbs = cbs;
    data_start = address bin_base bin p₄;
    callback_info_at = infos_at memory_start n_variables (length cbs);
    callback_info = infos;
    callback_words_locations_at = offsets_at memory_start n_variables (length cbs) n_callbacks;
    callback_words_locations =
        map (λ offset. add_word (address bin_base bin program) offset) offsets;
    literals = address bin_base bin p₉;
    program_start = address bin_base bin program;
    memory_used_end = used_end memory_start n_variables (length cbs) n_callbacks;
  }

  pub unpack-run :
      num_decode bin ≡ some (n_variables, p₁)
      → is_negative (bytes_remaining memory_start (words_at memory_start n_variables) memory_len)
        ≡ false
      → num_decode p₁ ≡ some (n_words, p₂)
      → (not (n_words == 0) && no_arrays cb_arrays) ≡ false
      → slt
          (bytes_remaining memory_start (words_at memory_start n_variables) memory_len)
          (mul_word n_words 4)
        ≡ false
      → load_words (arrays_of cb_arrays) (rounds n_words) p₂ ≡ ok (cbs, p₃)
      → num_decode p₃ ≡ some (data_len, p₄)
      → skip data_len p₄ ≡ some p₅
      → num_decode p₅ ≡ some (n_callbacks, p₆)
      → slt max_callbacks n_callbacks ≡ false
      → is_negative (
          bytes_remaining memory_start
            (used_end memory_start n_variables (length cbs) n_callbacks)
            memory_len)
        ≡ false
      → load_callbacks (rounds n_callbacks) p₆ ≡ ok (infos, offsets, p₇)
      → num_decode p₇ ≡ some (n_literals, p₈)
      → skip (sub_word (m4_align (address bin_base bin p₈)) (address bin_base bin p₈)) p₈ ≡ some p₉
      → skip (4 * n_literals) p₉ ≡ some program
      → unpack_binary_header bin_base bin memory_start memory_len cb_arrays max_callbacks
        ≡ ok header
  unfolding unpack_binary_header check_arrays
  unpack-run e₁ t₁ e₂ t₂ t₃ e₃ e₄ e₅ e₆ t₄ t₅ e₇ e₈ e₉ e₁₀ =
      rw (e₁, t₁, e₂, t₂, t₃, e₃, e₄, e₅, e₆, t₄, t₅, e₇, e₈, e₉, e₁₀) refl
