-- ===== src/Header/RoundTrip.antt =====
-- The reader of the header gets back what `m4_compile` has written.
use mcp_forth.Prelude.{
  length-replicate, ℕ, ◌+◌, ◌-◌, ◌*◌, ◌/◌, ◌%◌, ◌≤◌, ◌<◌, ◌≡◌, refl, sym, ap, ◌∙◌, subst, ◌≢◌, some,
  List, ◌++◌, map, append_assoc, arith, length, length-append, replicate, All, add_word,
}
use mcp_forth.Num.{num_decode}
use mcp_forth.Source.Names.{to_lower}
use mcp_forth.Compiler.State.{Compiler}
use mcp_forth.Compiler.Binary.{
  align_len, strings_len, dump_names, dump_strings, dump_literals, pad, dump_header,
}
use mcp_forth.Header.{ok, CbArray, Header, unpack_binary_header}
use mcp_forth.Header.Run.{header, unpack-run}
use mcp_forth.Header.Memory.{used_end-le, words_fit, pairs_fit, end_fits, small-slt}
use mcp_forth.Header.Pieces.{
  chained, behind_four, padded, pad-count, rounds-small, decoded, address-plain, FoundAll-arrays,
  Pieces, dump_header-Pieces, length-dump_strings,
}
use mcp_forth.Header.Parts.{
  FoundAll, load_words-dump_names, Describes, load_callbacks-dump_callbacks, skip-append,
}
use mcp_forth.Compiler.Binary.Length.{HasCounts, length-dump_literals}

-- What is asked of the reader's surroundings: the binary is aligned and lies below 2 ^ 32; the memory lies
-- below 2 ^ 32, is smaller than 2 ^ 31, and has room for what the binary asks for.
pub record HasRoom (c : Compiler) (bin_base : ℕ) (bin : List ℕ) (memory_start memory_len : ℕ)
    : Type 0 where
  pub aligned : bin_base % 4 ≡ 0
  pub binary_below : bin_base + length bin < 4294967292
  pub memory_below : memory_start + memory_len < 4294967292
  pub memory_small : memory_len < 2147483648
  pub room :
      6
        + 4 * length c.variable_nstrings
        + 4 * length c.runtime_word_nstrings
        + 5 * length c.defined_words_that_need_callbacks
      ≤ memory_len

-- What the reader is to give for a compiled program.
pub record IsHeaderOf {A : Type 0} (c : Compiler) (literals : List ℕ) (bin_base header_len : ℕ)
    (bin : List ℕ) (memory_end : ℕ) (cbs : List A) (h : Header A) : Type 0 where
  pub runtime_cbs : h.runtime_cbs ≡ cbs
  pub callback_count : h.callback_count ≡ length c.defined_words_that_need_callbacks
  pub program_start : h.program_start ≡ bin_base + header_len
  pub literals_at : h.literals + 4 * length literals ≡ h.program_start
  pub described :
      (offsets : List ℕ) × Describes c c.defined_words_that_need_callbacks h.callback_info offsets
      × (h.callback_words_locations ≡ map (λ offset. add_word h.program_start offset) offsets)
  pub data_written :
      (strings : List ℕ) × (before : List ℕ) × (behind : List ℕ) × (dump_strings c.data_nstrings
        ≡ some strings)
      × (bin ≡ before ++ (strings ++ behind))
      × (h.data_start ≡ bin_base + length before)
  pub memory_used : h.memory_used_end ≤ memory_end

module _ {A : Type 0} (c : Compiler) (literals header_bytes code : List ℕ)
    (arrays : List (CbArray A)) (cbs : List A)
    (bin_base memory_start memory_len max_callbacks : ℕ) where
  abbrev binary : List ℕ
  binary = header_bytes ++ code

  from_parts :
      Pieces c literals header_bytes
      → HasCounts c literals
      → All (λ word. All (λ b. b ≢ 0) (map to_lower word)) c.runtime_word_nstrings
      → FoundAll arrays c.runtime_word_nstrings cbs
      → HasRoom c bin_base binary memory_start memory_len
      → length c.defined_words_that_need_callbacks ≤ max_callbacks
      → max_callbacks < 2147483648
      → (h : Header A) × (unpack_binary_header bin_base binary memory_start memory_len
            (some arrays)
            max_callbacks
          ≡ ok h)
        × IsHeaderOf c literals bin_base
            (length header_bytes)
            binary
            (memory_start + memory_len)
            cbs
            h
  unfolding pad align_len
  from_parts k counts nonzero found room few max =
      let b₃ = dump_names c.runtime_word_nstrings in
      let front = k.b₁ ++ (k.b₂ ++ (b₃ ++ (k.b₄ ++ (k.b₅ ++ (k.b₆ ++ (k.b₇ ++ k.b₈)))))) in
      let zeros = replicate ((length front + 3) / 4 * 4 - length front) 0 in
      let lits = dump_literals literals in
      let t₁₀ = lits ++ code in
      let t₉ = zeros ++ t₁₀ in
      let t₈ = k.b₈ ++ t₉ in
      let t₇ = k.b₇ ++ t₈ in
      let t₆ = k.b₆ ++ t₇ in
      let t₅ = k.b₅ ++ t₆ in
      let t₄ = k.b₄ ++ t₅ in
      let t₃ = b₃ ++ t₄ in
      let t₂ = k.b₂ ++ t₃ in
      let nv = length c.variable_nstrings in
      let nw = length c.runtime_word_nstrings in
      let nc = length c.defined_words_that_need_callbacks in
      let split : binary ≡ front ++ t₉ = padded front zeros lits code header_bytes k.whole in
      let in_a_row : binary ≡ k.b₁ ++ t₂ =
        split ∙ chained k.b₁ k.b₂ b₃ k.b₄ k.b₅ k.b₆ k.b₇ k.b₈ t₉ in
      let (some_array, same_count) = FoundAll-arrays arrays c.runtime_word_nstrings cbs found in
      let below = room.memory_below in
      let small = room.memory_small in
      let fits = room.room in
      let (infos, offsets, loaded, described) =
        load_callbacks-dump_callbacks c c.defined_words_that_need_callbacks k.b₇ t₈ counts.positions
          k.callbacks in
      let at₉ = address-plain bin_base binary front t₉ room.binary_below split in
      let n_front : bin_base + length front < 4294967292 =
        omega (arith, room.binary_below, ap length split, length-append front t₉) in
      let n_zeros : length zeros ≡ (length front + 3) / 4 * 4 - length front =
        length-replicate ((length front + 3) / 4 * 4 - length front) 0 in
      let unpadded : binary ≡ (front ++ zeros) ++ t₁₀ =
        split ∙ sym (append_assoc front zeros t₁₀) in
      let at₁₀ = address-plain bin_base binary (front ++ zeros) t₁₀ room.binary_below unpadded in
      let at_code = address-plain bin_base binary header_bytes code room.binary_below refl in
      let header_len : length header_bytes ≡ length (front ++ zeros) + length lits =
        ap length k.whole ∙ length-append (front ++ zeros) lits in
      let from_data : binary ≡ (k.b₁ ++ (k.b₂ ++ (b₃ ++ k.b₄))) ++ t₅ =
        in_a_row ∙ behind_four k.b₁ k.b₂ b₃ k.b₄ k.b₅ k.b₆ k.b₇ k.b₈ t₅ in
      (
        header bin_base binary memory_start memory_len (some arrays) max_callbacks nv nw
            (strings_len c.data_nstrings) nc (length literals) cbs infos offsets t₂ t₃ t₄ t₅ t₆ t₇
            t₈ t₉ t₁₀ code,
        unpack-run bin_base binary memory_start memory_len (some arrays) max_callbacks nv nw
            (strings_len c.data_nstrings) nc (length literals) cbs infos offsets t₂ t₃ t₄ t₅ t₆ t₇
            t₈ t₉ t₁₀ code
            (subst (λ b. num_decode b ≡ some (nv, t₂)) (sym in_a_row)
              (decoded nv k.b₁ t₂ counts.variables k.variables))
            (words_fit memory_start memory_len nv nw nc below small fits)
            (decoded nw k.b₂ t₃ counts.runtime k.runtime) some_array
            (pairs_fit memory_start memory_len nv nw nc below small fits)
            (rw (rounds-small nw (omega arith))
              (load_words-dump_names arrays c.runtime_word_nstrings cbs t₄ nonzero found))
            (decoded _ k.b₄ t₅ counts.data_len k.data_len)
            (skip-append _ k.b₅ t₆ (sym (length-dump_strings c.data_nstrings k.b₅ k.strings)))
            (decoded nc k.b₆ t₇ counts.callback_count k.callback_count)
            (small-slt max_callbacks nc max few)
            (rw same_count (end_fits memory_start memory_len nv nw nc below small fits))
            (rw (rounds-small nc (omega arith)) loaded)
            (decoded _ k.b₈ t₉ counts.literal_count k.literal_count)
            (skip-append _ zeros t₁₀
              (rw at₉ (pad-count bin_base (length front) room.aligned n_front) ∙ sym n_zeros))
            (skip-append _ lits code (sym (length-dump_literals literals))),
        record {
          runtime_cbs = refl;
          callback_count = refl;
          program_start = at_code;
          literals_at = omega (arith, at₁₀, at_code, header_len, length-dump_literals literals);
          described = (offsets, described, refl);
          data_written = (
            k.b₅,
            k.b₁ ++ (k.b₂ ++ (b₃ ++ k.b₄)),
            t₆,
            k.strings,
            from_data,
            address-plain bin_base binary (k.b₁ ++ (k.b₂ ++ (b₃ ++ k.b₄))) t₅ room.binary_below
                from_data,
          );
          memory_used =
              rw same_count (used_end-le memory_start memory_len nv nw nc below small fits);
        },
      )

-- For every compiled program with counts and positions that fit an `int`, whose runtime words have no zero
-- byte and are in the arrays, with at most as many callbacks as are free, an aligned binary below 2 ^ 32
-- and enough memory: the reader succeeds on the header that `m4_compile` writes and the code behind it. It
-- gives the pair of each runtime word in order, the signature byte and the address in the code of each
-- callback, the address of the literals, of the strings' bytes, and of the code, which is where the header
-- ends; and what it uses of the memory ends within it.
pub unpack-dump_header :
    {A : Type 0} (c : Compiler) (literals header_bytes code : List ℕ) (arrays : List (CbArray A))
    → (cbs : List A) (bin_base memory_start memory_len max_callbacks : ℕ)
    → dump_header c literals ≡ some header_bytes
    → HasCounts c literals
    → All (λ word. All (λ b. b ≢ 0) (map to_lower word)) c.runtime_word_nstrings
    → FoundAll arrays c.runtime_word_nstrings cbs
    → HasRoom c bin_base (header_bytes ++ code) memory_start memory_len
    → length c.defined_words_that_need_callbacks ≤ max_callbacks
    → max_callbacks < 2147483648
    → (h : Header A) × (unpack_binary_header bin_base
          (header_bytes ++ code)
          memory_start
          memory_len
          (some arrays)
          max_callbacks
        ≡ ok h)
      × IsHeaderOf c literals bin_base
          (length header_bytes)
          (header_bytes ++ code)
          (memory_start + memory_len)
          cbs
          h
unpack-dump_header c literals header_bytes code arrays cbs bin_base memory_start memory_len
      max_callbacks e counts nonzero found room few max =
    from_parts c literals header_bytes code arrays cbs bin_base memory_start memory_len
      max_callbacks (dump_header-Pieces c literals header_bytes e) counts nonzero found room few max
