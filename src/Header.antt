-- ===== src/Header.antt =====
-- The reader of a binary's header, `m4_unpack_binary_header` of mcp_forth.c.
pub mod Run
pub mod Parts
pub mod Pieces
pub mod Memory
pub mod RoundTrip
pub mod Errors
mod Tests
use mcp_forth.Prelude.{
  ℕ, zero, suc, ◌+◌, ◌-◌, ◌*◌, ◌/◌, ◌%◌, ◌^◌, ◌≤◌, ◌<◌, min, bit_and, bit_or, bit_xor, ◌≡◌, refl,
  sym, ap, ap₂, ◌∙◌, subst, ◌≢◌, ◌↔◌, ◌⊎◌, inl, inr, Bool, true, false, not, ◌&&◌, ◌||◌, Option,
  none, some, List, [], ◌∷◌, ◌++◌, map, append-nil, append_assoc, arith, ltb, leb, ◌==◌,
  if◌then◌else◌, ltb→lt, lt→ltb, le→ltb_false, ltb_false→le, leb→le, ==_iff, tests, Bool-cases,
  Option-cases, holds_below, holds_below-at, agree_below, length, get_elem?, set, length-append,
  length-set, get_elem?-set_self, get_elem?-set_ne, get_or, take, drop, replicate, length-map, All,
  All-append, some-eq_some, IsByte, bit_and-7f, bit_and_80, bit_and_40, bit_and-3f, bit_or_80,
  bit_or_40, word_mod, IsWord, minus_one, is_negative, invert, add_word, sub_word, mul_word, bias,
  slt, sle, codes, if_intro, bytes_eq, bytes_eq_iff, All-set, All-get_elem?, get_elem?-lt,
  get_elem?-some_lt, drop-cons, add_word-sub_word, sub_word-add_word, length-drop, length-take,
  get_elem?-none_le, take-append-drop, get_elem?-append, get_elem?-append_length, All-mono,
}
use mcp_forth.Num.{num_decode}

-- `m4_bytes_remaining` and `m4_align`; pointers are 32-bit numbers.
abbrev pub bytes_remaining : ℕ → ℕ → ℕ → ℕ
bytes_remaining base p len = sub_word len (sub_word p base)

abbrev pub m4_align : ℕ → ℕ
m4_align p = (p + 3) % word_mod / 4 * 4

abbrev pub runtime_word_missing_error : ℕ
runtime_word_missing_error = 1

abbrev pub out_of_memory_error : ℕ
out_of_memory_error = 5

abbrev pub too_many_callbacks_error : ℕ
too_many_callbacks_error = 6

-- What the reader returns: its results; an error code; the missing word's code, with the word that
-- `*missing_runtime_word_dst` then points to; or a read past the end of the binary.
pub data Result {ℓ} (A : Type ℓ) : Type ℓ where
  ok : A → Result A
  error : ℕ → Result A
  missing : List ℕ → Result A
  undefined : Result A

infixl 5 ◌>>=◌
abbrev pub ◌>>=◌ {ℓ κ} : {A : Type ℓ} {B : Type κ} → Result A → (A → Result B) → Result B
ok a >>= f = f a
error code >>= f = error code
missing name >>= f = missing name
undefined >>= f = undefined

infixl 5 ◌>>◌
abbrev pub ◌>>◌ {ℓ κ} : {A : Type ℓ} {B : Type κ} → Result A → Result B → Result B
m >> n = m >>= (λ _. n)

abbrev pub read {ℓ} : {A : Type ℓ} → Option A → Result A
read none = undefined
read (some a) = ok a

-- `if(test) return code;`
abbrev pub fail_if : Bool → ℕ → Result (Unit {0})
fail_if true code = error code
fail_if false code = ok tt

-- A loop from 0 below a count that may be negative.
abbrev pub rounds : ℕ → ℕ
rounds n = if is_negative n then 0 else n

-- A string that ends with a zero byte, and what is behind it.
unfoldable pub c_string : List ℕ → Option (List ℕ × List ℕ)
c_string [] = none
c_string (b ∷ bytes) =
    let behind = c_string bytes in
    if b == 0
    then some ([], bytes)
    else elim behind [ none ↦ none | some text ↦ some (b ∷ text.0, text.1) ]

-- `m4_runtime_cb_array_t[]` up to the entry without a name.
abbrev pub CbArray : Type 0 → Type 0
CbArray A = List (List ℕ × A)

-- The inner loop: the first entry of an array with the name.
unfoldable pub find_in_array : {A : Type 0} → CbArray A → List ℕ → Option A
find_in_array [] name = none
find_in_array ((entry, cb) ∷ array) name =
    if bytes_eq entry name then some cb else find_in_array array name

-- `while(1)`: one array after the other.
unfoldable pub find_word : {A : Type 0} → List (CbArray A) → List ℕ → Option A
unfolding find_in_array
find_word [] name = none
find_word (array ∷ arrays) name = elim (find_in_array array name) [
  | some cb ↦ some cb
  | none ↦ find_word arrays name
]

-- The loop over the runtime words: the pairs found, and the binary behind the names.
unfoldable pub load_words : {A : Type 0} → List (CbArray A) → ℕ → List ℕ → Result (List A × List ℕ)
unfolding find_word c_string
load_words cb_arrays zero bin_p = ok ([], bin_p)
load_words cb_arrays (suc n) bin_p = do
  (name, behind) ← read (c_string bin_p)
  cb ← elim (find_word cb_arrays name) [ some cb ↦ ok cb | none ↦ missing name ]
  (cbs, end) ← load_words cb_arrays n behind
  ok (cb ∷ cbs, end)

-- `!cb_arrays || !(*cb_arrays)`: no list, or one without an array.
unfoldable pub no_arrays : {A : Type 0} → Option (List (CbArray A)) → Bool
no_arrays none = true
no_arrays (some []) = true
no_arrays (some (array ∷ arrays)) = false

-- `if(n_runtime_words && (!cb_arrays || !(*cb_arrays)))`: the first word is missing.
unfoldable pub check_arrays : Bool → List ℕ → Result (Unit {0})
unfolding c_string
check_arrays true bin_p = read (c_string bin_p) >>= λ word. missing word.0
check_arrays false bin_p = ok tt

abbrev pub arrays_of : {A : Type 0} → Option (List (CbArray A)) → List (CbArray A)
arrays_of none = []
arrays_of (some arrays) = arrays

-- `bin_p += n`
unfoldable pub skip : ℕ → List ℕ → Option (List ℕ)
skip n bin_p = if leb n (length bin_p) then some (drop n bin_p) else none

-- The loop over the callbacks: `callback_info[i]` and `callback_word_offsets[i]`.
unfoldable pub load_callbacks : ℕ → List ℕ → Result (List ℕ × List ℕ × List ℕ)
load_callbacks zero bin_p = ok ([], [], bin_p)
load_callbacks (suc n) [] = undefined
load_callbacks (suc n) (info ∷ bin_p) = do
  (offset, behind) ← read (num_decode bin_p)
  (infos, offsets, end) ← load_callbacks n behind
  ok (info ∷ infos, offset ∷ offsets, end)

-- The results, each where the source stores it; a pointer is an address, and an array that is filled has
-- its elements beside it.
pub record Header (A : Type 0) : Type 0 where
  pub callback_count : ℕ
  pub variables : ℕ
  pub runtime_cbs_at : ℕ
  pub runtime_cbs : List A
  pub data_start : ℕ
  pub callback_info_at : ℕ
  pub callback_info : List ℕ
  pub callback_words_locations_at : ℕ
  pub callback_words_locations : List ℕ
  pub literals : ℕ
  pub program_start : ℕ
  pub memory_used_end : ℕ

module _ (bin_base : ℕ) (bin : List ℕ) where
  -- The address of a pointer into the binary, given as what is left from there.
  abbrev pub address : List ℕ → ℕ
  address bin_p = add_word bin_base (length bin - length bin_p)

  -- `bin` at `bin_base`; the other parameters are the source's.
  unfoldable pub unpack_binary_header :
      {A : Type 0} → ℕ → ℕ → Option (List (CbArray A)) → ℕ → Result (Header A)
  unfolding load_words load_callbacks check_arrays no_arrays skip c_string
  unpack_binary_header memory_start memory_len cb_arrays max_callbacks = do
    let variables = m4_align memory_start
    (n_variables, p₁) ← read (num_decode bin)
    let runtime_cbs_at = add_word variables (mul_word n_variables 4)
    fail_if (is_negative (bytes_remaining memory_start runtime_cbs_at memory_len))
        out_of_memory_error
    (n_runtime_words, p₂) ← read (num_decode p₁)
    check_arrays (not (n_runtime_words == 0) && no_arrays cb_arrays) p₂
    fail_if
        (slt (bytes_remaining memory_start runtime_cbs_at memory_len) (mul_word n_runtime_words 4))
        out_of_memory_error
    (cbs, p₃) ← load_words (arrays_of cb_arrays) (rounds n_runtime_words) p₂
    let callback_info_at = add_word runtime_cbs_at (4 * length cbs)
    (bin_data_len, p₄) ← read (num_decode p₃)
    p₅ ← read (skip bin_data_len p₄)
    (n_callbacks, p₆) ← read (num_decode p₅)
    fail_if (slt max_callbacks n_callbacks) too_many_callbacks_error
    let offsets_at = m4_align (add_word callback_info_at n_callbacks)
    let used_end = add_word offsets_at (mul_word n_callbacks 4)
    fail_if (is_negative (bytes_remaining memory_start used_end memory_len)) out_of_memory_error
    (infos, offsets, p₇) ← load_callbacks (rounds n_callbacks) p₆
    (literal_count, p₈) ← read (num_decode p₇)
    p₉ ← read (skip (sub_word (m4_align (address p₈)) (address p₈)) p₈)
    program ← read (skip (4 * literal_count) p₉)
    ok (record {
      callback_count = n_callbacks;
      variables = variables;
      runtime_cbs_at = runtime_cbs_at;
      runtime_cbs = cbs;
      data_start = address p₄;
      callback_info_at = callback_info_at;
      callback_info = infos;
      callback_words_locations_at = offsets_at;
      callback_words_locations = map (λ offset. add_word (address program) offset) offsets;
      literals = address p₉;
      program_start = address program;
      memory_used_end = used_end;
    })
