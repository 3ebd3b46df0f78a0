-- ===== src/Header/Parts.antt =====
-- What the reader's loops make of what the compiler writes.
use mcp_forth.Prelude.{
  ℕ, suc, ◌≤◌, ◌≡◌, refl, sym, ap, ◌∙◌, subst, ◌≢◌, true, false, some, List, [], ◌∷◌, ◌++◌, map,
  append_assoc, arith, leb, ◌==◌, length, get_elem?, length-append, drop, All, some-eq_some, IsWord,
  >>=-eq-some, All-get_elem?,
}
use mcp_forth.Num.{num_decode, num_encode}
use mcp_forth.Num.RoundTrip.{num_decode-num_encode}
use mcp_forth.Fragment.{Fragment}
use mcp_forth.Source.Names.{to_lower}
use mcp_forth.Compiler.State.{Compiler}
use mcp_forth.Compiler.Binary.{fragment_of_word, dump_names, params_info, dump_callbacks}
use mcp_forth.Header.{ok, c_string, CbArray, find_word, load_words, skip, load_callbacks}

pub c_string-append :
    (text rest : List ℕ) → All (λ b. b ≢ 0) text → c_string (text ++ (0 ∷ rest)) ≡ some (text, rest)
unfolding c_string
c_string-append [] rest h = refl
c_string-append (b ∷ text) rest (h, hs) =
    let e : (b == 0) ≡ false = ground arith in rw (e, c_string-append text rest hs) refl

-- Each word, in lower case, is in the arrays, with its pair.
abbrev pub FoundAll : {A : Type 0} → List (CbArray A) → List (List ℕ) → List A → Type 0
FoundAll arrays [] [] = Unit
FoundAll arrays [] (cb ∷ cbs) = ⊥
FoundAll arrays (word ∷ words) [] = ⊥
FoundAll arrays (word ∷ words) (cb ∷ cbs) =
    (find_word arrays (map to_lower word) ≡ some cb) × FoundAll arrays words cbs

pub load_words-dump_names :
    {A : Type 0} (arrays : List (CbArray A)) (words : List (List ℕ)) (cbs : List A) (rest : List ℕ)
    → All (λ word. All (λ b. b ≢ 0) (map to_lower word)) words
    → FoundAll arrays words cbs
    → load_words arrays (length words) (dump_names words ++ rest) ≡ ok (cbs, rest)
unfolding load_words dump_names
load_words-dump_names arrays [] [] rest h f = refl
load_words-dump_names arrays [] (cb ∷ cbs) rest h f = absurd f
load_words-dump_names arrays (word ∷ words) [] rest h f = absurd f
load_words-dump_names arrays (word ∷ words) (cb ∷ cbs) rest (h, hs) (f, fs) =
    let start : (map to_lower word ++ (0 ∷ dump_names words)) ++ rest
        ≡ map to_lower word ++ (0 ∷ (dump_names words ++ rest)) =
      append_assoc (map to_lower word) (0 ∷ dump_names words) rest in
    rw
      (
        start,
        c_string-append (map to_lower word) (dump_names words ++ rest) h,
        f,
        load_words-dump_names arrays words cbs rest hs fs,
      )
      refl

-- The signature byte and the position of each callback's word.
abbrev pub Describes : Compiler → List ℕ → List ℕ → List ℕ → Type 0
Describes c [] [] [] = Unit
Describes c (i ∷ callbacks) (info ∷ infos) (offset ∷ offsets) =
    ((f : Fragment) × (fragment_of_word c i ≡ some f)
      × (info ≡ params_info f.ext_param)
      × (offset ≡ f.position))
    × Describes c callbacks infos offsets
Describes c _ _ _ = ⊥

pub load_callbacks-dump_callbacks :
    (c : Compiler) (callbacks bytes rest : List ℕ)
    → All (λ (f : Fragment). IsWord f.position) c.all_fragments
    → dump_callbacks c callbacks ≡ some bytes
    → (infos : List ℕ) × (offsets : List ℕ) × (load_callbacks (length callbacks) (bytes ++ rest)
        ≡ ok (infos, offsets, rest))
      × Describes c callbacks infos offsets
unfolding load_callbacks dump_callbacks fragment_of_word
load_callbacks-dump_callbacks c [] bytes rest words e = rw (← some-eq_some e) ([], [], refl, tt)
load_callbacks-dump_callbacks c (i ∷ callbacks) bytes rest words e =
    let (f, found, e₁) = >>=-eq-some (fragment_of_word c i) _ e in
    let (position, written, e₂) = >>=-eq-some (num_encode f.position) _ e₁ in
    let (others, written', e₃) = >>=-eq-some (dump_callbacks c callbacks) _ e₂ in
    let (d, _, there) = >>=-eq-some (get_elem? c.defined_word_fragments i) _ found in
    let w = All-get_elem? (λ (f : Fragment). IsWord f.position) c.all_fragments d words there in
    let (infos, offsets, run, described) =
      load_callbacks-dump_callbacks c callbacks others rest words written' in
    let (bytes', encoded, _, decoded) = num_decode-num_encode f.position (others ++ rest) w in
    let same : bytes' ≡ position = some-eq_some (sym encoded ∙ written) in
    let decoded' : num_decode (position ++ (others ++ rest)) ≡ some (f.position, others ++ rest) =
      rw (← same) decoded in
    let whole : load_callbacks (suc (length callbacks))
          (params_info f.ext_param ∷ ((position ++ others) ++ rest))
        ≡ ok (params_info f.ext_param ∷ infos, f.position ∷ offsets, rest) =
      rw (append_assoc position others rest, decoded', run) refl in
    (
      params_info f.ext_param ∷ infos,
      f.position ∷ offsets,
      subst
          (λ b.
            load_callbacks (suc (length callbacks)) (b ++ rest)
            ≡ ok (params_info f.ext_param ∷ infos, f.position ∷ offsets, rest))
          (some-eq_some e₃) whole,
      ((f, found, refl, refl), described),
    )

pub skip-append :
    (n : ℕ) (bytes rest : List ℕ) → n ≡ length bytes → skip n (bytes ++ rest) ≡ some rest
unfolding skip
skip-append n bytes rest e =
    let fits : leb n (length (bytes ++ rest)) ≡ true =
      enough n (length (bytes ++ rest)) (omega (arith, length-append bytes rest)) in
    rw fits (ap some (rw e (drop-append bytes)))
  where
    enough : (a b : ℕ) → a ≤ b → leb a b ≡ true
    enough a b h = ground arith

    drop-append : (xs : List ℕ) → drop (length xs) (xs ++ rest) ≡ rest
    drop-append [] = refl
    drop-append (x ∷ xs) = drop-append xs
