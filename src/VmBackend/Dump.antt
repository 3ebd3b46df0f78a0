-- ===== src/VmBackend/Dump.antt =====
-- What the bytecode backend writes for a fragment, and what the decoder reads there.
use mcp_forth.Prelude.{
  ℕ, ◌+◌, ◌%◌, ◌≤◌, ◌<◌, ◌≡◌, refl, sym, ap, ap₂, ◌∙◌, ◌⊎◌, inl, inr, true, some, List, [], ◌∷◌,
  ◌++◌, append_assoc, arith, leb→le, Bool-cases, length, get_elem?, length-append, some-eq_some,
  IsWord, add_word, sub_word, >>=-eq-some, add_word-sub_word,
}
use mcp_forth.Fragment.{fragment_at, Opcode, op_number, opcode_last, Fragment}
use mcp_forth.Num.{num_encoded_size_from_int, num_encode, num_decode}
use mcp_forth.Num.Size.{length-num_encode_with_size}
use mcp_forth.Num.RoundTrip.{
  num_decode-one_byte, num_decode-num_encode, num_decode-num_encode_with_size,
}
use mcp_forth.VmBackend.{
  Shape, builtin, with_param, with_offset, bare, empty, shape, fits_one_byte, op_size, size_by,
  offset_to, representable_by, dump_param, dump_offset, dump_by, fragment_bin_size,
  fragment_bin_is_representable, fragment_bin_dump,
}

pub op_number-lt : (op : Opcode) → op_number op < 22
unfolding op_number
op_number-lt Opcode.builtin_word = omega arith
op_number-lt op = omega arith

-- What the bytes in front of `rest` decode to, by the fragment's shape.
abbrev pub Reads : Shape → List Fragment → Fragment → List ℕ → List ℕ → Type 0
Reads builtin all f bytes rest =
    ((f.param + 22 ≤ 63) × (num_decode (bytes ++ rest) ≡ some (f.param + 22, rest)))
    ⊎ ((mid : List ℕ) × (num_decode (bytes ++ rest) ≡ some (op_number f.op, mid))
        × (num_decode mid ≡ some (f.param, rest)))
Reads with_param all f bytes rest =
    (mid : List ℕ) × (num_decode (bytes ++ rest) ≡ some (op_number f.op, mid))
    × (num_decode mid ≡ some (f.param, rest))
Reads with_offset all f bytes rest =
    (mid : List ℕ) × (offset : ℕ) × (num_decode (bytes ++ rest) ≡ some (op_number f.op, mid))
    × (num_decode mid ≡ some (offset, rest))
    × ((target : Fragment)
        → get_elem? all f.param ≡ some target
        → IsWord f.position
        → IsWord target.position
        → add_word f.position offset ≡ target.position)
Reads bare all f bytes rest = num_decode (bytes ++ rest) ≡ some (op_number f.op, rest)
Reads empty all f bytes rest = bytes ≡ []

-- What is asked of a fragment: its parameter is an `int`, one that is not negative if it is a builtin's
-- number, and it has been relaxed at most four times.
pub record IsEncodable (f : Fragment) : Type 0 where
  pub param_word : IsWord f.param
  pub param_small : shape f.op ≡ builtin → f.param < 2147483648
  pub relaxed : f.relaxation ≤ 4

op_bytes :
    (op : Opcode) (rest : List ℕ)
    → (bytes : List ℕ) × (num_encode (op_number op) ≡ some bytes)
      × (length bytes ≡ op_size op)
      × (num_decode (bytes ++ rest) ≡ some (op_number op, rest))
unfolding op_size
op_bytes op rest = num_decode-num_encode (op_number op) rest (omega (arith, op_number-lt op))

dump_param-Reads :
    (all : List Fragment) (f : Fragment) (rest : List ℕ)
    → IsWord f.param
    → (bytes : List ℕ) × (dump_param f ≡ some bytes)
      × (length bytes ≡ op_size f.op + num_encoded_size_from_int f.param)
      × Reads with_param all f bytes rest
unfolding dump_param
dump_param-Reads all f rest h =
    let (param, e₂, l₂, d₂) = num_decode-num_encode f.param rest h in
    let (op, e₁, l₁, d₁) = op_bytes f.op (param ++ rest) in
    (
      op ++ param,
      rw e₁ (rw e₂),
      length-append op param ∙ ap₂ (λ a b. a + b) l₁ l₂,
      (param ++ rest, rw append_assoc d₁, d₂),
    )

offset_to-target :
    (all : List Fragment) (f : Fragment) {offset : ℕ}
    → offset_to all f ≡ some offset
    → IsWord offset
      × ((target : Fragment)
          → get_elem? all f.param ≡ some target
          → IsWord f.position
          → IsWord target.position
          → add_word f.position offset ≡ target.position)
unfolding offset_to
offset_to-target all f {offset} e =
    let (target, g, o) = >>=-eq-some (get_elem? all f.param) _ e in
    let o' : sub_word target.position f.position ≡ offset = some-eq_some o in
    (
      rw (← o') (omega arith),
      λ t g' p q.
          let same : target ≡ t = some-eq_some (sym g ∙ g') in
          rw (← o', same) (add_word-sub_word t.position f.position q p),
    )

dump_offset-Reads :
    (all : List Fragment) (f : Fragment) (rest : List ℕ)
    → f.relaxation ≤ 4
    → representable_by with_offset all f ≡ some true
    → (bytes : List ℕ) × (dump_offset all f ≡ some bytes)
      × (length bytes ≡ op_size f.op + (f.relaxation + 1))
      × Reads with_offset all f bytes rest
unfolding dump_offset representable_by
dump_offset-Reads all f rest h r =
    let (offset, o, fits) = >>=-eq-some (offset_to all f) _ r in
    let (w, t) = offset_to-target all f o in
    let le = leb→le (num_encoded_size_from_int offset) (f.relaxation + 1) (some-eq_some fits) in
    let (bytes, e₂, l₂) =
      length-num_encode_with_size offset (f.relaxation + 1) w le (omega arith) in
    let (op, e₁, l₁, d₁) = op_bytes f.op (bytes ++ rest) in
    (
      op ++ bytes,
      rw (e₁, o, e₂),
      length-append op bytes ∙ ap₂ (λ a b. a + b) l₁ l₂,
      (
        bytes ++ rest,
        offset,
        rw append_assoc d₁,
        num_decode-num_encode_with_size offset (f.relaxation + 1) bytes rest w e₂,
        t,
      ),
    )

builtin-Reads :
    (all : List Fragment) (f : Fragment) (rest : List ℕ)
    → IsWord f.param
    → f.param < 2147483648
    → (bytes : List ℕ) × (dump_by builtin all f ≡ some bytes)
      × (length bytes ≡ size_by builtin f)
      × Reads builtin all f bytes rest
unfolding dump_by size_by
builtin-Reads all f rest w h = elim (Bool-cases (fits_one_byte f.param)) [
  | inl one ↦
      let le : f.param ≤ 41 = ground arith in
      let e : (f.param + opcode_last) % 256 ≡ f.param + 22 = omega arith in
      rw (one, e)
        (
          (f.param + 22) ∷ [],
          refl,
          refl,
          inl (omega arith, num_decode-one_byte (f.param + 22) rest (omega arith)),
        )
  | inr more ↦ let (bytes, e, l, r) = dump_param-Reads all f rest w in rw more (bytes, e, l, inr r)
]

by_shape :
    (sh : Shape) (all : List Fragment) (f : Fragment) (rest : List ℕ)
    → IsEncodable f
    → shape f.op ≡ sh
    → representable_by sh all f ≡ some true
    → (bytes : List ℕ) × (dump_by sh all f ≡ some bytes)
      × (length bytes ≡ size_by sh f)
      × Reads sh all f bytes rest
unfolding dump_by size_by
by_shape builtin all f rest ok e r = builtin-Reads all f rest ok.param_word (ok.param_small e)
by_shape with_param all f rest ok e r = dump_param-Reads all f rest ok.param_word
by_shape with_offset all f rest ok e r = dump_offset-Reads all f rest ok.relaxed r
by_shape bare all f rest ok e r = op_bytes f.op rest
by_shape empty all f rest ok e r = ([], refl, refl, refl)

-- For a fragment that the backend calls representable: the dump's assertions hold, it writes exactly
-- the announced number of bytes, and the decoder reads the opcode and the operand from them and stops
-- behind them. The operand of a jump, added to the fragment's position, is the target's position.
pub fragment_bin_dump-Reads :
    (all : List Fragment) (sequence : List ℕ) (i : ℕ) (f : Fragment) (rest : List ℕ)
    → fragment_at all sequence i ≡ some f
    → IsEncodable f
    → fragment_bin_is_representable all sequence i ≡ some true
    → (bytes : List ℕ) × (fragment_bin_dump all sequence i ≡ some bytes)
      × (fragment_bin_size all sequence i ≡ some (length bytes))
      × Reads (shape f.op) all f bytes rest
unfolding fragment_bin_dump fragment_bin_size fragment_bin_is_representable
fragment_bin_dump-Reads all sequence i f rest here ok r =
    let (bytes, e, l, d) = by_shape (shape f.op) all f rest ok refl (rw here at r) in
    (bytes, rw here e, rw here (ap some (sym l)), d)
