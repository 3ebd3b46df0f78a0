-- ===== src/X86Backend/Jumps.antt =====
-- Where the jumps of the x86 backend's code lead.
use mcp_forth.Prelude.{
  ℕ, zero, suc, ◌+◌, ◌*◌, ◌%◌, ◌≡◌, refl, ap, ◌∙◌, inl, inr, true, ◌||◌, Option, none, some, List,
  [], ◌∷◌, ◌++◌, append_assoc, arith, ltb, ◌==◌, if◌then◌else◌, ==_iff, Bool-cases, length,
  get_elem?, drop, some-eq_some, IsWord, add_word, sub_word,
}
use mcp_forth.Fragment.{Opcode, defined_word, branch_if_zero, branch, loop, Fragment, fragment_at}
use mcp_forth.Chores.{Flags}
use mcp_forth.X86Backend.{
  Generated, asm_num_is_small, branch_offset, loop_offset, by_relaxation, size_of,
  jump_is_representable, representable_of,
}
use mcp_forth.X86Backend.Dump.{
  ser_le_loop, ser_le32_and_inc, i8_as_byte, ser_i8_and_inc, dump_jump, dump_branch_if_zero,
  dump_branch, dump_loop, dump_of,
}
use mcp_forth.X86Backend.Ready.{reads_next}

-- Where a relative jump or call of x86 goes: the displacement is added to the address behind it.
unfoldable rel8_to : List ℕ → ℕ → Option ℕ
rel8_to [] at = none
rel8_to (b ∷ bytes) at = some (add_word (at + 1) (if ltb b 128 then b else b + 4294967040))

unfoldable rel32_to : List ℕ → ℕ → Option ℕ
rel32_to (a ∷ b ∷ c ∷ d ∷ bytes) at =
    some (add_word (at + 4) (a + 256 * b + 65536 * c + 16777216 * d))
rel32_to _ at = none

unfoldable near_jump : List ℕ → ℕ → Option ℕ
unfolding rel32_to
near_jump [] at = none
near_jump (op ∷ bytes) at = if op == 0x84 || op == 0x8c then rel32_to bytes (at + 1) else none

-- The target of the instruction that starts the bytes and stands at an address: `call` and `jmp` with
-- four bytes, `jmp`, `jz` and `jl` with one, `jz` and `jl` with four.
unfoldable pub jump_to : List ℕ → ℕ → Option ℕ
unfolding rel8_to rel32_to near_jump
jump_to [] at = none
jump_to (op ∷ bytes) at =
    if op == 0xe8 || op == 0xe9
    then rel32_to bytes (at + 1)
    else (if op == 0xeb || (op == 0x74 || op == 0x7c)
        then rel8_to bytes (at + 1)
        else (if op == 0x0f then near_jump bytes (at + 1) else none))

rel8_to-i8 :
    (x at : ℕ) (rest : List ℕ)
    → IsWord x
    → asm_num_is_small x ≡ true
    → rel8_to (ser_i8_and_inc x ++ rest) at ≡ some (add_word (at + 1) x)
unfolding rel8_to ser_i8_and_inc i8_as_byte asm_num_is_small
rel8_to-i8 x at rest h small = ap (λ b. some (add_word (at + 1) b)) (extended x h small)
  where
    extended :
        (x : ℕ)
        → IsWord x
        → asm_num_is_small x ≡ true
        → (if ltb (x % 256) 128 then x % 256 else x % 256 + 4294967040) ≡ x
    extended x h small = ground arith

rel32_to-le32 :
    (x at : ℕ) (rest : List ℕ)
    → IsWord x
    → rel32_to (ser_le32_and_inc x ++ rest) at ≡ some (add_word (at + 4) x)
unfolding rel32_to ser_le32_and_inc ser_le_loop
rel32_to-le32 x at rest h = ap (λ b. some (add_word (at + 4) b)) (omega arith)

-- The two forms of a jump go to the same place, past their own bytes.
dump_jump-lands :
    (short long : List ℕ) (r x at : ℕ) (rest : List ℕ)
    → ((rest : List ℕ)
        → asm_num_is_small x ≡ true
        → jump_to (short ++ (ser_i8_and_inc x ++ rest)) at
          ≡ some (add_word (at + (length short + 1)) x))
    → ((rest : List ℕ)
        → jump_to (long ++ (ser_le32_and_inc x ++ rest)) at
          ≡ some (add_word (at + (length long + 4)) x))
    → (r ≡ 0 → asm_num_is_small x ≡ true)
    → jump_to (dump_jump short long r x ++ rest) at
      ≡ some (add_word (at + by_relaxation r (length short + 1) (length long + 4)) x)
unfolding dump_jump
dump_jump-lands short long r x at rest s l fits = elim (Bool-cases (r == 0)) [
  | inl e ↦ rw e (
      ap (λ bytes. jump_to bytes at) (append_assoc short (ser_i8_and_inc x) rest)
      ∙ s rest (fits ((==_iff r 0).0 e)))
  | inr e ↦
      rw e (ap (λ bytes. jump_to bytes at) (append_assoc long (ser_le32_and_inc x) rest) ∙ l rest)
]

module _ (x at : ℕ) (h : IsWord x) where
  some-at : {k m : ℕ} → k ≡ m → some (add_word k x) ≡ some (add_word m x)
  some-at e = ap (λ k. some (add_word k x)) e

  short-lands :
      (rest : List ℕ)
      → asm_num_is_small x ≡ true
      → rel8_to (ser_i8_and_inc x ++ rest) (at + 1) ≡ some (add_word (at + 2) x)
  short-lands rest small = rel8_to-i8 x (at + 1) rest h small ∙ some-at (omega arith)

  long-lands :
      (rest : List ℕ) → rel32_to (ser_le32_and_inc x ++ rest) (at + 1) ≡ some (add_word (at + 5) x)
  long-lands rest = rel32_to-le32 x (at + 1) rest h ∙ some-at (omega arith)

  near-lands :
      (rest : List ℕ)
      → rel32_to (ser_le32_and_inc x ++ rest) (at + 1 + 1) ≡ some (add_word (at + 6) x)
  near-lands rest = rel32_to-le32 x (at + 1 + 1) rest h ∙ some-at (omega arith)

  call-lands :
      (rest : List ℕ)
      → jump_to (0xe8 ∷ (ser_le32_and_inc x ++ rest)) at ≡ some (add_word (at + 5) x)
  unfolding jump_to
  call-lands rest = long-lands rest

  module _ (r : ℕ) (rest : List ℕ) (fits : r ≡ 0 → asm_num_is_small x ≡ true) where
    branch-lands :
        jump_to (dump_jump (0xeb ∷ []) (0xe9 ∷ []) r x ++ rest) at
        ≡ some (add_word (at + by_relaxation r 2 5) x)
    unfolding jump_to
    branch-lands = dump_jump-lands (0xeb ∷ []) (0xe9 ∷ []) r x at rest short-lands long-lands fits

    zero-lands :
        jump_to (dump_jump (0x74 ∷ []) (0x0f ∷ 0x84 ∷ []) r x ++ rest) at
        ≡ some (add_word (at + by_relaxation r 2 6) x)
    unfolding jump_to near_jump
    zero-lands =
        dump_jump-lands (0x74 ∷ []) (0x0f ∷ 0x84 ∷ []) r x at rest short-lands near-lands fits

    loop-lands :
        jump_to (dump_jump (0x7c ∷ []) (0x0f ∷ 0x8c ∷ []) r x ++ rest) at
        ≡ some (add_word (at + by_relaxation r 2 6) x)
    unfolding jump_to near_jump
    loop-lands =
        dump_jump-lands (0x7c ∷ []) (0x0f ∷ 0x8c ∷ []) r x at rest short-lands near-lands fits

-- How many bytes of work stand in front of the jump.
unfoldable pub lead : Opcode → ℕ
lead branch_if_zero = 8
lead loop = 6
lead _ = 0

jump-fits :
    (gen : Generated) (r x : ℕ)
    → jump_is_representable gen r (some x) ≡ some true
    → r ≡ 0
    → asm_num_is_small x ≡ true
unfolding jump_is_representable
jump-fits gen zero x e z = some-eq_some e
jump-fits gen (suc r) x e z = absurd (omega arith)

-- The jump of an opcode reaches the target, given where the next fragment stands and that both
-- addresses are words.
pub code-Reaches :
    (gen : Generated) (op : Opcode) (all : List Fragment) (sequence : List ℕ) (i size : ℕ)
    → (needs : Flags) (f target next : Fragment) (rest : List ℕ) → reads_next op ≡ true
    → get_elem? all f.param ≡ some target
    → fragment_at all sequence (i + 1) ≡ some next
    → size_of gen op all f ≡ some size
    → representable_of gen op all sequence i f ≡ some true
    → next.position ≡ f.position + size
    → IsWord next.position
    → IsWord target.position
    → (code : List ℕ) × (dump_of gen op all sequence i needs f ≡ some code)
      × (jump_to (drop (lead op) (code ++ rest)) (f.position + lead op) ≡ some target.position)
unfolding reads_next dump_of size_of representable_of lead branch_offset loop_offset dump_branch
    dump_branch_if_zero dump_loop
code-Reaches gen defined_word all sequence i size needs f target next rest j t n s r e hn ht =
    let x = sub_word target.position next.position in
    (
      0xe8 ∷ ser_le32_and_inc x,
      rw (t, n) refl,
      call-lands x (f.position + 0) (omega arith) rest ∙ ap some (omega (arith, some-eq_some s)),
    )
code-Reaches gen branch all sequence i size needs f target next rest j t n s r e hn ht =
    let x = sub_word target.position next.position in
    (
      dump_branch f.relaxation x,
      rw (t, n) refl,
      branch-lands x (f.position + 0) (omega arith) f.relaxation rest
            (jump-fits gen f.relaxation x (rw (t, n) at r))
          ∙ ap some (omega (arith, some-eq_some s)),
    )
code-Reaches gen branch_if_zero all sequence i size needs f target next rest j t n s r e hn ht =
    let x = sub_word target.position next.position in
    (
      dump_branch_if_zero f.relaxation x,
      rw (t, n) refl,
      zero-lands x (f.position + 8) (omega arith) f.relaxation rest
            (jump-fits gen f.relaxation x (rw (t, n) at r))
          ∙ ap some (omega (arith, some-eq_some s)),
    )
code-Reaches gen loop all sequence i size needs f target next rest j t n s r e hn ht =
    let x = sub_word target.position (sub_word next.position 3) in
    let jump = dump_jump (0x7c ∷ []) (0x0f ∷ 0x8c ∷ []) f.relaxation x in
    (
      dump_loop f.relaxation x,
      rw (t, n) refl,
      ap (λ bytes. jump_to bytes (f.position + 6))
            (append_assoc jump (0x83 ∷ 0xc4 ∷ 0x08 ∷ []) rest)
          ∙ loop-lands x (f.position + 6) (omega arith) f.relaxation (0x83 ∷ 0xc4 ∷ 0x08 ∷ rest)
              (jump-fits gen f.relaxation x (rw (t, n) at r))
          ∙ ap some (omega (arith, some-eq_some s)),
    )
code-Reaches gen op all sequence i size needs f target next rest j t n s r e hn ht = cc j
