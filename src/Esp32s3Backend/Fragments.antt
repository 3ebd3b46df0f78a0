-- ===== src/Esp32s3Backend/Fragments.antt =====
-- The code of a whole fragment has the size that was counted for it.
use mcp_forth.Prelude.{
  ℕ, suc, ◌+◌, ◌-◌, ◌%◌, ◌<◌, ◌≡◌, refl, sym, ap, ap₂, ◌∙◌, inl, inr, Bool, true, false, Option,
  some, List, [], ◌++◌, arith, ltb, leb, if◌then◌else◌, Bool-cases, length, length-append,
  length-replicate,
}
use mcp_forth.Fragment.{
  Opcode, builtin_word, defined_word, runtime_word, push_literal, exit_word, defined_word_location,
  push_data_address, declare_variable, use_variable_or_constant, halt, branch_location,
  branch_if_zero, branch, do_loop, loop, push_offset_address, push_callback, declare_constant,
  execute, thread_create, thread_join, entry, Fragment, fragment_at,
}
use mcp_forth.Chores.{Flags}
use mcp_forth.X86Backend.{Generated}
use mcp_forth.Esp32s3Backend.{nop_n}
use mcp_forth.Esp32s3Backend.Auto.{lift}
use mcp_forth.Esp32s3Backend.Flags.{
  needs_at, size_if, front_size, size_of, align_size, next_align, fragment_bin_size,
}
use mcp_forth.Esp32s3Backend.Dump.{bytes_if, align_bytes, next_padding, fragment_bin_dump, dump_of}
use mcp_forth.Esp32s3Backend.Literals.{bind-some}
use mcp_forth.Esp32s3Backend.Instructions.{Agrees, is_plain, uses_cell, dump_of-size_of}

abbrev answer : List ℕ → ℕ → Option (ℕ × List ℕ)
answer pool n = some (n, pool)

-- The same remainder, further on.
further : (dst pos n : ℕ) → dst % 4 ≡ pos % 4 → (dst + n) % 4 ≡ (pos + n) % 4
further dst pos n h = omega arith

nops-length : (a : ℕ) → length (if leb a 1 then [] else nop_n) ≡ (if leb a 1 then 0 else 2)
nops-length a = elim (Bool-cases (leb a 1)) [ inl h ↦ rw (h) refl | inr h ↦ rw (h) refl ]

bytes_if-length :
    (need : Bool) (chore : List ℕ)
    → length (if need then chore else []) ≡ (if need then length chore else 0)
bytes_if-length true chore = refl
bytes_if-length false chore = refl

module _ (gen : Generated) where
  align-length :
      (op : Opcode) (dst pos : ℕ)
      → dst % 4 ≡ pos % 4
      → length (align_bytes gen op dst) ≡ align_size gen op pos
  unfolding align_bytes align_size
  align-length defined_word_location dst pos h =
      length-replicate ((4 - dst % 4) % 4) 0 ∙ ap (λ r. (4 - r) % 4) h
  align-length branch_location dst pos h =
      nops-length (dst % 4) ∙ ap (λ r. if leb r 1 then 0 else 2) h
  align-length builtin_word dst pos h = refl
  align-length defined_word dst pos h = refl
  align-length runtime_word dst pos h = refl
  align-length push_literal dst pos h = refl
  align-length exit_word dst pos h = refl
  align-length push_data_address dst pos h = refl
  align-length declare_variable dst pos h = refl
  align-length use_variable_or_constant dst pos h = refl
  align-length halt dst pos h = refl
  align-length branch_if_zero dst pos h = refl
  align-length branch dst pos h = refl
  align-length do_loop dst pos h = refl
  align-length loop dst pos h = refl
  align-length push_offset_address dst pos h = refl
  align-length push_callback dst pos h = refl
  align-length declare_constant dst pos h = refl
  align-length execute dst pos h = refl
  align-length thread_create dst pos h = refl
  align-length thread_join dst pos h = refl
  align-length entry dst pos h = refl

  -- The alignment of the next fragment, if there is one.
  padding-length :
      (all : List Fragment) (sequence : List ℕ) (i dst pos : ℕ)
      → (suc i < length sequence → (g : Fragment) × (fragment_at all sequence (i + 1) ≡ some g))
      → dst % 4 ≡ pos % 4
      → (bytes : List ℕ) × (next_padding gen all sequence i dst ≡ some bytes)
        × (next_align gen all sequence i pos ≡ some (length bytes))
  unfolding next_padding next_align
  padding-length all sequence i dst pos next h = elim (Bool-cases (ltb (i + 1) (length sequence))) [
    | inl e ↦
        let (g, eg) = next (ground arith) in
        (
          align_bytes gen g.op dst,
          rw (next_padding, e, eg) refl,
          rw (next_align, e, eg) (ap some (sym (align-length g.op dst pos h))),
        )
    | inr e ↦ ([], rw (next_padding, e) refl, rw (next_align, e) refl)
  ]

  -- What the chores in front take.
  front-length :
      (needs : Flags)
      → length (bytes_if gen needs.a gen.chore_a ++ bytes_if gen needs.b gen.chore_b)
        ≡ front_size gen needs
  front-length needs =
      length-append (bytes_if gen needs.a gen.chore_a) (bytes_if gen needs.b gen.chore_b)
      ∙ ap₂ ◌+◌ (bytes_if-length needs.a gen.chore_a) (bytes_if-length needs.b gen.chore_b)

  whole-length :
      (needs : Flags) (front code : List ℕ)
      → length front ≡ front_size gen needs
      → length
          (front ++ code ++ bytes_if gen needs.y gen.chore_y ++ bytes_if gen needs.z gen.chore_z)
        ≡ front_size gen needs
          + length code
          + size_if gen needs.z gen.chore_z
          + size_if gen needs.y gen.chore_y
  whole-length needs front code h =
      let y = bytes_if gen needs.y gen.chore_y in
      let z = bytes_if gen needs.z gen.chore_z in
      omega (
        arith,
        length-append (front ++ code ++ y) z,
        length-append (front ++ code) y,
        length-append front code,
        h,
        bytes_if-length needs.y gen.chore_y,
        bytes_if-length needs.z gen.chore_z,
      )

  module _ (all : List Fragment) (sequence : List ℕ) (i dst : ℕ) (pool : List ℕ) (f : Fragment)
      (needs : Flags) (eneeds : needs_at gen all sequence i ≡ some needs)
      (ef : fragment_at all sequence i ≡ some f) where
    -- A fragment that is no builtin word and no callback, and whose instruction needs no other
    -- fragment, is written in exactly the bytes that were counted for it, the chores and the
    -- alignment of the next fragment included, and both leave the same pool of literals. The pool has
    -- fewer than 8192 literals, a variable's cell is below 8192, the address and the position agree
    -- modulo 4, and the next fragment is in the array.
    pub fragment_bin_dump-size :
        is_plain f.op ≡ true
        → (uses_cell f.op ≡ true → f.param < 8192)
        → length pool < 8192
        → dst % 4 ≡ f.position % 4
        → (suc i < length sequence → (g : Fragment) × (fragment_at all sequence (i + 1) ≡ some g))
        → Agrees
            (fragment_bin_dump gen all sequence i dst)
            (fragment_bin_size gen all sequence i)
            pool
    unfolding fragment_bin_dump fragment_bin_size
    fragment_bin_dump-size plain cell room h next =
        let front : List ℕ = bytes_if gen needs.a gen.chore_a ++ bytes_if gen needs.b gen.chore_b in
        let (code, more, e, se) =
          dump_of-size_of gen all f (f.position + length front) pool room f.op plain cell in
        let whole : List ℕ =
          front ++ code ++ bytes_if gen needs.y gen.chore_y ++ bytes_if gen needs.z gen.chore_z in
        let (padding, pe, ps) =
          padding-length all sequence i (dst + length whole) (f.position + length whole) next
            (further dst f.position (length whole) h) in
        let lf = front-length needs in
        let lw = whole-length needs front code lf in
        (
          whole ++ padding,
          more,
          bind-some (lift (needs_at gen all sequence i)) _ pool pool needs
                (ap (λ o. lift o pool) eneeds)
              ∙ bind-some (lift (fragment_at all sequence i)) _ pool pool f
                  (ap (λ o. lift o pool) ef)
              ∙ bind-some (dump_of gen f.op all f (f.position + length front)) _ pool more code e
              ∙ bind-some (lift (next_padding gen all sequence i (dst + length whole))) _ more more
                  padding (ap (λ o. lift o more) pe),
          bind-some (lift (needs_at gen all sequence i)) _ pool pool needs
                (ap (λ o. lift o pool) eneeds)
              ∙ bind-some (lift (fragment_at all sequence i)) _ pool pool f
                  (ap (λ o. lift o pool) ef)
              ∙ bind-some (size_of gen f.op all f (f.position + front_size gen needs)) _ pool more
                  (length code)
                  (ap (λ n. size_of gen f.op all f (f.position + n) pool) (sym lf) ∙ se)
              ∙ bind-some
                  (lift (
                    next_align gen all sequence i (
                      f.position
                      + (front_size gen needs
                          + length code
                          + size_if gen needs.z gen.chore_z
                          + size_if gen needs.y gen.chore_y))))
                  _ more more (length padding)
                  (ap (λ n. lift (next_align gen all sequence i (f.position + n)) more) (sym lw)
                    ∙ ap (λ o. lift o more) ps)
              ∙ ap (answer more)
                  (ap (λ n. n + length padding) (sym lw) ∙ sym (length-append whole padding)),
        )
