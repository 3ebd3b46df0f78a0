-- ===== src/X86Backend/Tests.antt =====
-- The x86 backend on a small program: tests and witnesses.
use mcp_forth.Prelude.{
  ℕ, zero, suc, ◌+◌, ◌≤◌, ◌<◌, ◌≡◌, refl, sym, subst, true, false, some, List, [], ◌∷◌, arith,
  length, drop, replicate, All, some-eq_some,
}
use mcp_forth.Fragment.{
  Opcode, push_literal, halt, branch_location, branch_if_zero, Fragment, fragment_at,
}
use mcp_forth.X86Backend.{Generated, TableEntry, fragment_bin_size, fragment_bin_is_representable}
use mcp_forth.X86Backend.Dump.{fragment_bin_dump, x86_32_backend}
use mcp_forth.Chores.{backend_fragment_get_needed_chores}
use mcp_forth.Compiler.Layout.{solve}
use mcp_forth.Compiler.Layout.Positions.{LaidOut, Distinct, solve-LaidOut}
use mcp_forth.X86Backend.Ready.{refers, reads_next, limit, IsKnown, IsReady}
use mcp_forth.X86Backend.{IsGenerated}
use mcp_forth.Chores.{no_flags}
use mcp_forth.Chores.Boundary.{IsPaired}
use mcp_forth.Compiler.Layout.Rounds.{AllRepresentable}
use mcp_forth.X86Backend.Jumps.{jump_to, lead}
use mcp_forth.X86Backend.Relax.{x86_32_solve_ends}
use mcp_forth.X86Backend.Reach.{solve-Reaches}
use mcp_forth.X86Backend.Total.{fragment_bin_dump-total}
use mcp_forth.X86Backend.Move.{x86_32_backend-Movable}

-- Code of two bytes for each builtin word, and the chores as the generator assembles them.
abbrev word : TableEntry
word = record { pos = 1; len = 2; flags = no_flags }

abbrev gen : Generated
gen = record {
  table = replicate 63 word;
  code = 0x90 ∷ 0xf7 ∷ 0xd8 ∷ [];
  chore_a = 0x83 ∷ 0xc3 ∷ 0x04 ∷ [];
  chore_b = 0x89 ∷ 0x03 ∷ [];
  chore_y = 0x8b ∷ 0x03 ∷ [];
  chore_z = 0x83 ∷ 0xeb ∷ 0x04 ∷ [];
}

abbrev fragment : Opcode → ℕ → Fragment
fragment op param = record {
  param = param;
  position = 0;
  op = op;
  is_word_fragment = false;
  ext_param = 0;
  relaxation = 0;
}

-- `7 if 300 then`, and the end.
abbrev program : List Fragment
program =
    fragment push_literal 7
    ∷ fragment branch_if_zero 3
    ∷ fragment push_literal 300
    ∷ fragment branch_location 0
    ∷ fragment halt 0
    ∷ []

abbrev order : List ℕ
order = 0 ∷ 1 ∷ 2 ∷ 3 ∷ 4 ∷ []

abbrev placed : List Fragment
placed =
    record (fragment push_literal 7) { position = 0 }
    ∷ record (fragment branch_if_zero 3) { position = 10 }
    ∷ record (fragment push_literal 300) { position = 20 }
    ∷ record (fragment branch_location 0) { position = 30 }
    ∷ record (fragment halt 0) { position = 30 }
    ∷ []

solve_run : solve (x86_32_backend gen) order 11 program ≡ some (placed, 31)
unfolding solve fragment_bin_size fragment_bin_is_representable backend_fragment_get_needed_chores
solve_run = refl

-- `mov eax, 300` with its chores in front, and `jz` over it.
dump_literal_run :
    fragment_bin_dump gen placed order 2
    ≡ some (0x83 ∷ 0xc3 ∷ 0x04 ∷ 0x89 ∷ 0x03 ∷ 0xb8 ∷ 0x2c ∷ 0x01 ∷ 0x00 ∷ 0x00 ∷ [])
unfolding fragment_bin_dump backend_fragment_get_needed_chores
dump_literal_run = refl

dump_branch_run :
    fragment_bin_dump gen placed order 1
    ≡ some (0x83 ∷ 0xeb ∷ 0x04 ∷ 0x85 ∷ 0xc0 ∷ 0x8b ∷ 0x43 ∷ 0x04 ∷ 0x74 ∷ 0x0a ∷ [])
unfolding fragment_bin_dump backend_fragment_get_needed_chores
dump_branch_run = refl

gen-IsGenerated : IsGenerated gen
gen-IsGenerated = record { covers = refl; inside = inside 63; paired = paired 63 }
  where
    inside : (n : ℕ) → All (λ w. w.pos + w.len ≤ 3) (replicate n word)
    inside zero = tt
    inside (suc n) = (omega arith, inside n)

    paired : (n : ℕ) → All (λ w. IsPaired w.flags) (replicate n word)
    paired zero = tt
    paired (suc n) = (record { b_a = λ e. cc e; clob_b = λ e. cc e; y_z = λ e. cc e }, paired n)

program-IsKnown : All (IsKnown gen 5) program
unfolding refers limit
program-IsKnown = (
  record { builtin = λ e. cc e; referred = λ e. cc e; relaxed = omega arith },
  (
    record { builtin = λ e. cc e; referred = λ e. omega arith; relaxed = omega arith },
    (
      record { builtin = λ e. cc e; referred = λ e. cc e; relaxed = omega arith },
      (
        record { builtin = λ e. cc e; referred = λ e. cc e; relaxed = omega arith },
        (record { builtin = λ e. cc e; referred = λ e. cc e; relaxed = omega arith }, tt),
      ),
    ),
  ),
)

program-followed :
    (i : ℕ) (f : Fragment)
    → fragment_at program order i ≡ some f
    → reads_next f.op ≡ true
    → suc i < 5
unfolding reads_next
program-followed zero f e j = omega arith
program-followed (suc zero) f e j = omega arith
program-followed (suc (suc zero)) f e j = omega arith
program-followed (suc (suc (suc zero))) f e j = omega arith
program-followed (suc (suc (suc (suc zero)))) f e j =
    cc (subst (λ g. reads_next g.op ≡ true) (sym (some-eq_some e)) j)
program-followed (suc (suc (suc (suc (suc i))))) f e j = cc e

program-IsReady : IsReady gen 5 order program
program-IsReady = record {
  count = refl;
  sequenced = (omega arith, (omega arith, (omega arith, (omega arith, (omega arith, tt)))));
  known = program-IsKnown;
  followed = program-followed;
}

order-Distinct : Distinct order
order-Distinct = (
  ((λ e. omega arith), ((λ e. omega arith), ((λ e. omega arith), ((λ e. omega arith), tt)))),
  (
    ((λ e. omega arith), ((λ e. omega arith), ((λ e. omega arith), tt))),
    (((λ e. omega arith), ((λ e. omega arith), tt)), (((λ e. omega arith), tt), (tt, tt))),
  ),
)

x86_32_solve_ends_example :
    (solved : List Fragment) × (code_len : ℕ) × (solve (x86_32_backend gen) order 11 program
      ≡ some (solved, code_len))
    × IsReady gen 5 order solved
    × AllRepresentable (x86_32_backend gen) solved order 0 order
x86_32_solve_ends_example = x86_32_solve_ends gen order program program-IsReady

fragment_bin_dump-total_example :
    (bytes : List ℕ) × (fragment_bin_dump gen program order 2 ≡ some bytes)
    × (fragment_bin_size gen program order 2 ≡ some (length bytes))
fragment_bin_dump-total_example =
    fragment_bin_dump-total gen 5 order program 2 gen-IsGenerated program-IsReady (omega arith)

solve-LaidOut_example : LaidOut (x86_32_backend gen) placed order order 0 0 31
solve-LaidOut_example =
    solve-LaidOut (x86_32_backend gen) order 11 program placed 31 (x86_32_backend-Movable gen)
      order-Distinct solve_run

solve-Reaches_example :
    (bytes : List ℕ) × (fragment_bin_dump gen placed order 1 ≡ some bytes)
    × (jump_to (drop (lead branch_if_zero) bytes) (10 + lead branch_if_zero) ≡ some 30)
unfolding reads_next
solve-Reaches_example =
    solve-Reaches gen order program placed 31 1
      (record (fragment branch_if_zero 3) { position = 10 })
      (record (fragment branch_location 0) { position = 30 }) program-IsReady order-Distinct
      solve_run (omega arith, (omega arith, (omega arith, (omega arith, (omega arith, tt))))) refl
      refl refl
