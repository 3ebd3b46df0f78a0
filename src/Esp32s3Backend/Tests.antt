-- ===== src/Esp32s3Backend/Tests.antt =====
-- Runs of the ESP32-S3 backend on a small program.
use mcp_forth.Prelude.{
  ℕ, ◌≡◌, refl, true, false, none, some, List, [], ◌∷◌, replicate, length, arith,
}
use mcp_forth.Fragment.{
  Opcode, push_literal, branch_location, branch_if_zero, push_callback, Fragment,
}
use mcp_forth.Chores.{Flags, no_flags, backend_fragment_get_needed_chores}
use mcp_forth.X86Backend.{Generated}
use mcp_forth.Esp32s3Backend.Auto.{movi_auto}
use mcp_forth.Esp32s3Backend.Flags.{needs_at, fragment_bin_size, fragment_bin_is_representable}
use mcp_forth.Esp32s3Backend.Dump.{fragment_bin_dump}
use mcp_forth.Esp32s3Backend.Instructions.{is_plain, uses_cell}
use mcp_forth.Esp32s3Backend.Fragments.{fragment_bin_dump-size}

abbrev gen : Generated
gen = record {
  table = replicate 63 (record { pos = 0; len = 2; flags = no_flags });
  code = 0x3d ∷ 0xf0 ∷ [];
  chore_a = 0x4b ∷ 0xdd ∷ [];
  chore_b = 0xe9 ∷ 0x1d ∷ [];
  chore_y = 0xe8 ∷ 0x1d ∷ [];
  chore_z = 0xca ∷ 0xdd ∷ [];
}

abbrev fragment : Opcode → ℕ → ℕ → Fragment
fragment op param position = record {
  param = param;
  position = position;
  op = op;
  relaxation = 0;
  is_word_fragment = false;
  ext_param = 0;
}

abbrev program : List Fragment
program =
    fragment push_literal 100000 4
    ∷ fragment branch_if_zero 2 12
    ∷ fragment branch_location 0 20
    ∷ fragment push_callback 1 20
    ∷ []

abbrev order : List ℕ
order = 0 ∷ 1 ∷ 2 ∷ 3 ∷ []

movi_auto_run : movi_auto 14 100000 (7 ∷ []) ≡ some (0xe8 ∷ 0x17 ∷ [], 7 ∷ 100000 ∷ [])
unfolding movi_auto
movi_auto_run = refl

-- The instruction behind a condition of nothing: the branch is said to fit, and is not written.
branch_run :
    (fragment_bin_is_representable gen program order 1 [] ≡ some (true, []))
    × (fragment_bin_dump gen program order 1 12 [] ≡ none)
unfolding fragment_bin_is_representable fragment_bin_dump backend_fragment_get_needed_chores
branch_run = (refl, refl)

-- A pushed callback is also stored to a variable's cell, in two bytes that are not counted.
callback_run :
    (fragment_bin_size gen program order 3 [] ≡ some (8, []))
    × (fragment_bin_dump gen program order 3 20 []
        ≡ some (0x4b ∷ 0xdd ∷ 0xe9 ∷ 0x1d ∷ 0xe8 ∷ 0xb2 ∷ 0xe8 ∷ 0x1e ∷ 0xe9 ∷ 0x16 ∷ [], []))
unfolding fragment_bin_size fragment_bin_dump backend_fragment_get_needed_chores
callback_run = (refl, refl)

-- A literal in front of a location, which is aligned by a `nop`.
abbrev short : List ℕ
short = 0 ∷ 2 ∷ []

abbrev needs : Flags
needs = record { a = true; b = true; clob = true; y = false; z = false }

needs_run : needs_at gen program short 0 ≡ some needs
unfolding needs_at backend_fragment_get_needed_chores
needs_run = refl

fragment_bin_dump-size_example :
    (bytes : List ℕ) × (more : List ℕ) × (fragment_bin_dump gen program short 0 4 []
      ≡ some (bytes, more))
    × (fragment_bin_size gen program short 0 [] ≡ some (length bytes, more))
unfolding is_plain uses_cell
fragment_bin_dump-size_example =
    fragment_bin_dump-size gen program short 0 4 [] (fragment push_literal 100000 4) needs needs_run
      refl refl (λ e. cc e) (omega arith) refl (λ h. (fragment branch_location 0 20, refl))
