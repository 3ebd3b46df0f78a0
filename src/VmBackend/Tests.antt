-- ===== src/VmBackend/Tests.antt =====
-- The bytecode backend: a small program laid out and encoded.
use mcp_forth.Prelude.{ℕ, ◌+◌, ◌*◌, ◌≡◌, refl, true, false, some, List, [], ◌∷◌, arith, length}
use mcp_forth.Num.{num_encode, num_encoded_size_from_int}
use mcp_forth.Fragment.{op_number, Fragment, push_literal, branch, branch_location}
use mcp_forth.VmBackend.{
  shape, fragment_bin_size, fragment_bin_is_representable, fragment_bin_dump,
  compact_bytecode_vm_backend,
}
use mcp_forth.VmBackend.Dump.{Reads, fragment_bin_dump-Reads}
use mcp_forth.VmBackend.Relax.{Refers, IsLinked, AllRepresentable, solve_ends}
use mcp_forth.Compiler.Layout.{solve}

-- begin 300 again
abbrev place : Fragment
place = record {
  param = 0;
  position = 0;
  op = branch_location;
  is_word_fragment = false;
  ext_param = 0;
  relaxation = 0;
}

abbrev three_hundred : Fragment
three_hundred = record {
  param = 300;
  position = 0;
  op = push_literal;
  is_word_fragment = false;
  ext_param = 0;
  relaxation = 0;
}

abbrev back : Fragment
back = record {
  param = 0;
  position = 3;
  op = branch;
  is_word_fragment = false;
  ext_param = 0;
  relaxation = 0;
}

abbrev fragments : List Fragment
fragments = place ∷ three_hundred ∷ back ∷ []

abbrev order : List ℕ
order = 0 ∷ 1 ∷ 2 ∷ []

-- Only a jump has an index to check: to show that a literal has none is to tell the shapes apart.
literal-Refers : Refers 3 three_hundred
unfolding shape
literal-Refers h = absurd (ground arith)

place-Refers : Refers 3 place
unfolding shape
place-Refers h = absurd (ground arith)

dump_back : fragment_bin_dump fragments order 2 ≡ some (12 ∷ 0x42 ∷ [])
unfolding fragment_bin_dump num_encode op_number
dump_back = refl

back_representable : fragment_bin_is_representable fragments order 2 ≡ some true
unfolding fragment_bin_is_representable num_encoded_size_from_int
back_representable = refl

fragment_bin_dump-Reads_example :
    (bytes : List ℕ) × (fragment_bin_dump fragments order 2 ≡ some bytes)
    × (fragment_bin_size fragments order 2 ≡ some (length bytes))
    × Reads (shape branch) fragments back bytes (7 ∷ [])
fragment_bin_dump-Reads_example =
    fragment_bin_dump-Reads fragments order 2 back (7 ∷ []) refl
      (record { param_word = omega arith; param_small = λ h. omega arith; relaxed = omega arith })
      back_representable

solve_ends_example :
    (solved : List Fragment) × (code_len : ℕ) × (solve compact_bytecode_vm_backend order
        (4 * length fragments + 1)
        fragments
      ≡ some (solved, code_len))
    × IsLinked (length fragments) solved order
    × AllRepresentable solved order 0 order
solve_ends_example = solve_ends order fragments (record {
  count = refl;
  sequenced = (omega arith, (omega arith, (omega arith, tt)));
  refers = (place-Refers, (literal-Refers, ((λ h. omega arith), tt)));
})
