-- ===== src/Compiler/Layout.antt =====
-- "solve fragment lengths and positions" of `m4_compile`, for any backend.
pub mod Rounds
pub mod Positions
use mcp_forth.Prelude.{
  ℕ, zero, suc, ◌+◌, ◌%◌, Bool, true, false, ◌&&◌, Option, none, some, List, [], ◌∷◌, if◌then◌else◌,
  get_elem?, set, ◌>>=◌,
}
use mcp_forth.Fragment.{Fragment, Backend}

-- The first `for`: each fragment of the sequence is placed behind the one before. `rest` is what of the
-- sequence the index `i` has not passed. `int` does not overflow for code under two gigabytes.
unfoldable pub place_loop :
    Backend → List ℕ → List ℕ → ℕ → List Fragment → ℕ → Option (List Fragment × ℕ)
place_loop backend sequence [] i all_fragments code_len = some (all_fragments, code_len)
place_loop backend sequence (s ∷ rest) i all_fragments code_len = do
  f ← get_elem? all_fragments s
  let placed = set all_fragments s (record f { position = code_len })
  size ← backend.fragment_bin_size placed sequence i
  place_loop backend sequence rest (suc i) placed (code_len + size)

-- The second `for`: a fragment that is not representable gets one relaxation more (a `uint8_t`).
unfoldable pub check_loop :
    Backend → List ℕ → List ℕ → ℕ → List Fragment → Bool → Option (List Fragment × Bool)
check_loop backend sequence [] i all_fragments solved = some (all_fragments, solved)
check_loop backend sequence (s ∷ rest) i all_fragments solved = do
  frag_ok ← backend.fragment_bin_is_representable all_fragments sequence i
  f ← get_elem? all_fragments s
  let relaxed = set all_fragments s (record f { relaxation = (f.relaxation + 1) % 256 })
  check_loop backend sequence rest (suc i) (if frag_ok then all_fragments else relaxed)
      (frag_ok && solved)

-- `while(!solved)`; `none` is an index out of bounds, or that the fuel ran out.
unfoldable pub solve : Backend → List ℕ → ℕ → List Fragment → Option (List Fragment × ℕ)
unfolding place_loop check_loop
solve backend sequence zero all_fragments = none
solve backend sequence (suc fuel) all_fragments = do
  (placed, code_len) ← place_loop backend sequence sequence 0 all_fragments 0
  (checked, solved) ← check_loop backend sequence sequence 0 placed true
  elim solved [ true ↦ some (checked, code_len) | false ↦ solve backend sequence fuel checked ]
