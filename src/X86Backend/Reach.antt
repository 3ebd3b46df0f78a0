-- ===== src/X86Backend/Reach.antt =====
-- In a program that is laid out, the jumps of the x86 backend lead to their targets.
use mcp_forth.Prelude.{
  ℕ, zero, suc, ◌+◌, ◌*◌, ◌<◌, ◌≡◌, refl, sym, ap, ◌∙◌, subst, inl, inr, true, ◌&&◌, some, List, [],
  ◌++◌, append-nil, arith, ltb, Bool-cases, length, get_elem?, drop, All, some-eq_some, IsWord,
  >>=-eq-some, All-get_elem?,
}
use mcp_forth.Fragment.{
  Opcode, builtin_word, push_literal, push_data_address, use_variable_or_constant,
  push_offset_address, push_callback, declare_constant, Fragment, fragment_at,
}
use mcp_forth.Chores.{Flags}
use mcp_forth.X86Backend.{
  Generated, needs_at, fragment_bin_size, fragment_bin_is_representable, size_of, op_flags,
  flags_of, get_flags,
}
use mcp_forth.X86Backend.Dump.{dump_of, fragment_bin_dump, x86_32_backend}
use mcp_forth.Chores.{
  flags_at, needs_below, needs_above, backend_fragment_get_needed_chores, below_up, above_down,
}
use mcp_forth.Compiler.Layout.{solve}
use mcp_forth.Compiler.Layout.Positions.{LaidOut, LaidOut-next, Distinct, solve-LaidOut}
use mcp_forth.X86Backend.Ready.{reads_next, IsKnown, IsReady}
use mcp_forth.Chores.{no_flags}
use mcp_forth.X86Backend.Ready.{flags_at-total, fragment_at-total, size_of-total}
use mcp_forth.Compiler.Layout.Rounds.{AllRepresentable, AllRepresentable-at}
use mcp_forth.X86Backend.Move.{x86_32_backend-Movable}
use mcp_forth.X86Backend.Relax.{x86_32_solve_ends}
use mcp_forth.X86Backend.Jumps.{jump_to, lead, code-Reaches}

below_up-none : (up : Flags) → below_up up no_flags ≡ no_flags
unfolding below_up
below_up-none up = elim (Bool-cases up.z) [
  | inl z ↦ elim (Bool-cases up.y) [ inl y ↦ rw (z, y) refl | inr y ↦ rw (z, y) refl ]
  | inr z ↦ rw z refl
]

above_down-none : (down : Flags) → above_down down no_flags ≡ no_flags
unfolding above_down
above_down-none down = elim (Bool-cases down.a) [
  | inl a ↦ elim (Bool-cases (down.b && down.clob)) [
    | inl c ↦ rw (a, c) refl
    | inr c ↦ rw (a, c) refl
  ]
  | inr a ↦ rw a refl
]

-- A jump has no chores.
flags_of-jump :
    (gen : Generated) (op : Opcode) (f : Fragment)
    → reads_next op ≡ true
    → flags_of gen op f ≡ some no_flags
unfolding reads_next flags_of op_flags
flags_of-jump gen builtin_word f j = cc j
flags_of-jump gen push_literal f j = cc j
flags_of-jump gen push_data_address f j = cc j
flags_of-jump gen use_variable_or_constant f j = cc j
flags_of-jump gen push_offset_address f j = cc j
flags_of-jump gen push_callback f j = cc j
flags_of-jump gen declare_constant f j = cc j
flags_of-jump gen op f j = refl

module _ (gen : Generated) (n : ℕ) (sequence : List ℕ) (all : List Fragment)
    (ready : IsReady gen n sequence all) where
  needs_below-none :
      (i : ℕ)
      → i < length sequence
      → needs_below (get_flags gen) all sequence i no_flags ≡ some no_flags
  unfolding needs_below
  needs_below-none zero h = refl
  needs_below-none (suc i) h =
      let (up, e) = flags_at-total gen n sequence all ready i (omega arith) in
      rw e (ap some (below_up-none up))

  needs_above-none :
      (i : ℕ)
      → suc i < length sequence
      → needs_above (get_flags gen) all sequence i no_flags ≡ some no_flags
  unfolding needs_above
  needs_above-none i h =
      let t : ltb (i + 1) (length sequence) ≡ true = ground arith in
      let (down, e) = flags_at-total gen n sequence all ready (i + 1) (omega arith) in
      rw (t, e) (ap some (above_down-none down))

  needs_at-jump :
      (i : ℕ) (f : Fragment)
      → fragment_at all sequence i ≡ some f
      → reads_next f.op ≡ true
      → needs_at gen all sequence i ≡ some no_flags
  unfolding needs_at backend_fragment_get_needed_chores flags_at get_flags
  needs_at-jump i f here jumps =
      let more = ready.followed i f here jumps in
      rw (here, flags_of-jump gen f.op f jumps, needs_below-none i (omega arith))
        (needs_above-none i more)

  module _ (i : ℕ) (f : Fragment) (here : fragment_at all sequence i ≡ some f)
      (jumps : reads_next f.op ≡ true) where
    fragment_bin_size-jump :
        {size : ℕ}
        → size_of gen f.op all f ≡ some size
        → fragment_bin_size gen all sequence i ≡ some size
    unfolding fragment_bin_size
    fragment_bin_size-jump {size} e =
        rw (needs_at-jump i f here jumps, here, e) (ap some (omega arith))

    fragment_bin_dump-jump :
        {code : List ℕ}
        → dump_of gen f.op all sequence i no_flags f ≡ some code
        → fragment_bin_dump gen all sequence i ≡ some code
    unfolding fragment_bin_dump
    fragment_bin_dump-jump {code} e =
        rw (needs_at-jump i f here jumps, here, e)
          (ap some (append-nil (code ++ []) ∙ append-nil code))

  -- In a program that is laid out, with addresses below 2 ^ 32: for a call, a branch or a loop that can be
  -- encoded where it stands, the bytes that the backend writes hold, behind the work that comes before
  -- the jump, an x86 jump or call whose target is the position of the fragment that the parameter
  -- names.
  pub jump-Reaches :
      (i code_len : ℕ) (f target : Fragment)
      → LaidOut (x86_32_backend gen) all sequence sequence 0 0 code_len
      → All (λ g. IsWord g.position) all
      → fragment_at all sequence i ≡ some f
      → reads_next f.op ≡ true
      → fragment_bin_is_representable gen all sequence i ≡ some true
      → get_elem? all f.param ≡ some target
      → (bytes : List ℕ) × (fragment_bin_dump gen all sequence i ≡ some bytes)
        × (jump_to (drop (lead f.op) bytes) (f.position + lead f.op) ≡ some target.position)
  unfolding fragment_bin_is_representable
  jump-Reaches i code_len f target laid words here jumps fits t =
      let more = ready.followed i f here jumps in
      let (next, there, known) = fragment_at-total gen n sequence all ready (i + 1) (omega arith) in
      let (s, in_order, found) = >>=-eq-some (get_elem? sequence i) (get_elem? all) here in
      let (s', in_order', found') =
        >>=-eq-some (get_elem? sequence (i + 1)) (get_elem? all) there in
      let k = All-get_elem? (IsKnown gen n) all s ready.known found in
      let (size, sized) =
        size_of-total gen f.op all f k.builtin (λ r. omega (arith, ready.count, k.referred r))
          k.relaxed in
      let next_at =
        LaidOut-next (x86_32_backend gen) all sequence sequence 0 0 code_len i laid in_order
          (subst (λ j. get_elem? sequence j ≡ some s') (omega arith) in_order') found found'
          (subst (λ j. fragment_bin_size gen all sequence j ≡ some size) (omega arith)
            (fragment_bin_size-jump i f here jumps sized)) in
      let (code, written, reached) =
        code-Reaches gen f.op all sequence i size no_flags f target next [] jumps t there sized
          (rw here at fits) next_at (All-get_elem? (λ g. IsWord g.position) all s' words found')
          (All-get_elem? (λ g. IsWord g.position) all f.param words t) in
      (
        code,
        fragment_bin_dump-jump i f here jumps written,
        subst
            (λ bytes.
              jump_to (drop (lead f.op) bytes) (f.position + lead f.op) ≡ some target.position)
            (append-nil code) reached,
      )

-- For every program that is ready and whose sequence has no repetition: after the loop that solves
-- lengths and positions, if the positions are below 2 ^ 32, the bytes of each call, branch and loop hold
-- an x86 jump or call whose target is the position of the fragment that the parameter names.
pub solve-Reaches :
    (gen : Generated) (sequence : List ℕ) (all solved : List Fragment) (code_len i : ℕ)
    → (f target : Fragment) → IsReady gen (length all) sequence all
    → Distinct sequence
    → solve (x86_32_backend gen) sequence (2 * length all + 1) all ≡ some (solved, code_len)
    → All (λ g. IsWord g.position) solved
    → fragment_at solved sequence i ≡ some f
    → reads_next f.op ≡ true
    → get_elem? solved f.param ≡ some target
    → (bytes : List ℕ) × (fragment_bin_dump gen solved sequence i ≡ some bytes)
      × (jump_to (drop (lead f.op) bytes) (f.position + lead f.op) ≡ some target.position)
solve-Reaches gen sequence all solved code_len i f target ready distinct run words here jumps t =
    let (solved', len, run', ready', rep) = x86_32_solve_ends gen sequence all ready in
    let same : (solved', len) ≡ (solved, code_len) = some-eq_some (sym run' ∙ run) in
    let is_solved : solved' ≡ solved = ap (λ r. r.0) same in
    let still = subst (λ a. IsReady gen (length all) sequence a) is_solved ready' in
    let fits =
      AllRepresentable-at (x86_32_backend gen) solved sequence sequence 0 i
        (subst (λ a. AllRepresentable (x86_32_backend gen) a sequence 0 sequence) is_solved rep)
        (omega (arith, still.followed i f here jumps)) in
    let fits' : fragment_bin_is_representable gen solved sequence i ≡ some true =
      subst (λ k. fragment_bin_is_representable gen solved sequence k ≡ some true) (omega arith)
        fits in
    jump-Reaches gen (length all) sequence solved still i code_len f target
      (solve-LaidOut (x86_32_backend gen) sequence (2 * length all + 1) all solved code_len
        (x86_32_backend-Movable gen) distinct run)
      words here jumps fits' t
