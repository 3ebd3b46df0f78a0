-- ===== src/VmBackend/Relax.antt =====
-- `m4_compile` finds lengths and positions for the bytecode backend: its loop ends.
use mcp_forth.Prelude.{
  ℕ, ◌+◌, ◌*◌, ◌≤◌, ◌<◌, ◌≡◌, refl, ap, ◌∙◌, ◌⊎◌, inl, inr, true, false, some, List, [], ◌∷◌, arith,
  leb, Bool-cases, length, get_elem?, set, length-set, All, sub_word, All-set, All-get_elem?,
  All-mono, get_elem?-lt,
}
use mcp_forth.Fragment.{Fragment}
use mcp_forth.Num.{num_encoded_size_from_int}
use mcp_forth.Num.Size.{num_encoded_size_bounds}
use mcp_forth.VmBackend.{
  Shape, builtin, with_param, with_offset, bare, empty, shape, size_by, offset_to, representable_by,
  fragment_bin_size, fragment_bin_is_representable, compact_bytecode_vm_backend,
}
use mcp_forth.Compiler.Layout.{solve}
use mcp_forth.Compiler.Layout.Rounds

-- A jump's parameter is the index of a fragment, among `n`.
abbrev pub Refers : ℕ → Fragment → Type 0
Refers n f = shape f.op ≡ with_offset → f.param < n

-- Every index of the sequence, and every jump, leads to a fragment.
pub record IsLinked (n : ℕ) (all : List Fragment) (sequence : List ℕ) : Type 0 where
  pub count : length all ≡ n
  pub sequenced : All (λ s. s < n) sequence
  pub refers : All (Refers n) all

-- Replacing a fragment by one with its opcode and parameter keeps all links.
IsLinked-set :
    (n : ℕ) (all : List Fragment) (sequence : List ℕ) (s : ℕ) (f g : Fragment)
    → IsLinked n all sequence
    → get_elem? all s ≡ some f
    → f.op ≡ g.op
    → f.param ≡ g.param
    → IsLinked n (set all s g) sequence
IsLinked-set n all sequence s f g linked e op param = record {
  count = length-set all s g ∙ linked.count;
  sequenced = linked.sequenced;
  refers =
      All-set (Refers n) all s g linked.refers
        (λ o. rw (← param) (All-get_elem? (Refers n) all s linked.refers e (rw op o)));
}

abbrev pub AllRepresentable : List Fragment → List ℕ → ℕ → List ℕ → Type 0
AllRepresentable = Rounds.AllRepresentable compact_bytecode_vm_backend

representable_by-cases :
    (sh : Shape) (all : List Fragment) (f : Fragment)
    → (sh ≡ with_offset → f.param < length all)
    → (representable_by sh all f ≡ some true)
      ⊎ ((representable_by sh all f ≡ some false) × (f.relaxation ≤ 3))
unfolding representable_by offset_to
representable_by-cases builtin all f h = inl refl
representable_by-cases with_param all f h = inl refl
representable_by-cases bare all f h = inl refl
representable_by-cases empty all f h = inl refl
representable_by-cases with_offset all f h =
    let (target, e) = get_elem?-lt all f.param (h refl) in
    let offset = sub_word target.position f.position in
    let (_, most) = num_encoded_size_bounds offset (omega arith) in
    elim (Bool-cases (leb (num_encoded_size_from_int offset) (f.relaxation + 1))) [
      | inl fits ↦ rw e (inl (ap some fits))
      | inr wide ↦ rw e (inr (ap some wide, relaxed_less _ _ most wide))
    ]
  where
    relaxed_less : (size r : ℕ) → size ≤ 5 → leb size (r + 1) ≡ false → r ≤ 3
    relaxed_less size r m w = ground arith

module _ (n : ℕ) (sequence : List ℕ) (all : List Fragment) (linked : IsLinked n all sequence) where
  IsLinked-sequenced : All (λ s. s < length all) sequence
  IsLinked-sequenced = All-mono sequence (λ s h. omega (arith, linked.count)) linked.sequenced

  module _ (i s : ℕ) (here : get_elem? sequence i ≡ some s) where
    size_total : (size : ℕ) × (fragment_bin_size all sequence i ≡ some size)
    unfolding fragment_bin_size
    size_total =
        let below = All-get_elem? (λ t. t < length all) sequence i IsLinked-sequenced here in
        let (f, e) = get_elem?-lt all s below in (size_by (shape f.op) f, rw (here, e))

    judged :
        (f : Fragment)
        → get_elem? all s ≡ some f
        → (fragment_bin_is_representable all sequence i ≡ some true)
          ⊎ ((fragment_bin_is_representable all sequence i ≡ some false) × (f.relaxation < 4))
    unfolding fragment_bin_is_representable
    judged f e =
        elim (representable_by-cases (shape f.op) all f
          (λ o. omega (arith, linked.count, All-get_elem? (Refers n) all s linked.refers e o))) [
            | inl fits ↦ rw (here, e) (inl fits)
            | inr (wide, small) ↦ rw (here, e) (inr (wide, omega arith))
          ]

-- The bytecode backend keeps the laws of the layout loop: an operand has at most four bytes more.
vm_backend_laws : ℕ → Rounds.Laws compact_bytecode_vm_backend
vm_backend_laws n = record {
  IsReady = λ sequence all. IsLinked n all sequence;
  limit = λ op. 4;
  limited = λ op. omega arith;
  sequenced = λ sequence all linked. IsLinked-sequenced n sequence all linked;
  replaced = λ sequence all s f g linked e op param within.
      IsLinked-set n all sequence s f g linked e op param;
  sized = λ sequence all i s linked here. size_total n sequence all linked i s here;
  judged = λ sequence all i s f linked here e. judged n sequence all linked i s here f e;
}

room-le :
    (n : ℕ) (all : List Fragment)
    → Rounds.room compact_bytecode_vm_backend (vm_backend_laws n) all ≤ 4 * length all
unfolding Rounds.room vm_backend_laws
room-le n [] = omega arith
room-le n (f ∷ all) = omega (arith, room-le n all)

-- For every program whose sequence and jumps name existing fragments, the loop that solves lengths and
-- positions ends after at most 4 * n + 1 rounds, n the number of fragments; it then has a layout in
-- which every fragment of the sequence is representable, and all links are as they were.
pub solve_ends :
    (sequence : List ℕ) (all : List Fragment)
    → IsLinked (length all) all sequence
    → (solved : List Fragment) × (code_len : ℕ) × (solve compact_bytecode_vm_backend sequence
          (4 * length all + 1)
          all
        ≡ some (solved, code_len))
      × IsLinked (length all) solved sequence
      × AllRepresentable solved sequence 0 sequence
unfolding vm_backend_laws
solve_ends sequence all linked =
    Rounds.solve_total compact_bytecode_vm_backend (vm_backend_laws (length all)) sequence
      (4 * length all + 1) all linked (omega (arith, room-le (length all) all))
