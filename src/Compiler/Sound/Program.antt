-- ===== src/Compiler/Sound/Program.antt =====
-- What `m4_compile` makes of a whole source: a sequence in which every index leads to a fragment, the
-- main program first, and for the bytecode backend a layout.
use mcp_forth.Prelude.{
  ℕ, zero, suc, ◌+◌, ◌*◌, ◌<◌, ◌≡◌, refl, sym, ap, ap₂, ◌∙◌, inl, inr, Bool, true, false, not, ◌&&◌,
  none, some, List, [], ◌∷◌, ◌++◌, append-nil, append_assoc, arith, if◌then◌else◌, Bool-cases,
  Option-cases, length, get_elem?, All, All-append, minus_one, if_intro, get_elem?-lt,
  get_elem?-some_lt,
}
use mcp_forth.Fragment.{Opcode, Fragment, Backend}
use mcp_forth.VmBackend.{shape, compact_bytecode_vm_backend}
use mcp_forth.VmBackend.Relax.{IsLinked, AllRepresentable, solve_ends}
use mcp_forth.Source.Names.{find_nstring, builtins}
use mcp_forth.Source.Scanner.{next_word}
use mcp_forth.Source.Scanner.Words.{next_word-length}
use mcp_forth.Compiler.State.{ok, Compiler, sequence_helper, add_to_sequence, create_fragment}
use mcp_forth.Compiler.Layout.{solve}
use mcp_forth.Compiler.Definitions.{is_empty}
use mcp_forth.Compiler.Source.{process_word, process_source, initial, move_loop, front_end}
use mcp_forth.Compiler.Sound.{Below, IsSound, pending, Safe, safe_ok, KeepsSound}
use mcp_forth.Compiler.Sound.Checks.{Safe-bind, Safe-then, Safe-weaken, Safe-rassert}
use mcp_forth.Compiler.Sound.Rules.{Facts-move}
use mcp_forth.Compiler.Sound.Steps.{unless_offset, sequence_helper-IsSound}
use mcp_forth.Compiler.Sound.Lookup.{Safe-found}
use mcp_forth.Source.Names.Find.{find_nstring-lt}
use mcp_forth.Compiler.Sound.Words.{builtin_handler-IsSound, intrinsic_handler-IsSound}

-- From every state in which the compiler's invariant holds, for one word of the source, whatever it is
-- and whatever the backend: the invariant is kept or the source is refused, nothing that C leaves
-- undefined is done, and no more of the source is left than before.
pub process_word-IsSound :
    (backend : Backend) (word : List ℕ) → KeepsSound (process_word backend word)
unfolding process_word shape
process_word-IsSound backend word limit c s =
    elim (Option-cases (find_nstring c.defined_word_nstrings word false)) [
      | inr (i, e) ↦
          rw (e, process_word)
            (Safe-bind (Safe-found c word s e) (λ d (f, ef, o).
              let h = get_elem?-some_lt c.all_fragments d ef in
              safe_ok (sequence_helper-IsSound Opcode.defined_word d c s (λ _. omega (arith, h)))))
      | inl e ↦ elim (Option-cases (find_nstring c.variable_nstrings word false)) [
        | inr (i, e') ↦
            rw (e, e', process_word)
              (safe_ok (
                sequence_helper-IsSound Opcode.use_variable_or_constant i c s
                  (unless_offset Opcode.use_variable_or_constant refl)))
        | inl e' ↦ elim (Option-cases (find_nstring builtins word false)) [
          | inr (i, e'') ↦
              rw (e, e', e'', process_word)
                (builtin_handler-IsSound i (find_nstring-lt builtins word i e'') limit c s)
          | inl e'' ↦
              rw (e, e', e'', process_word) (intrinsic_handler-IsSound backend word limit c s)
        ]
      ]
    ]

pub process_source-IsSound :
    (backend : Backend) (fuel limit : ℕ) (c : Compiler)
    → IsSound 0 limit c
    → limit < fuel
    → Safe (IsSound 0 limit) (process_source backend fuel c)
unfolding process_source
process_source-IsSound backend zero limit c s h = absurd (omega arith)
process_source-IsSound backend (suc fuel) limit c s h = elim (Option-cases (next_word c.cur)) [
  | inl e ↦ rw (e, process_source) (safe_ok s)
  | inr ((word, rest), e) ↦
      let l = next_word-length c.cur word rest e in
      let s₀ : IsSound 0 (length rest) (record c { cur = rest }) =
        Facts-move rest s (omega arith) in
      rw (e, process_source)
        (Safe-bind (process_word-IsSound backend word (length rest) (record c { cur = rest }) s₀)
          (λ c₁ s₁.
            Safe-weaken
              (process_source-IsSound backend fuel (length rest) c₁ s₁ (omega (arith, l, s.left)))
              (λ c₂ s₂. Facts-move c₂.cur s₂ (omega (arith, l, s.left, s₂.left)))))
]

pub initial-IsSound : (source : List ℕ) → IsSound 0 (length source) (initial source)
unfolding initial sequence_helper add_to_sequence create_fragment shape pending
initial-IsSound source = record {
  balanced = refl;
  nonempty = omega arith;
  sequenced = (omega arith, tt);
  controlled = tt;
  located = tt;
  refers = (unless_offset Opcode.entry refl, tt);
  paired = refl;
  started = λ e. absurd (ground arith);
  scanned = tt;
  needing = tt;
  left = omega arith;
}

-- The sequence split by whose fragments they are, each part in its order.
unfoldable pub of_words : Bool → List Fragment → List ℕ → List ℕ
of_words b all [] = []
of_words b all (s ∷ order) =
    let rest = of_words b all order in
    elim (get_elem? all s) [
      | none ↦ rest
      | some f ↦ elim f.is_word_fragment [
        | true ↦ (if b then s ∷ rest else rest)
        | false ↦ (if b then rest else s ∷ rest)
      ]
    ]

move_loop_splits :
    (all : List Fragment) (main words order : List ℕ)
    → Below (length all) order
    → move_loop all main words order
      ≡ ok ((main ++ of_words false all order) ++ (words ++ of_words true all order))
unfolding move_loop of_words
move_loop_splits all main words [] h =
    ap ok (ap₂ (λ xs ys. xs ++ ys) (sym (append-nil main)) (sym (append-nil words)))
move_loop_splits all main words (s ∷ order) (h, hs) =
    let (f, e) = get_elem?-lt all s h in
    elim (Bool-cases f.is_word_fragment) [
      | inl b ↦
          rw (e, b, of_words)
            (move_loop_splits all main (words ++ s ∷ []) order hs
              ∙ ap (λ ys. ok ((main ++ of_words false all order) ++ ys))
                  (append_assoc words (s ∷ []) _))
      | inr b ↦
          rw (e, b, of_words)
            (move_loop_splits all (main ++ s ∷ []) words order hs
              ∙ ap (λ xs. ok (xs ++ (words ++ of_words true all order)))
                  (append_assoc main (s ∷ []) _))
    ]

-- For a sequence whose indices lead to fragments, the move puts the main program's fragments first and
-- the words' behind them, and keeps the order among each.
pub move_loop-of_words :
    (all : List Fragment) (order : List ℕ)
    → Below (length all) order
    → move_loop all [] [] order ≡ ok (of_words false all order ++ of_words true all order)
move_loop-of_words all order h = move_loop_splits all [] [] order h

of_words-All :
    (P : ℕ → Type 0) (b : Bool) (all : List Fragment) (order : List ℕ)
    → All P order
    → All P (of_words b all order)
unfolding of_words
of_words-All P b all [] h = tt
of_words-All P b all (s ∷ order) (h, hs) =
    let r = of_words-All P b all order hs in
    elim (Option-cases (get_elem? all s)) [
      | inl e ↦ rw (e, of_words) r
      | inr (f, e) ↦ elim (Bool-cases f.is_word_fragment) [
        | inl t ↦ rw (e, t, of_words) (if_intro (All P) b (h, r) r)
        | inr t ↦ rw (e, t, of_words) (if_intro (All P) b r (h, r))
      ]
    ]

abbrev pub IsReady : Compiler → Type 0
IsReady c = IsLinked (length c.all_fragments) c.all_fragments c.sequence

-- For every backend and every source text: the front end of the compiler ends, with an error of the
-- source or with a program in which every index of the sequence and every jump leads to a fragment. It
-- reads no array out of bounds and fails no assertion.
pub front_end-IsReady :
    (backend : Backend) (source : List ℕ) → Safe IsReady (front_end backend source)
unfolding front_end shape
front_end-IsReady backend source =
    Safe-bind
      (process_source-IsSound backend (suc (length source)) (length source) (initial source)
        (initial-IsSound source) (omega arith))
      (λ c s.
        Safe-then (Safe-rassert (not c.defining_word && is_empty c.control_flow_stack) _) (λ b.
          let h = sequence_helper Opcode.halt minus_one c in
          let s₁ =
            sequence_helper-IsSound Opcode.halt minus_one c s (unless_offset Opcode.halt refl) in
          rw (move_loop-of_words h.all_fragments h.sequence s₁.sequenced) (
            safe_ok (record {
              count = refl;
              sequenced =
                  All-append _ _ _ (of_words-All _ false h.all_fragments h.sequence s₁.sequenced)
                    (of_words-All _ true h.all_fragments h.sequence s₁.sequenced);
              refers = s₁.refers;
            }))))

-- What the layout loop makes of a program.
abbrev pub HasLayout : Compiler → Type 0
HasLayout c =
    (solved : List Fragment) × (code_len : ℕ) × (solve compact_bytecode_vm_backend c.sequence
        (4 * length c.all_fragments + 1) c.all_fragments
      ≡ some (solved, code_len))
    × AllRepresentable solved c.sequence 0 c.sequence

-- For every source text that the front end accepts, the layout loop with the bytecode backend ends within
-- four rounds for each fragment and one more, and every instruction of the program can then be encoded.
pub front_end-HasLayout :
    (source : List ℕ) → Safe HasLayout (front_end compact_bytecode_vm_backend source)
front_end-HasLayout source =
    Safe-weaken (front_end-IsReady compact_bytecode_vm_backend source) (λ c linked.
      let (solved, code_len, e, l, r) = solve_ends c.sequence c.all_fragments linked in
      (solved, code_len, e, r))
