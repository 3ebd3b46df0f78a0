-- ===== src/Compiler/Sound/Steps.antt =====
-- The invariant of `m4_compile` under the helpers that add a fragment, and where the scanner moves.
use mcp_forth.Prelude.{
  ℕ, suc, ◌<◌, ◌≡◌, sym, ap, ◌∙◌, subst, Bool, true, false, List, arith, length,
}
use mcp_forth.Fragment.{Opcode}
use mcp_forth.VmBackend.{Shape, with_offset, shape}
use mcp_forth.Compiler.State.{Compiler, create_fragment, add_to_sequence, sequence_helper}
use mcp_forth.Compiler.Sound.{IsSound}
use mcp_forth.Compiler.Sound.Rules.{length-snoc, Facts-create, Facts-add, Facts-move}

abbrev pub is_offset : Shape → Bool
is_offset with_offset = true
is_offset _ = false

-- A fragment that is no jump has no index to check.
pub unless_offset :
    (op : Opcode) {p n : ℕ} → is_offset (shape op) ≡ false → shape op ≡ with_offset → p < n
unless_offset op h e =
    let e' : true ≡ false = subst (λ sh. is_offset sh ≡ false) e h in absurd (ground arith)

pub length-create_fragment :
    (op : Opcode) (param : ℕ) (c : Compiler)
    → length (create_fragment op param c).all_fragments ≡ suc (length c.all_fragments)
unfolding create_fragment
length-create_fragment op param c = length-snoc c.all_fragments _

pub length-sequence_helper :
    (op : Opcode) (param : ℕ) (c : Compiler)
    → length (sequence_helper op param c).all_fragments ≡ suc (length c.all_fragments)
unfolding sequence_helper add_to_sequence
length-sequence_helper = length-create_fragment

pub create_fragment-IsSound :
    {owed limit : ℕ} (op : Opcode) (param : ℕ) (c : Compiler)
    → IsSound owed limit c
    → (shape op ≡ with_offset → param < suc (length c.all_fragments))
    → IsSound (suc owed) limit (create_fragment op param c)
unfolding create_fragment
create_fragment-IsSound op param c s h = Facts-create _ s h

pub sequence_helper-IsSound :
    {owed limit : ℕ} (op : Opcode) (param : ℕ) (c : Compiler)
    → IsSound owed limit c
    → (shape op ≡ with_offset → param < suc (length c.all_fragments))
    → IsSound owed limit (sequence_helper op param c)
unfolding sequence_helper add_to_sequence create_fragment
sequence_helper-IsSound op param c s h =
    Facts-add (length c.all_fragments) (create_fragment-IsSound op param c s h)
      (omega (arith, length-create_fragment op param c))

abbrev at_source : List ℕ → Compiler → Compiler
at_source rest c = record c { cur = rest }

-- The scanner has moved, and nothing else.
abbrev pub Moved : Compiler → Compiler → Type 0
Moved c c' = (rest : List ℕ) × (c' ≡ record c { cur = rest }) × (length rest < length c.cur)

pub Moved-IsSound :
    {limit : ℕ} (c c' : Compiler) → Moved c c' → IsSound 0 limit c → IsSound 0 limit c'
Moved-IsSound {limit} c c' (rest, e, l) s =
    let s' : IsSound 0 limit (record c { cur = rest }) =
      Facts-move rest s (omega (arith, l, s.left)) in
    subst (IsSound 0 limit) (sym e) s'

pub Moved-trans : (c c₁ c₂ : Compiler) → Moved c c₁ → Moved c₁ c₂ → Moved c c₂
Moved-trans c c₁ c₂ (r₁, e₁, l₁) (r₂, e₂, l₂) =
    (r₂, e₂ ∙ ap (at_source r₂) e₁, omega (arith, l₁, l₂, ap (λ (x : Compiler). length x.cur) e₁))
