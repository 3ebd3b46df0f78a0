-- ===== src/Compiler/Sound.antt =====
-- The invariant of `m4_compile`: every index that it keeps leads to an entry of the array it is for, and
use mcp_forth.Prelude.{
  ℕ, zero, suc, ◌+◌, ◌-◌, ◌*◌, ◌/◌, ◌%◌, ◌^◌, ◌≤◌, ◌<◌, min, bit_and, bit_or, bit_xor, ◌≡◌, refl,
  sym, ap, ap₂, ◌∙◌, subst, ◌≢◌, ◌↔◌, ◌⊎◌, inl, inr, Bool, true, false, not, ◌&&◌, ◌||◌, Option,
  none, some, List, [], ◌∷◌, ◌++◌, map, append-nil, append_assoc, arith, ltb, leb, ◌==◌,
  if◌then◌else◌, ltb→lt, lt→ltb, le→ltb_false, ltb_false→le, leb→le, ==_iff, tests, Bool-cases,
  Option-cases, holds_below, holds_below-at, agree_below, length, get_elem?, set, length-append,
  length-set, get_elem?-set_self, get_elem?-set_ne, get_or, take, drop, replicate, length-map, All,
  All-append, some-eq_some, IsByte, bit_and-7f, bit_and_80, bit_and_40, bit_and-3f, bit_or_80,
  bit_or_40, word_mod, IsWord, minus_one, is_negative, invert, add_word, sub_word, mul_word, bias,
  slt, sle, codes, if_intro, bytes_eq, bytes_eq_iff, All-set, All-get_elem?, get_elem?-lt,
  get_elem?-some_lt, drop-cons, add_word-sub_word, sub_word-add_word, length-drop, length-take,
  get_elem?-none_le, take-append-drop, get_elem?-append, get_elem?-append_length, All-mono,
}
pub mod Checks
pub mod Rules
pub mod Steps
pub mod Flow
pub mod Names
pub mod Lookup
pub mod Words
pub mod Program
use mcp_forth.Fragment.{Opcode, defined_word_location, Fragment}
use mcp_forth.Source.Escape.{next_escaped_string}
use mcp_forth.VmBackend.{Shape, with_offset, shape}
use mcp_forth.VmBackend.Relax.{Refers}
use mcp_forth.Compiler.State.{
  Error, Result, ok, err, undefined, ControlFlowType, if_cf, else_cf, do_cf, begin_cf, while_cf,
  ControlFlow, DataString, Compiler, last_of,
}

abbrev pub Below : ℕ → List ℕ → Type 0
Below n = All (λ s. s < n)

-- The index is that of the start of a definition.
abbrev pub IsLocation : List Fragment → ℕ → Type 0
IsLocation all d = (f : Fragment) × (get_elem? all d ≡ some f) × (f.op ≡ defined_word_location)

-- The scanner has found the string whole, with this length.
abbrev pub IsScanned : DataString → Type 0
IsScanned s = (rest : List ℕ) × (next_escaped_string s.str ≡ some (s.len, rest))

-- How many targets an open control flow keeps out of the sequence: those of the branches forwards.
unfoldable pub owed_by : ControlFlowType → ℕ
owed_by if_cf = 1
owed_by else_cf = 1
owed_by do_cf = 0
owed_by begin_cf = 0
owed_by while_cf = 1

unfoldable pub pending : List ControlFlow → ℕ
pending [] = 0
pending (cf ∷ cfs) = owed_by cf.type + pending cfs

-- The invariant on the arrays; `owed` fragments have been created and not put anywhere, and
-- at most `limit` bytes of the source are left.
pub record Facts (owed : ℕ) (all : List Fragment) (order : List ℕ) (open_flows : List ControlFlow)
    (definitions : List ℕ) (names : List (List ℕ)) (defining : Bool) (strings : List DataString)
    (callbacks cur : List ℕ) (limit : ℕ) : Type 0 where
  pub balanced : length all ≡ length order + pending open_flows + owed
  pub nonempty : 1 ≤ length order
  pub sequenced : Below (length all) order
  pub controlled : All (λ cf. cf.fragment < length all) open_flows
  pub located : All (IsLocation all) definitions
  pub refers : All (Refers (length all)) all
  pub paired : length names ≡ length definitions
  pub started : defining ≡ true → (d : ℕ) × (last_of definitions ≡ some d) × (d < length order)
  pub scanned : All IsScanned strings
  pub needing : Below (length definitions) callbacks
  pub left : length cur ≤ limit

abbrev pub IsSound : ℕ → ℕ → Compiler → Type 0
IsSound owed limit c =
    Facts owed c.all_fragments c.sequence c.control_flow_stack c.defined_word_fragments
      c.defined_word_nstrings c.defining_word c.data_nstrings c.defined_words_that_need_callbacks
      c.cur limit

-- A result with the property, or an error of the source; never what C leaves undefined.
pub data Safe {A : Type 0} (P : A → Type 0) : Result A → Type 0 where
  safe_ok : {a : A} → P a → Safe P (ok a)
  safe_err : {e : Error} → Safe P (err e)

-- A step of the compiler that keeps the invariant, and does not lengthen what is left of the source.
abbrev pub KeepsSound : (Compiler → Result Compiler) → Type 0
KeepsSound handler =
    (limit : ℕ) (c : Compiler) → IsSound 0 limit c → Safe (IsSound 0 limit) (handler c)
