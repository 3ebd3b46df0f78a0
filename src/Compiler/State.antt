-- ===== src/Compiler/State.antt =====
-- The locals of `m4_compile`, and the helpers that change them.
use mcp_forth.Prelude.{
  ℕ, zero, suc, ◌-◌, bit_and, bit_or, Bool, true, false, ◌&&◌, Option, none, some, List, [], ◌∷◌,
  ◌++◌, ◌==◌, if◌then◌else◌, length, get_elem?, set,
}
use mcp_forth.Fragment.{Opcode, exit_word, Fragment, Backend}
use mcp_forth.Source.Names.{equal_string}

-- The error codes.
pub data Error : Type 0 where
  not_allowed_inside_word early_end_of_source word_redefined word_used_before_defined : Error
  unexpected_semicolon not_allowed_outside_word variable_or_constant_redefined : Error
  wrong_terminator_for_this_control_flow unterminated_control_flow : Error
  unexpected_control_flow_terminator loop_index_used_outside_loop : Error
  tick_operator_could_not_find_defined_word : Error
  invalid_defined_word_parenthesis_for_c_callback : Error

-- A value, an error code, or what C leaves undefined: an index out of bounds or a failed assertion.
pub data Result {ℓ} (A : Type ℓ) : Type ℓ where
  ok : A → Result A
  err : Error → Result A
  undefined : Result A

infixl 5 ◌>>=◌ ◌>>◌
abbrev pub ◌>>=◌ {ℓ κ} : {A : Type ℓ} {B : Type κ} → Result A → (A → Result B) → Result B
ok a >>= f = f a
err e >>= f = err e
undefined >>= f = undefined

abbrev pub ◌>>◌ {ℓ} : {B : Type ℓ} → Result (Unit {0}) → Result B → Result B
m >> k = m >>= λ _. k

-- `RASSERT(expr, ecode)`
abbrev pub rassert : Bool → Error → Result (Unit {0})
rassert true e = ok tt
rassert false e = err e

abbrev pub defined {ℓ} : {A : Type ℓ} → Option A → Result A
defined none = undefined
defined (some a) = ok a

-- An option that must be there for the code to go on.
abbrev pub or_error {ℓ} : {A : Type ℓ} → Option A → Error → Result A
or_error none e = err e
or_error (some a) e = ok a

pub data ControlFlowType : Type 0 where
  if_cf else_cf do_cf begin_cf while_cf : ControlFlowType

-- `control_flow_t`
pub record ControlFlow : Type 0 where
  pub type : ControlFlowType
  pub fragment : ℕ

-- An `nstring_t` that points to an escaped string: the source from there on, and its length unescaped.
pub record DataString : Type 0 where
  pub str : List ℕ
  pub len : ℕ

-- The arrays grow at their end, and so do these lists, but the control flow stack: its top is first.
pub record Compiler : Type 0 where
  pub all_fragments : List Fragment
  pub sequence : List ℕ
  pub defined_word_nstrings : List (List ℕ)
  pub defined_word_fragments : List ℕ
  pub runtime_word_nstrings : List (List ℕ)
  pub data_nstrings : List DataString
  pub variable_nstrings : List (List ℕ)
  pub control_flow_stack : List ControlFlow
  pub defined_words_that_need_callbacks : List ℕ
  pub cur : List ℕ
  pub defining_word : Bool

-- `create_fragment`; the fragment's index is the number of those before it.
unfoldable pub create_fragment : Opcode → ℕ → Compiler → Compiler
create_fragment op param c = record c {
  all_fragments =
      c.all_fragments
      ++ record {
        param = param;
        position = 0;
        op = op;
        is_word_fragment = c.defining_word;
        ext_param = 0;
        relaxation = 0;
      }
        ∷ [];
}

-- `grow_array_add(&sequence, &fragment)`
unfoldable pub add_to_sequence : ℕ → Compiler → Compiler
add_to_sequence fragment c = record c { sequence = c.sequence ++ fragment ∷ [] }

-- `sequence_helper`
unfoldable pub sequence_helper : Opcode → ℕ → Compiler → Compiler
sequence_helper op param c = add_to_sequence (length c.all_fragments) (create_fragment op param c)

-- The last entry of an array: a read before it where it is empty.
abbrev pub last_of : List ℕ → Option ℕ
last_of xs = get_elem? xs (length xs - 1)

-- `EQUAL_STRING_LITERAL(lit, ss.word, ss.word_len, false)`
unfoldable pub is_word : List ℕ → List ℕ → Bool
is_word lit word = length lit == length word && equal_string lit word (length lit) false

abbrev pub is_exit : Opcode → Bool
is_exit exit_word = true
is_exit _ = false

-- `M4_DEFINED_WORD_LOCATION_PARAM_CALLS`, `M4_DEFINED_WORD_LOCATION_PARAM_LOOPS`
abbrev pub param_loops : ℕ
param_loops = 1

abbrev pub param_calls : ℕ
param_calls = 2

-- The loop of `update_defined_word_nested_call_param`, with `i + 1` in front of each test: whether it
-- meets an instruction that uses the link register before the definition's start or an exit. Below
-- index 0 it would read outside the sequence.
unfoldable pub nested_call_loop : (Opcode → Bool) → List Fragment → List ℕ → ℕ → ℕ → Option Bool
nested_call_loop op_uses_lr all_fragments sequence defining zero = none
nested_call_loop op_uses_lr all_fragments sequence defining (suc i) =
    let up = nested_call_loop op_uses_lr all_fragments sequence defining i in
    if i == defining then some false else elim (get_elem? sequence i) [
      | none ↦ none
      | some s ↦ elim (get_elem? all_fragments s) [
        | none ↦ none
        | some f ↦ if is_exit f.op then some false else if op_uses_lr f.op then some true else up
      ]
    ]

-- `all_fragments[i].param |= flag;`
unfoldable pub set_param_flag : ℕ → ℕ → Compiler → Result Compiler
set_param_flag i flag c = do
  f ← defined (get_elem? c.all_fragments i)
  ok (record c { all_fragments = set c.all_fragments i (record f { param = bit_or f.param flag }) })

-- `update_defined_word_nested_call_param`
unfoldable pub update_nested_call : Backend → ℕ → Compiler → Result Compiler
update_nested_call backend defining c = elim backend.op_uses_lr [
  | none ↦ ok c
  | some op_uses_lr ↦ do
    f ← defined (get_elem? c.all_fragments defining)
    calls ← defined (
        if bit_and f.param param_calls == 0
        then nested_call_loop op_uses_lr c.all_fragments c.sequence defining (length c.sequence - 1)
        else some false)
    if calls then set_param_flag defining param_calls c else ok c
]
