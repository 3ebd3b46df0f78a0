-- ===== src/Compiler/Source.antt =====
-- `m4_compile` up to the halt: each word of the source in turn, and the main program moved to the front.
use mcp_forth.Prelude.{
  ℕ, zero, suc, Bool, true, false, not, ◌&&◌, Option, none, some, List, [], ◌∷◌, ◌++◌,
  if◌then◌else◌, length, get_elem?, minus_one, codes,
}
use mcp_forth.Fragment.{Opcode, Fragment, Backend}
use mcp_forth.Source.Names.{find_nstring, builtins}
use mcp_forth.Source.Literal.{parse_literal}
use mcp_forth.Source.Scanner.{next_word, next_line}
use mcp_forth.Compiler.State.{
  Result, ok, undefined, ◌>>=◌, ◌>>◌, rassert, defined, ControlFlow, Compiler, sequence_helper,
  is_word, early_end_of_source, loop_index_used_outside_loop,
}
use mcp_forth.Compiler.Definitions.{
  colon, semicolon, exit_handler, paren, recurse_handler, declare, tick, c_tick, is_do, is_empty,
}
use mcp_forth.Compiler.ControlFlow.{
  if_handler, then_handler, else_handler, do_handler, loop_handler, begin_handler, until_handler,
  while_handler, repeat_handler, again_handler,
}
use mcp_forth.Compiler.Strings.{string_handler, runtime_index}

-- Whether the control flow stack holds as many DO as are required.
unfoldable pub has_depth : ℕ → List ControlFlow → Bool
has_depth zero cfs = true
has_depth (suc required) [] = false
has_depth (suc required) (cf ∷ cfs) = has_depth (if is_do cf then required else suc required) cfs

-- A builtin word; `i` and `j` want one and two loops around them.
unfoldable pub builtin_handler : ℕ → Compiler → Result Compiler
unfolding has_depth
builtin_handler word_i c = do
  let c' = sequence_helper Opcode.builtin_word word_i c
  name ← defined (get_elem? builtins word_i)
  let required = if is_word (codes "i") name then 1 else if is_word (codes "j") name then 2 else 0
  rassert (has_depth required c.control_flow_stack) loop_index_used_outside_loop
  ok c'

-- A word that only adds a fragment.
abbrev pub simple : Opcode → Compiler → Result Compiler
simple op c = ok (sequence_helper op 0 c)

-- The chain of tests for the intrinsic words, in its order.
unfoldable pub intrinsics : Backend → List (List ℕ × (Compiler → Result Compiler))
intrinsics backend =
    (codes ":", colon)
    ∷ (codes ";", semicolon backend)
    ∷ (codes "exit", exit_handler backend)
    ∷ (codes "(", paren)
    ∷ (codes ".\"", string_handler true)
    ∷ (codes "s\"", string_handler false)
    ∷ (codes "recurse", recurse_handler)
    ∷ (codes "variable", declare false)
    ∷ (codes "constant", declare true)
    ∷ (codes "if", if_handler)
    ∷ (codes "then", then_handler)
    ∷ (codes "else", else_handler)
    ∷ (codes "do", do_handler)
    ∷ (codes "loop", loop_handler)
    ∷ (codes "begin", begin_handler)
    ∷ (codes "until", until_handler)
    ∷ (codes "while", while_handler)
    ∷ (codes "repeat", repeat_handler)
    ∷ (codes "again", again_handler)
    ∷ (codes "\\", λ c. ok (record c { cur = next_line c.cur }))
    ∷ (codes "'", tick)
    ∷ (codes "c'", c_tick)
    ∷ (codes "unloop", λ c. ok c)
    ∷ (codes "execute", simple Opcode.execute)
    ∷ (codes "thread-create", simple Opcode.thread_create)
    ∷ (codes "thread-join", simple Opcode.thread_join)
    ∷ []

unfoldable pub find_intrinsic :
    List (List ℕ × (Compiler → Result Compiler)) → List ℕ → Option (Compiler → Result Compiler)
find_intrinsic [] word = none
find_intrinsic ((lit, handler) ∷ table) word =
    let again = find_intrinsic table word in if is_word lit word then some handler else again

unfoldable pub runtime_handler : List ℕ → Compiler → Result Compiler
runtime_handler word c =
    let (word_i, c') = runtime_index word c in ok (sequence_helper Opcode.runtime_word word_i c')

-- The last `else` of the chain, and the runtime words behind it.
unfoldable pub literal_handler : List ℕ → Compiler → Result Compiler
unfolding runtime_handler
literal_handler word c = elim (parse_literal word) [
  | some literal ↦ ok (sequence_helper Opcode.push_literal literal c)
  | none ↦ runtime_handler word c
]

unfoldable pub intrinsic_handler : Backend → List ℕ → Compiler → Result Compiler
unfolding find_intrinsic intrinsics literal_handler
intrinsic_handler backend word c = elim (find_intrinsic (intrinsics backend) word) [
  | some handler ↦ handler c
  | none ↦ literal_handler word c
]

-- The body of the loop over the words.
unfoldable pub process_word : Backend → List ℕ → Compiler → Result Compiler
unfolding builtin_handler intrinsic_handler
process_word backend word c = elim (find_nstring c.defined_word_nstrings word false) [
  | some i ↦ do
    d ← defined (get_elem? c.defined_word_fragments i)
    ok (sequence_helper Opcode.defined_word d c)
  | none ↦ elim (find_nstring c.variable_nstrings word false) [
    | some i ↦ ok (sequence_helper Opcode.use_variable_or_constant i c)
    | none ↦ elim (find_nstring builtins word false) [
      | some i ↦ builtin_handler i c
      | none ↦ intrinsic_handler backend word c
    ]
  ]
]

-- `while(next_word(&ss))`. Every round takes a byte of the source at least.
unfoldable pub process_source : Backend → ℕ → Compiler → Result Compiler
unfolding process_word
process_source backend zero c = undefined
process_source backend (suc fuel) c = elim (next_word c.cur) [
  | none ↦ ok c
  | some (word, rest) ↦ do
    c' ← process_word backend word (record c { cur = rest })
    process_source backend fuel c'
]

-- The arrays as they are created, and the entry fragment.
unfoldable pub initial : List ℕ → Compiler
initial source = sequence_helper Opcode.entry 0 (record {
  all_fragments = [];
  sequence = [];
  defined_word_nstrings = [];
  defined_word_fragments = [];
  runtime_word_nstrings = [];
  data_nstrings = [];
  variable_nstrings = [];
  control_flow_stack = [];
  defined_words_that_need_callbacks = [];
  cur = source;
  defining_word = false;
})

-- The loop that moves main program fragments to the front: the sequence is `main`, then the fragments
-- of words that were passed, then `rest`; `memmove` shifts the second part by one.
unfoldable pub move_loop : List Fragment → List ℕ → List ℕ → List ℕ → Result (List ℕ)
move_loop all_fragments main words [] = ok (main ++ words)
move_loop all_fragments main words (s ∷ rest) = do
  f ← defined (get_elem? all_fragments s)
  move_loop all_fragments (if f.is_word_fragment then main else main ++ s ∷ [])
      (if f.is_word_fragment then words ++ s ∷ [] else words) rest

-- From the source to the sequence that is laid out.
unfoldable pub front_end : Backend → List ℕ → Result Compiler
unfolding process_source move_loop initial
front_end backend source = do
  c ← process_source backend (suc (length source)) (initial source)
  rassert (not c.defining_word && is_empty c.control_flow_stack) early_end_of_source
  let halted = sequence_helper Opcode.halt minus_one c
  sequence ← move_loop halted.all_fragments [] [] halted.sequence
  ok (record halted { sequence = sequence })
