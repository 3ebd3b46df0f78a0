-- ===== src/Compiler/Tests.antt =====
-- The compiler: a small program compiled and laid out, and the theorems at concrete sources.
use mcp_forth.Prelude.{
  ℕ, ◌≡◌, refl, Bool, true, false, some, List, [], ◌∷◌, ◌++◌, map, arith, length, codes,
}
use mcp_forth.Num.{num_encode}
use mcp_forth.Source.Escape.{next_escaped_string, dump_escaped_string}
use mcp_forth.Compiler.State.{DataString}
use mcp_forth.Compiler.Sound.Rules.{Facts-string}
use mcp_forth.Compiler.Binary.{strings_len, code_offset, dump_header}
use mcp_forth.Compiler.Binary.Length.{HasCounts, length-dump_header}
use mcp_forth.Fragment.{Opcode, Fragment}
use mcp_forth.VmBackend.{compact_bytecode_vm_backend}
use mcp_forth.Compiler.State.{Result, ok, err, undefined, Compiler, unterminated_control_flow}
use mcp_forth.Source.Scanner.{next_word}
use mcp_forth.Source.Names.{find_nstring}
use mcp_forth.Source.Literal.{parse_literal}
use mcp_forth.Compiler.State.{
  sequence_helper, add_to_sequence, create_fragment, is_word, update_nested_call,
}
use mcp_forth.Compiler.Definitions.{colon, semicolon}
use mcp_forth.Compiler.ControlFlow.{if_handler, begin_handler, again_handler}
use mcp_forth.Compiler.Source.{process_word, process_source, initial, move_loop, front_end}
use mcp_forth.Compiler.Sound.{IsSound, Safe}
use mcp_forth.Compiler.Sound.Program.{
  of_words, process_word-IsSound, initial-IsSound, move_loop-of_words, front_end-IsReady, IsReady,
  front_end-HasLayout, HasLayout,
}

-- : sq dup * ; begin 3 sq again
abbrev square_source : List ℕ
square_source = codes ": sq dup * ; begin 3 sq again"

front_end-IsReady_example : Safe IsReady (front_end compact_bytecode_vm_backend square_source)
front_end-IsReady_example = front_end-IsReady compact_bytecode_vm_backend square_source

front_end-HasLayout_example : Safe HasLayout (front_end compact_bytecode_vm_backend square_source)
front_end-HasLayout_example = front_end-HasLayout square_source

process_word-IsSound_example :
    Safe
      (IsSound 0 5)
      (process_word compact_bytecode_vm_backend (codes "if") (initial (codes " then")))
process_word-IsSound_example =
    process_word-IsSound compact_bytecode_vm_backend (codes "if") 5 (initial (codes " then"))
      (initial-IsSound (codes " then"))

abbrev fragment_of : Bool → Fragment
fragment_of inside = record {
  param = 0;
  position = 0;
  op = Opcode.execute;
  is_word_fragment = inside;
  ext_param = 0;
  relaxation = 0;
}

abbrev mixed : List Fragment
mixed = fragment_of false ∷ fragment_of true ∷ fragment_of false ∷ []

move_loop-of_words_example :
    move_loop mixed [] [] (0 ∷ 1 ∷ 2 ∷ [])
    ≡ ok (of_words false mixed (0 ∷ 1 ∷ 2 ∷ []) ++ of_words true mixed (0 ∷ 1 ∷ 2 ∷ []))
move_loop-of_words_example =
    move_loop-of_words mixed (0 ∷ 1 ∷ 2 ∷ []) (omega arith, (omega arith, (omega arith, tt)))

abbrev opcodes : Result Compiler → List Opcode
opcodes (ok c) = map (λ (f : Fragment). f.op) c.all_fragments
opcodes (err e) = []
opcodes undefined = []

abbrev order_of : Result Compiler → List ℕ
order_of (ok c) = c.sequence
order_of (err e) = []
order_of undefined = []

square_order :
    order_of (front_end compact_bytecode_vm_backend square_source)
    ≡ 0 ∷ 5 ∷ 6 ∷ 7 ∷ 8 ∷ 9 ∷ 1 ∷ 2 ∷ 3 ∷ 4 ∷ []
unfolding front_end next_word sequence_helper add_to_sequence create_fragment find_nstring is_word
    colon semicolon update_nested_call begin_handler parse_literal again_handler
square_order = refl

unclosed :
    process_source compact_bytecode_vm_backend 100 (initial (codes "if : x"))
    ≡ err unterminated_control_flow
unfolding process_source next_word initial sequence_helper add_to_sequence create_fragment
    find_nstring is_word if_handler colon
unclosed = refl

-- A string, a runtime word and a variable, and nothing compiled.
abbrev hi_string : DataString
hi_string = record { str = 104 ∷ 105 ∷ 34 ∷ []; len = 2 }

abbrev header_state : Compiler
header_state = record (initial []) {
  data_nstrings = hi_string ∷ [];
  runtime_word_nstrings = codes "TYPE" ∷ [];
  variable_nstrings = codes "x" ∷ [];
}

header_state-IsSound : IsSound 0 0 header_state
unfolding initial sequence_helper add_to_sequence create_fragment next_escaped_string
header_state-IsSound = Facts-string hi_string (initial-IsSound []) ([], refl)

header_state-HasCounts : HasCounts header_state (7 ∷ [])
unfolding strings_len initial sequence_helper add_to_sequence create_fragment
header_state-HasCounts = record {
  variables = omega arith;
  runtime = omega arith;
  data_len = omega arith;
  callback_count = omega arith;
  literal_count = omega arith;
  positions = (omega arith, tt);
}

length-dump_header_example :
    (bytes : List ℕ) × (dump_header header_state (7 ∷ []) ≡ some bytes)
    × (code_offset header_state (7 ∷ []) ≡ some (length bytes))
length-dump_header_example =
    length-dump_header 0 header_state (7 ∷ []) header_state-IsSound header_state-HasCounts

header_bytes :
    dump_header header_state (7 ∷ [])
    ≡ some (
        1 ∷ 1 ∷ 116 ∷ 121 ∷ 112 ∷ 101 ∷ 0 ∷ 3 ∷ 104 ∷ 105 ∷ 0 ∷ 0 ∷ 1 ∷ 0 ∷ 0 ∷ 0 ∷ 7 ∷ 0 ∷ 0 ∷ 0
        ∷ [])
unfolding dump_header num_encode initial sequence_helper add_to_sequence create_fragment
    dump_escaped_string strings_len
header_bytes = refl
