-- ===== src/Header/Tests.antt =====
-- A header with a variable, a runtime word, a string, a callback and a literal: tests and witnesses.
use mcp_forth.Prelude.{
  ℕ, ◌+◌, ◌≡◌, refl, ◌≢◌, true, false, some, List, [], ◌∷◌, ◌++◌, map, arith, length, All, codes,
  bytes_eq,
}
use mcp_forth.Num.{num_decode, num_encode}
use mcp_forth.Fragment.{Fragment}
use mcp_forth.Source.Names.{to_lower}
use mcp_forth.Compiler.State.{DataString, Compiler}
use mcp_forth.Compiler.Binary.{strings_len, dump_header}
use mcp_forth.Header.{ok, error, missing, CbArray, find_word, Header, unpack_binary_header}
use mcp_forth.Compiler.Binary.Length.{HasCounts}
use mcp_forth.Header.RoundTrip.{HasRoom}
use mcp_forth.Fragment.{Opcode}
use mcp_forth.Source.Escape.{dump_escaped_string}
use mcp_forth.Header.{out_of_memory_error, too_many_callbacks_error}
use mcp_forth.Header.RoundTrip.{IsHeaderOf, unpack-dump_header}
use mcp_forth.Header.Errors.{unpack-missing}

abbrev square : Fragment
square = record {
  param = 0;
  position = 4;
  op = Opcode.defined_word_location;
  is_word_fragment = true;
  ext_param = 0x21;
  relaxation = 0;
}

abbrev hi_string : DataString
hi_string = record { str = 104 ∷ 105 ∷ 34 ∷ []; len = 2 }

abbrev state : Compiler
state = record {
  all_fragments = square ∷ [];
  sequence = 0 ∷ [];
  defined_word_nstrings = codes "sq" ∷ [];
  defined_word_fragments = 0 ∷ [];
  runtime_word_nstrings = codes "TYPE" ∷ [];
  data_nstrings = hi_string ∷ [];
  variable_nstrings = codes "x" ∷ [];
  control_flow_stack = [];
  defined_words_that_need_callbacks = 0 ∷ [];
  cur = [];
  defining_word = false;
}

abbrev header_bytes : List ℕ
header_bytes =
    1 ∷ 1 ∷ 116 ∷ 121 ∷ 112 ∷ 101 ∷ 0 ∷ 3 ∷ 104 ∷ 105 ∷ 0 ∷ 1 ∷ 3 ∷ 4 ∷ 1 ∷ 0 ∷ 7 ∷ 0 ∷ 0 ∷ 0 ∷ []

written_run : dump_header state (7 ∷ []) ≡ some header_bytes
unfolding dump_header num_encode dump_escaped_string strings_len
written_run = refl

-- Two arrays of runtime words, their pairs named by numbers.
abbrev arrays : List (CbArray ℕ)
arrays = ((codes "emit", 1) ∷ []) ∷ ((codes "bl", 2) ∷ (codes "type", 3) ∷ []) ∷ []

abbrev no_type : List (CbArray ℕ)
no_type = ((codes "emit", 1) ∷ []) ∷ []

abbrev code : List ℕ
code = 9 ∷ 9 ∷ 9 ∷ 9 ∷ []

unpack_run :
    unpack_binary_header 4096 (header_bytes ++ code) 8193 100 (some arrays) 8
    ≡ ok (record {
      callback_count = 1;
      variables = 8196;
      runtime_cbs_at = 8200;
      runtime_cbs = 3 ∷ [];
      data_start = 4104;
      callback_info_at = 8204;
      callback_info = 3 ∷ [];
      callback_words_locations_at = 8208;
      callback_words_locations = 4120 ∷ [];
      literals = 4112;
      program_start = 4116;
      memory_used_end = 8212;
    })
unfolding unpack_binary_header num_decode bytes_eq
unpack_run = refl

-- Too little memory, and too many callbacks.
memory_run :
    unpack_binary_header 4096 (header_bytes ++ code) 8193 18 (some arrays) 8
    ≡ error out_of_memory_error
unfolding unpack_binary_header num_decode bytes_eq
memory_run = refl

callbacks_run :
    unpack_binary_header 4096 (header_bytes ++ code) 8193 100 (some arrays) 0
    ≡ error too_many_callbacks_error
unfolding unpack_binary_header num_decode bytes_eq
callbacks_run = refl

state-HasCounts : HasCounts state (7 ∷ [])
unfolding strings_len
state-HasCounts = record {
  variables = omega arith;
  runtime = omega arith;
  data_len = omega arith;
  callback_count = omega arith;
  literal_count = omega arith;
  positions = (omega arith, tt);
}

state-HasRoom : HasRoom state 4096 (header_bytes ++ code) 8193 100
state-HasRoom = record {
  aligned = refl;
  binary_below = omega arith;
  memory_below = omega arith;
  memory_small = omega arith;
  room = omega arith;
}

nonzero : All (λ word. All (λ b. b ≢ 0) (map to_lower word)) (codes "TYPE" ∷ [])
nonzero = ((λ e. omega arith, (λ e. omega arith, (λ e. omega arith, (λ e. omega arith, tt)))), tt)

unpack-dump_header_example :
    (h : Header ℕ) × (unpack_binary_header 4096 (header_bytes ++ code) 8193 100 (some arrays) 8
      ≡ ok h)
    × IsHeaderOf state
        (7 ∷ [])
        4096
        (length header_bytes)
        (header_bytes ++ code)
        (8193 + 100)
        (3 ∷ [])
        h
unfolding find_word bytes_eq
unpack-dump_header_example =
    unpack-dump_header state (7 ∷ []) header_bytes code arrays (3 ∷ []) 4096 8193 100 8 written_run
      state-HasCounts nonzero (refl, tt) state-HasRoom (omega arith) (omega arith)

unpack-missing_example :
    unpack_binary_header 4096 (header_bytes ++ code) 8193 100 (some no_type) 8
    ≡ missing (codes "type")
unfolding find_word bytes_eq
unpack-missing_example =
    unpack-missing state (7 ∷ []) header_bytes code no_type [] [] [] (codes "TYPE") 4096 8193 100 8
      written_run state-HasCounts refl nonzero tt refl state-HasRoom
