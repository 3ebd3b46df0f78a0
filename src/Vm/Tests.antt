-- ===== src/Vm/Tests.antt =====
-- The engine: small programs run, and the theorems at concrete states.
mod Jumps
use mcp_forth.Prelude.{
  ◌==◌, ℕ, ◌+◌, ◌≡◌, refl, true, false, none, some, List, [], ◌∷◌, ◌++◌, arith, if◌then◌else◌,
  length, add_word, sub_word, slt,
}
use mcp_forth.Fragment.{
  fragment_at, Opcode, op_number, Fragment, builtin_word, push_literal, branch, branch_location,
}
use mcp_forth.VmBackend.{fragment_bin_is_representable, fragment_bin_dump}
use mcp_forth.VmBackend.Dump.{IsEncodable}
use mcp_forth.Num.{num_decode, num_encode, num_encoded_size_from_int}
use mcp_forth.Vm.{
  ◌>>=◌, get, push_cell, ◌>>◌, pop, defined, set_return_stack, return_pop, set_pc, set_base,
  pop_cells, pure, Env, Slots, Ctx, next, lit, Memory, push, pc_step,
}
use mcp_forth.Vm.Words
use mcp_forth.Vm.Step
use mcp_forth.Vm.Effects.{Matches, with_cells, binary, effects, run_builtin_effect}
use mcp_forth.Vm.Calls.{
  called, returning, looping, execute_case-called, exit_word_case-called, do_case-looping,
  loop_case-turn,
}
use mcp_forth.Vm.Fetch.{At, Compiled, moved, step-builtin, step-push_literal, step-branch}

-- begin 300 dup again, laid out
abbrev place : Fragment
place = record {
  param = 0;
  position = 0;
  op = branch_location;
  is_word_fragment = false;
  ext_param = 0;
  relaxation = 0;
}

abbrev three_hundred : Fragment
three_hundred = record {
  param = 300;
  position = 0;
  op = push_literal;
  is_word_fragment = false;
  ext_param = 0;
  relaxation = 0;
}

abbrev dup_fragment : Fragment
dup_fragment = record {
  param = 0;
  position = 3;
  op = builtin_word;
  is_word_fragment = false;
  ext_param = 0;
  relaxation = 0;
}

abbrev back : Fragment
back = record {
  param = 0;
  position = 4;
  op = branch;
  is_word_fragment = false;
  ext_param = 0;
  relaxation = 0;
}

abbrev fragments : List Fragment
fragments = place ∷ three_hundred ∷ dup_fragment ∷ back ∷ []

abbrev order : List ℕ
order = 0 ∷ 1 ∷ 2 ∷ 3 ∷ []

abbrev program : List ℕ
program = 3 ∷ 0xac ∷ 0x02 ∷ 22 ∷ 12 ∷ 0x43 ∷ []

abbrev blank : Memory
blank a = some 0

-- Above the data stack lies a 9 in every cell; above the return stack nothing can be read.
abbrev blank_slots : Slots
blank_slots = record { stack = λ i. some 9; return_stack = λ i. none }

abbrev pub env : Env
env = record {
  code = program;
  code_base = 1000;
  callback_targets = λ i. 0;
  runtime_cbs = lit 7 ∷ [];
  data_start = 2000;
  memory_base = 3000;
  memory_len = 100;
  callback_array_offset = 0;
  total_extra_memory_size = 0;
  slots = blank_slots;
}

abbrev pub start_at : ℕ → Ctx
start_at pc = record {
  stack = record { cells = 5 ∷ 4 ∷ []; max = 8 };
  return_stack = record { cells = []; max = 8 };
  return_stack_len_base = 0;
  memory = 3000;
  variables_and_constants = [];
  pc = pc;
  heap = blank;
}

run_one :
    Step.run_inner env (λ i. blank_slots) 3 (start_at 1000)
    ≡ Step.run_inner env
        (λ i. blank_slots)
        2
        (record (start_at 1003) { stack = record { cells = 300 ∷ 5 ∷ 4 ∷ []; max = 8 } })
unfolding Step.run_inner Step.step ◌>>=◌ get pc_step Step.dispatch Step.run_case Step.cases
    Step.push_literal_case push push_cell num_decode
run_one = refl

code_of :
    (i : ℕ) (pc : ℕ) (front bytes after : List ℕ) (f : Fragment)
    → fragment_at fragments order i ≡ some f
    → IsEncodable f
    → fragment_bin_is_representable fragments order i ≡ some true
    → fragment_bin_dump fragments order i ≡ some bytes
    → program ≡ front ++ (bytes ++ after)
    → pc ≡ 1000 + length front
    → Compiled env (start_at pc) fragments order i f after
code_of i pc front bytes after f found encodable representable dumped code pc_eq = record {
  bytes = bytes;
  found = found;
  encodable = encodable;
  representable = representable;
  dumped = dumped;
  placed = record { front = front; code_eq = code; pc_eq = pc_eq };
}

abbrev after_literal : List ℕ
after_literal = 22 ∷ 12 ∷ 0x43 ∷ []

literal-Compiled : Compiled env (start_at 1000) fragments order 1 three_hundred after_literal
unfolding fragment_bin_is_representable fragment_bin_dump num_encode num_encoded_size_from_int
    op_number
literal-Compiled =
    code_of 1 1000 [] (3 ∷ 0xac ∷ 0x02 ∷ []) after_literal three_hundred refl
      (record { param_word = omega arith; param_small = λ h. omega arith; relaxed = omega arith })
      refl refl refl refl

abbrev after_dup : List ℕ
after_dup = 12 ∷ 0x43 ∷ []

dup-Compiled : Compiled env (start_at 1003) fragments order 2 dup_fragment after_dup
unfolding fragment_bin_is_representable fragment_bin_dump num_encode num_encoded_size_from_int
    op_number
dup-Compiled =
    code_of 2 1003 (3 ∷ 0xac ∷ 0x02 ∷ []) (22 ∷ []) after_dup dup_fragment refl
      (record { param_word = omega arith; param_small = λ h. omega arith; relaxed = omega arith })
      refl refl refl refl

back-Compiled : Compiled env (start_at 1004) fragments order 3 back []
unfolding fragment_bin_is_representable fragment_bin_dump num_encode num_encoded_size_from_int
    op_number
back-Compiled =
    code_of 3 1004 (3 ∷ 0xac ∷ 0x02 ∷ 22 ∷ []) (12 ∷ 0x43 ∷ []) [] back refl
      (record { param_word = omega arith; param_small = λ h. omega arith; relaxed = omega arith })
      refl refl refl refl

step-push_literal_example :
    (pc : ℕ) × (Step.step env (start_at 1000) ≡ push 300 (moved (start_at 1000) pc))
    × At env (moved (start_at 1000) pc) after_literal
step-push_literal_example =
    step-push_literal env (start_at 1000) fragments order 1 three_hundred after_literal
      literal-Compiled refl

step-builtin_example :
    (pc : ℕ) × (Step.step env (start_at 1003) ≡ Words.run_builtin env 0 (moved (start_at 1003) pc))
    × At env (moved (start_at 1003) pc) after_dup
step-builtin_example =
    step-builtin env (start_at 1003) fragments order 2 dup_fragment after_dup dup-Compiled refl

step-branch_example : Step.step env (start_at 1004) ≡ next tt (moved (start_at 1004) (1000 + 0))
step-branch_example =
    step-branch env (start_at 1004) fragments order 3 back [] back-Compiled place refl refl
      (omega arith) (omega arith) refl

run_builtin_effect_example :
    Matches
      (binary sub_word (5 ∷ 4 ∷ []))
      (start_at 0)
      (Words.run_builtin env 1 (with_cells (start_at 0) (5 ∷ 4 ∷ [])))
unfolding effects
run_builtin_effect_example =
    run_builtin_effect env 1 (binary sub_word) (start_at 0) (5 ∷ 4 ∷ []) refl (omega arith)

exit_word_case-called_example :
    Step.exit_word_case env (returning (start_at 0) (start_at 900) 1005 900 (1 ∷ 2 ∷ []))
    ≡ next tt (record (start_at 900) {
      pc = 1005;
      return_stack = (start_at 0).return_stack;
      return_stack_len_base = 0;
    })
exit_word_case-called_example =
    exit_word_case-called env (start_at 0) (start_at 900) 1005 900 (1 ∷ 2 ∷ []) (λ h. omega arith)

-- A jump of -4 is read in front of the end of the program.
loop_operand :
    pc_step env (looping (start_at 1005) 9 3 []) ≡ next 0xfffffffc (looping (start_at 1006) 9 3 [])
unfolding pc_step num_decode
loop_operand = refl

loop_case-turn_example : Step.loop_case env 1004 (looping (start_at 1005) 9 3 []) ≡ (
    if slt (add_word 3 1) 9
    then next tt
        (looping (record (start_at 1006) { pc = add_word 1004 0xfffffffc }) 9 (add_word 3 1) [])
    else next tt (start_at 1006))
loop_case-turn_example =
    loop_case-turn env 1004 0xfffffffc 9 3 [] (looping (start_at 1005) 9 3 []) (start_at 1006)
      loop_operand (omega arith)

-- `-1 pick` pushes the -1 that it has popped.
pick_run :
    Words.run_builtin env 18 (with_cells (start_at 0) (0xffffffff ∷ 4 ∷ []))
    ≡ next tt (with_cells (start_at 0) (0xffffffff ∷ 4 ∷ []))
unfolding Words.run_builtin Words.words Words.pick_word Words.above_top ◌>>=◌ pop push push_cell get
    defined
pick_run = refl

-- An exit with the base above the stack brings back what lies there: here the address 1003.
exit_run :
    Step.exit_word_case
      (record env { slots = record { stack = λ i. none; return_stack = λ i. some (1003 + i) } })
      (record (start_at 0) { return_stack_len_base = 2 })
    ≡ next tt (record (start_at 1004) { return_stack_len_base = 1003 })
unfolding Step.exit_word_case Step.cut_return_stack Step.raised_cells ◌>>=◌ ◌>>◌ get defined
    set_return_stack return_pop set_pc set_base pop_cells pure
exit_run = refl
