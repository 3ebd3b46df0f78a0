-- ===== src/Vm/Tests/Jumps.antt =====
-- The engine: calls and conditional branches, at concrete states.
use mcp_forth.Prelude.{ℕ, ◌+◌, ◌≡◌, refl, true, List, [], ◌∷◌, arith, ◌==◌, if◌then◌else◌}
use mcp_forth.Fragment.{Opcode, op_number, Fragment}
use mcp_forth.VmBackend.{fragment_bin_is_representable, fragment_bin_dump}
use mcp_forth.Num.{num_encode, num_encoded_size_from_int}
use mcp_forth.Vm.{Env, next}
use mcp_forth.Vm.Step
use mcp_forth.Vm.Calls.{called}
use mcp_forth.Vm.Jumps.{step-defined_word, step-branch_if_zero}
use mcp_forth.Vm.Fetch.{At, Compiled, moved}
use mcp_forth.Vm.Tests.{env, start_at}

-- A word that calls itself, and a branch back to its start.
abbrev start_fragment : Fragment
start_fragment = record {
  param = 0;
  position = 0;
  op = Opcode.defined_word_location;
  is_word_fragment = true;
  ext_param = 0;
  relaxation = 0;
}

abbrev call_fragment : Fragment
call_fragment = record start_fragment { op = Opcode.defined_word }

abbrev zero_fragment : Fragment
zero_fragment = record start_fragment { op = Opcode.branch_if_zero; position = 2 }

abbrev jumps : List Fragment
jumps = start_fragment ∷ call_fragment ∷ zero_fragment ∷ []

abbrev jump_env : Env
jump_env = record env { code = 1 ∷ 0 ∷ 11 ∷ 0x41 ∷ [] }

abbrev after_call : List ℕ
after_call = 11 ∷ 0x41 ∷ []

call-Compiled : Compiled jump_env (start_at 1000) jumps (0 ∷ 1 ∷ 2 ∷ []) 1 call_fragment after_call
unfolding fragment_bin_is_representable fragment_bin_dump num_encode num_encoded_size_from_int
    op_number
call-Compiled = record {
  bytes = 1 ∷ 0 ∷ [];
  found = refl;
  encodable = record {
    param_word = omega arith;
    param_small = λ h. omega arith;
    relaxed = omega arith;
  };
  representable = refl;
  dumped = refl;
  placed = record { front = []; code_eq = refl; pc_eq = refl };
}

zero-Compiled : Compiled jump_env (start_at 1002) jumps (0 ∷ 1 ∷ 2 ∷ []) 2 zero_fragment []
unfolding fragment_bin_is_representable fragment_bin_dump num_encode num_encoded_size_from_int
    op_number
zero-Compiled = record {
  bytes = 11 ∷ 0x41 ∷ [];
  found = refl;
  encodable = record {
    param_word = omega arith;
    param_small = λ h. omega arith;
    relaxed = omega arith;
  };
  representable = refl;
  dumped = refl;
  placed = record { front = 1 ∷ 0 ∷ []; code_eq = refl; pc_eq = refl };
}

step-defined_word_example :
    (pc : ℕ) × (Step.step jump_env (start_at 1000) ≡ next tt (called (start_at 1000) pc (1000 + 0)))
    × At jump_env (moved (start_at 1000) pc) after_call
step-defined_word_example =
    step-defined_word jump_env (start_at 1000) jumps (0 ∷ 1 ∷ 2 ∷ []) 1 call_fragment after_call
      call-Compiled start_fragment refl refl (omega arith) (omega arith) refl (omega arith)

step-branch_if_zero_example :
    (pc : ℕ) × (Step.step jump_env (start_at 1002)
      ≡ next tt (
          moved
            (record (start_at 1002) { stack = record { cells = 4 ∷ []; max = 8 } })
            (if 5 == 0 then 1000 + 0 else pc)))
    × At jump_env (moved (start_at 1002) pc) []
step-branch_if_zero_example =
    step-branch_if_zero jump_env (start_at 1002) jumps (0 ∷ 1 ∷ 2 ∷ []) 2 zero_fragment []
      zero-Compiled start_fragment refl refl (omega arith) (omega arith) 5 (4 ∷ []) refl refl
