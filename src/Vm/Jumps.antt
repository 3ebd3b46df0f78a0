-- ===== src/Vm/Jumps.antt =====
-- The compiled forms of calls and conditional branches in vm_engine.c.
use mcp_forth.Prelude.{
  ℕ, ◌+◌, ◌≤◌, ◌<◌, ◌≡◌, ap, ◌∙◌, subst, some, List, ◌∷◌, arith, ◌==◌, if◌then◌else◌, length,
  get_elem?, word_mod, add_word,
}
use mcp_forth.Fragment.{Fragment, Opcode, op_number}
use mcp_forth.VmBackend.{shape}
use mcp_forth.VmBackend.Dump.{Reads}
use mcp_forth.Vm.{
  Stack, Env, Ctx, next, pure, get, ◌>>=◌, ◌>>◌, pop, return_push, set_pc, set_base, pc_step,
}
use mcp_forth.Vm.Step
use mcp_forth.Vm.Calls.{called}
use mcp_forth.Vm.Fetch.{At, Compiled, moved, step-offset, compiled-Reads}

-- Reading a number looks at the program counter alone.
pc_step-return_stack :
    (env : Env) (c : Ctx) (s : Stack) {x pc : ℕ}
    → pc_step env c ≡ next x (moved c pc)
    → pc_step env (record c { return_stack = s })
      ≡ next x (moved (record c { return_stack = s }) pc)
unfolding pc_step
pc_step-return_stack env c s e = ground arith

pc_step-stack :
    (env : Env) (c : Ctx) (s : Stack) {x pc : ℕ}
    → pc_step env c ≡ next x (moved c pc)
    → pc_step env (record c { stack = s }) ≡ next x (moved (record c { stack = s }) pc)
unfolding pc_step
pc_step-stack env c s e = ground arith

-- A call pushes the base and the address behind it, and goes to its target.
pub defined_word_case-called :
    (env : Env) (pc_initial offset pc : ℕ) (c : Ctx)
    → pc_step env c ≡ next offset (moved c pc)
    → length c.return_stack.cells + 2 ≤ c.return_stack.max
    → Step.defined_word_case env pc_initial c ≡ next tt (called c pc (add_word pc_initial offset))
unfolding Step.defined_word_case Step.mark_base Step.jump ◌>>=◌ ◌>>◌ get return_push set_pc set_base
defined_word_case-called env pc_initial offset pc c e h =
    let s : Stack = record c.return_stack {
      cells = c.return_stack_len_base ∷ c.return_stack.cells;
    } in
    let p = pc_step-return_stack env c s e in ground (arith, p)

pub branch_if_zero_case-decided :
    (env : Env) (pc_initial offset pc x : ℕ) (xs : List ℕ) (c : Ctx)
    → c.stack.cells ≡ x ∷ xs
    → pc_step env c ≡ next offset (moved c pc)
    → Step.branch_if_zero_case env pc_initial c
      ≡ next tt (
          moved
            (record c { stack = record c.stack { cells = xs } })
            (if x == 0 then add_word pc_initial offset else pc))
unfolding Step.branch_if_zero_case Step.jump ◌>>=◌ ◌>>◌ pop set_pc pure
branch_if_zero_case-decided env pc_initial offset pc x xs c e₀ e =
    let s : Stack = record c.stack { cells = xs } in
    let p = pc_step-stack env c s e in ground (arith, p)

module _ (env : Env) (c : Ctx) (all : List Fragment) (sequence : List ℕ) (i : ℕ) (f : Fragment)
    (after : List ℕ) (k : Compiled env c all sequence i f after) (target : Fragment)
    (aims : get_elem? all f.param ≡ some target) (here : c.pc ≡ env.code_base + f.position)
    (fits : env.code_base + f.position < word_mod)
    (fits' : env.code_base + target.position < word_mod) where
  -- For an encodable fragment whose bytes lie at the program counter, in code that ends below 2 ^ 32, and
  -- with room for two cells on the return stack: the engine runs the compiled form of a call by going to
  -- where the definition has been laid out; what it pushes is the base and the address right behind the
  -- call, which is where an exit then goes on.
  pub step-defined_word :
      f.op ≡ Opcode.defined_word
      → length c.return_stack.cells + 2 ≤ c.return_stack.max
      → (pc : ℕ) × (Step.step env c ≡ next tt (called c pc (env.code_base + target.position)))
        × At env (moved c pc) after
  unfolding shape op_number Step.run_case Step.cases
  step-defined_word e room =
      let read = compiled-Reads env c all sequence i f after k in
      let r = subst (λ o. Reads (shape o) all f k.bytes after) e read in
      let (mid, pc, offset, run, run', leads, at) =
        step-offset env c all sequence i f after k target aims here fits fits' r in
      (
        pc,
        run
            ∙ ap (λ o. Step.run_case env c.pc (op_number o) (moved c mid)) e
            ∙ defined_word_case-called env c.pc offset pc (moved c mid) run' room
            ∙ ap (λ p. next tt (called c pc p)) leads,
        at,
      )

  -- For an encodable fragment whose bytes lie at the program counter, in code that ends below 2 ^ 32, and
  -- with a cell on the stack: the engine runs the compiled form of a conditional branch by taking the top cell off the stack: on
  -- zero it goes to where the named fragment has been laid out, else it stands behind the branch.
  pub step-branch_if_zero :
      (x : ℕ) (xs : List ℕ)
      → f.op ≡ Opcode.branch_if_zero
      → c.stack.cells ≡ x ∷ xs
      → (pc : ℕ) × (Step.step env c
          ≡ next tt (
              moved
                (record c { stack = record c.stack { cells = xs } })
                (if x == 0 then env.code_base + target.position else pc)))
        × At env (moved c pc) after
  unfolding shape op_number Step.run_case Step.cases
  step-branch_if_zero x xs e cells =
      let read = compiled-Reads env c all sequence i f after k in
      let r = subst (λ o. Reads (shape o) all f k.bytes after) e read in
      let (mid, pc, offset, run, run', leads, at) =
        step-offset env c all sequence i f after k target aims here fits fits' r in
      let d : Ctx = record c { stack = record c.stack { cells = xs } } in
      (
        pc,
        run
            ∙ ap (λ o. Step.run_case env c.pc (op_number o) (moved c mid)) e
            ∙ branch_if_zero_case-decided env c.pc offset pc x xs (moved c mid) cells run'
            ∙ ap (λ p. next tt (moved d (if x == 0 then p else pc))) leads,
        at,
      )
