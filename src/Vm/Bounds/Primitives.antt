-- ===== src/Vm/Bounds/Primitives.antt =====
-- The bounds of both stacks of vm_engine.c under the macros, and the reads and writes of memory.
use mcp_forth.Prelude.{ℕ, Bool, true, ◌≤◌, ◌≡◌, List, arith, length}
use mcp_forth.Vm.{
  Env, Ctx, pop, push, return_pop, return_push, set_memory, set_pc, set_base, set_variables,
  load_byte, store_byte, load_half, store_half, load_cell, store_cell, pc_step,
}
use mcp_forth.Vm.Words
use mcp_forth.Vm.Keeps.{Post, Keeps, keeps_rules, Keeps-bind, Each, none_left, ◌&◌, Each-get_elem?}

-- The data stack holds at most its maximum, which is `d`; and so does the return stack, if `calm` says so,
-- of its maximum `r`.
pub record IsBounded (d r : ℕ) (calm : Bool) (c : Ctx) : Type 0 where
  pub stack_max : c.stack.max ≡ d
  pub return_max : c.return_stack.max ≡ r
  pub stack_fits : length c.stack.cells ≤ d
  pub return_fits : calm ≡ true → length c.return_stack.cells ≤ r

module _ {d r : ℕ} {calm : Bool} where
  pub Keeps-pop : Keeps (IsBounded d r calm) pop
  unfolding pop
  Keeps-pop = record { from_state = λ c b. ground arith }

  pub Keeps-push : (x : ℕ) → Keeps (IsBounded d r calm) (push x)
  unfolding push
  Keeps-push x = record { from_state = λ c b. ground arith }

  pub Keeps-return_pop : Keeps (IsBounded d r calm) return_pop
  unfolding return_pop
  Keeps-return_pop = record { from_state = λ c b. ground arith }

  pub Keeps-return_push : (x : ℕ) → Keeps (IsBounded d r calm) (return_push x)
  unfolding return_push
  Keeps-return_push x = record { from_state = λ c b. ground arith }

  pub Keeps-set_memory : (p : ℕ) → Keeps (IsBounded d r calm) (set_memory p)
  unfolding set_memory
  Keeps-set_memory p = record { from_state = λ c b. ground arith }

  pub Keeps-set_pc : (p : ℕ) → Keeps (IsBounded d r calm) (set_pc p)
  unfolding set_pc
  Keeps-set_pc p = record { from_state = λ c b. ground arith }

  pub Keeps-set_base : (n : ℕ) → Keeps (IsBounded d r calm) (set_base n)
  unfolding set_base
  Keeps-set_base n = record { from_state = λ c b. ground arith }

  pub Keeps-set_variables : (vs : List ℕ) → Keeps (IsBounded d r calm) (set_variables vs)
  unfolding set_variables
  Keeps-set_variables vs = record { from_state = λ c b. ground arith }

  pub Keeps-load_byte : (a : ℕ) → Keeps (IsBounded d r calm) (load_byte a)
  unfolding load_byte
  Keeps-load_byte a = record { from_state = λ c b. ground arith }

  pub Keeps-store_byte : (a x : ℕ) → Keeps (IsBounded d r calm) (store_byte a x)
  unfolding store_byte
  Keeps-store_byte a x = record { from_state = λ c b. ground arith }

  pub Keeps-pc_step : (env : Env) → Keeps (IsBounded d r calm) (pc_step env)
  unfolding pc_step
  Keeps-pc_step env = record { from_state = λ c b. ground arith }

  pub ruleset primitives = (
    keeps_rules, Keeps-pop, Keeps-push, Keeps-return_pop, Keeps-return_push, Keeps-set_memory,
    Keeps-set_pc, Keeps-set_base, Keeps-set_variables, Keeps-load_byte, Keeps-store_byte,
    Keeps-pc_step,
  )

  pub Keeps-load_half : (a : ℕ) → Keeps (IsBounded d r calm) (load_half a)
  unfolding load_half
  Keeps-load_half a = search primitives

  pub Keeps-load_cell : (a : ℕ) → Keeps (IsBounded d r calm) (load_cell a)
  unfolding load_cell
  Keeps-load_cell a = search (primitives, Keeps-load_half)

  pub Keeps-store_half : (a x : ℕ) → Keeps (IsBounded d r calm) (store_half a x)
  unfolding store_half
  Keeps-store_half a x = search primitives

  pub Keeps-store_cell : (a x : ℕ) → Keeps (IsBounded d r calm) (store_cell a x)
  unfolding store_cell
  Keeps-store_cell a x = search (primitives, Keeps-store_half)

  pub Keeps-reserve : (env : Env) (n : ℕ) → Keeps (IsBounded d r calm) (Words.reserve env n)
  unfolding Words.reserve
  Keeps-reserve env n = search primitives

  pub Keeps-check_memory : (env : Env) → Keeps (IsBounded d r calm) (Words.check_memory env)
  unfolding Words.check_memory
  Keeps-check_memory env = search primitives

  pub ruleset memory_rules = (
    primitives, Keeps-load_half, Keeps-load_cell, Keeps-store_half, Keeps-store_cell, Keeps-reserve,
    Keeps-check_memory,
  )
