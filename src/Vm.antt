-- ===== src/Vm.antt =====
-- The bytecode engine, vm_engine.c: its state, and the macros that its code is written in.
-- The model is of a build with M4_NO_THREAD, on a little-endian machine whose `int` wraps.
pub mod Arith
pub mod Words
pub mod Step
pub mod Keeps
pub mod Bounds
pub mod Effects
pub mod Calls
pub mod Fetch
pub mod Jumps
mod Tests
use mcp_forth.Prelude.{
  ℕ, zero, suc, ◌+◌, ◌-◌, ◌*◌, ◌/◌, ◌%◌, Bool, true, false, Option, none, some, List, [], ◌∷◌, ltb,
  leb, ◌==◌, if◌then◌else◌, length, get_elem?, drop, add_word, sub_word, word_mod,
}
use mcp_forth.Num.{num_decode}

-- `m4_stack_t`: the cells, top first, and `max`. `len` is the number of cells, and `data` points
-- behind the top one.
pub record Stack : Type 0 where
  pub cells : List ℕ
  pub max : ℕ

-- The bytes that the process can read and write; `none` is an address that faults.
abbrev pub Memory : Type 0
Memory = ℕ → Option ℕ

-- `m4_runtime_cb_pair_t`: the literal callback `m4_lit` with its parameter, or another callback,
-- which gets the data stack and the memory and returns its error code.
pub data RuntimeCb : Type 0 where
  lit : ℕ → RuntimeCb
  call : (Stack → Memory → ℕ × Stack × Memory) → RuntimeCb

-- What lies in memory above a stack: the cell at each index from `data` up, where nothing of the state
-- says what it is; `none` is a cell that cannot be read.
pub record Slots : Type 0 where
  pub stack : ℕ → Option ℕ
  pub return_stack : ℕ → Option ℕ

-- What the program finds in place: the code, where it lies, the addresses of the generated callback
-- functions, and the fields of `ctx_t` that do not change while it runs.
pub record Env : Type 0 where
  pub code : List ℕ
  pub code_base : ℕ
  pub callback_targets : ℕ → ℕ
  pub runtime_cbs : List RuntimeCb
  pub data_start : ℕ
  pub memory_base : ℕ
  pub memory_len : ℕ
  pub callback_array_offset : ℕ
  pub total_extra_memory_size : ℕ
  pub slots : Slots

-- The fields of `ctx_t` that the program changes, and the memory. Pointers are 32-bit numbers.
pub record Ctx : Type 0 where
  pub stack : Stack
  pub return_stack : Stack
  pub return_stack_len_base : ℕ
  pub memory : ℕ
  pub variables_and_constants : List ℕ
  pub pc : ℕ
  pub heap : Memory

-- What a piece of the engine does: it goes on, it returns a code from `run_inner`, or it does what C
-- leaves undefined: a failed assertion, a bad address, a division trap.
pub data Outcome (A : Type 0) : Type 0 where
  next : A → Ctx → Outcome A
  done : ℕ → Ctx → Outcome A
  fault : Outcome A

abbrev pub M : Type 0 → Type 0
M A = Ctx → Outcome A

infixl 5 ◌>>=◌ ◌>>◌
unfoldable pub ◌>>=◌ : {A B : Type 0} → M A → (A → M B) → M B
◌>>=◌ m f c = elim (m c) [ next a c' ↦ f a c' | done code c' ↦ done code c' | fault ↦ fault ]

unfoldable pub ◌>>◌ : {B : Type 0} → M (Unit {0}) → M B → M B
unfolding ◌>>=◌
m >> k = m >>= λ _. k

unfoldable pub pure : {A : Type 0} → A → M A
pure a c = next a c

-- `return code;` from `run_inner`.
unfoldable pub return_code : {A : Type 0} → ℕ → M A
return_code code c = done code c

unfoldable pub crash : {A : Type 0} → M A
crash c = fault

unfoldable pub get : M Ctx
get c = next c c

-- What C leaves undefined where the option is `none`.
unfoldable pub defined : {A : Type 0} → Option A → M A
defined none c = fault
defined (some a) c = next a c

abbrev pub stack_underflow_error : ℕ
stack_underflow_error = 2

abbrev pub stack_overflow_error : ℕ
stack_overflow_error = 3

abbrev pub threads_not_enabled_error : ℕ
threads_not_enabled_error = 4

abbrev pub out_of_memory_error : ℕ
out_of_memory_error = 5

abbrev pub data_space_pointer_out_of_bounds_error : ℕ
data_space_pointer_out_of_bounds_error = 8

-- `pop` and `push` on one stack: its new state, or `none` where they return their error.
unfoldable pub pop_cells : Stack → Option (ℕ × Stack)
pop_cells s = elim s.cells [ [] ↦ none | x ∷ xs ↦ some (x, record s { cells = xs }) ]

unfoldable pub push_cell : ℕ → Stack → Option Stack
push_cell x s = if leb s.max (length s.cells) then none else some (record s { cells = x ∷ s.cells })

-- `POP`, `PUSH`, `RETURN_POP`, `RETURN_PUSH`
unfoldable pub pop : M ℕ
unfolding pop_cells
pop c = elim (pop_cells c.stack) [
  | none ↦ done stack_underflow_error c
  | some (x, s) ↦ next x (record c { stack = s })
]

unfoldable pub push : ℕ → M (Unit {0})
unfolding push_cell
push x c = elim (push_cell x c.stack) [
  | none ↦ done stack_overflow_error c
  | some s ↦ next tt (record c { stack = s })
]

unfoldable pub return_pop : M ℕ
unfolding pop_cells
return_pop c = elim (pop_cells c.return_stack) [
  | none ↦ done stack_underflow_error c
  | some (x, s) ↦ next x (record c { return_stack = s })
]

unfoldable pub return_push : ℕ → M (Unit {0})
unfolding push_cell
return_push x c = elim (push_cell x c.return_stack) [
  | none ↦ done stack_overflow_error c
  | some s ↦ next tt (record c { return_stack = s })
]

-- Assignments to one field of the context.
unfoldable pub set_memory : ℕ → M (Unit {0})
set_memory p c = next tt (record c { memory = p })

unfoldable pub set_pc : ℕ → M (Unit {0})
set_pc p c = next tt (record c { pc = p })

unfoldable pub set_base : ℕ → M (Unit {0})
set_base n c = next tt (record c { return_stack_len_base = n })

unfoldable pub set_return_stack : Stack → M (Unit {0})
set_return_stack s c = next tt (record c { return_stack = s })

unfoldable pub set_variables : List ℕ → M (Unit {0})
set_variables vs c = next tt (record c { variables_and_constants = vs })

-- A read or write of one byte; the writes of a wider value go byte by byte.
unfoldable pub load_byte : ℕ → M ℕ
load_byte a c = elim (c.heap (a % word_mod)) [ none ↦ fault | some b ↦ next b c ]

unfoldable pub store_byte : ℕ → ℕ → M (Unit {0})
store_byte a x c = elim (c.heap (a % word_mod)) [
  | none ↦ fault
  | some _ ↦
      next tt (record c { heap = λ p. if p == a % word_mod then some (x % 256) else c.heap p })
]

unfoldable pub load_half : ℕ → M ℕ
unfolding load_byte
load_half a = do b0 ← load_byte a; b1 ← load_byte (a + 1); pure (b0 + b1 * 256)

unfoldable pub store_half : ℕ → ℕ → M (Unit {0})
unfolding store_byte
store_half a x = do store_byte a x; store_byte (a + 1) (x / 256)

unfoldable pub load_cell : ℕ → M ℕ
unfolding load_half
load_cell a = do h0 ← load_half a; h1 ← load_half (a + 2); pure (h0 + h1 * 65536)

unfoldable pub store_cell : ℕ → ℕ → M (Unit {0})
unfolding store_half
store_cell a x = do store_half a x; store_half (a + 2) (x / 65536)

-- `pc_step`: the number at the program counter, which moves behind it. The code is read from
-- `code_base` on; outside it a read is undefined.
unfoldable pub pc_step : Env → M ℕ
pc_step env c =
    if ltb c.pc env.code_base
    then fault
    else elim (num_decode (drop (c.pc - env.code_base) env.code)) [
      | none ↦ fault
      | some (x, rest) ↦ next x (record c { pc = env.code_base + (length env.code - length rest) })
    ]
