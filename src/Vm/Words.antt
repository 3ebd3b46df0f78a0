-- ===== src/Vm/Words.antt =====
-- The builtin words of vm_engine.c: the cases of the inner `switch`, in its order, each under the word's
-- name. The operands are popped and pushed in the source's order, so its errors come as they do there.
use mcp_forth.Prelude.{
  ℕ, bit_and, bit_or, bit_xor, not, none, some, List, [], ◌∷◌, leb, ◌==◌, if◌then◌else◌, length,
  get_elem?, is_negative, minus_one, Option, invert, add_word, sub_word, mul_word, slt, sle,
}
use mcp_forth.Vm.{
  Env, M, pure, return_code, crash, get, defined, ◌>>=◌, ◌>>◌, pop, push, return_pop, return_push,
  set_memory, load_byte, store_byte, load_half, store_half, load_cell, store_cell,
  stack_underflow_error, out_of_memory_error, data_space_pointer_out_of_bounds_error,
}
use mcp_forth.Header.{bytes_remaining, m4_align}
use mcp_forth.Vm.Arith.{flag, negate, div_int, rem_int, halve, shift_left, shift_right}

-- `if(m4_bytes_remaining(…) < n) return M4_OUT_OF_MEMORY_ERROR;` in front of the words that end in a comma.
unfoldable pub reserve : Env → ℕ → M (Unit {0})
reserve env n = do
  c ← get
  if slt (bytes_remaining env.memory_base c.memory env.memory_len) n
      then return_code out_of_memory_error
      else pure tt

-- `if(m4_bytes_remaining(…) < 0) return M4_OUT_OF_MEMORY_ERROR;` behind a move of the pointer.
unfoldable pub check_memory : Env → M (Unit {0})
check_memory env = do
  c ← get
  if is_negative (bytes_remaining env.memory_base c.memory env.memory_len)
      then return_code out_of_memory_error
      else pure tt

unfoldable pub dup_word : M (Unit {0})
dup_word = do x ← pop; push x; push x

unfoldable pub minus_word : M (Unit {0})
minus_word = do r ← pop; l ← pop; push (sub_word l r)

unfoldable pub greater_word : M (Unit {0})
greater_word = do r ← pop; l ← pop; push (flag (slt r l))

unfoldable pub plus_word : M (Unit {0})
plus_word = do r ← pop; l ← pop; push (add_word l r)

unfoldable pub equal_word : M (Unit {0})
equal_word = do r ← pop; l ← pop; push (flag (l == r))

unfoldable pub over_word : M (Unit {0})
over_word = do a ← pop; b ← pop; push b; push a; push b

unfoldable pub mod_word : M (Unit {0})
mod_word = do r ← pop; l ← pop; x ← defined (rem_int l r); push x

unfoldable pub drop_word : M (Unit {0})
drop_word = do x ← pop; pure tt

unfoldable pub swap_word : M (Unit {0})
swap_word = do a ← pop; b ← pop; push a; push b

unfoldable pub times_word : M (Unit {0})
times_word = do r ← pop; l ← pop; push (mul_word l r)

unfoldable pub allot_word : Env → M (Unit {0})
allot_word env = do
  x ← pop
  c ← get
  let p = add_word c.memory x
  set_memory p
  let remaining = bytes_remaining env.memory_base p env.memory_len
  if is_negative remaining
      then return_code out_of_memory_error
      else if slt env.total_extra_memory_size remaining
      then return_code data_space_pointer_out_of_bounds_error
      else pure tt

unfoldable pub one_plus_word : M (Unit {0})
one_plus_word = do x ← pop; push (add_word x 1)

unfoldable pub invert_word : M (Unit {0})
invert_word = do x ← pop; push (invert x)

unfoldable pub zero_equal_word : M (Unit {0})
zero_equal_word = do x ← pop; push (flag (x == 0))

unfoldable pub i_word : M (Unit {0})
i_word = do c ← get; x ← defined (get_elem? c.return_stack.cells 0); push x

unfoldable pub j_word : M (Unit {0})
j_word = do c ← get; x ← defined (get_elem? c.return_stack.cells 2); push x

unfoldable pub one_minus_word : M (Unit {0})
one_minus_word = do x ← pop; push (sub_word x 1)

unfoldable pub rot_word : M (Unit {0})
rot_word = do x3 ← pop; x2 ← pop; x1 ← pop; push x2; push x3; push x1

-- `data[-n - 1]` for a negative `n`: at -1 the cell that was popped, and else what lies above it.
unfoldable pub above_top : Env → ℕ → Option ℕ
above_top env n = if n == minus_one then some n else env.slots.stack (invert n)

-- The only test of the index is `len <= n`, which a negative one passes.
unfoldable pub pick_word : Env → M (Unit {0})
unfolding above_top
pick_word env = do
  n ← pop
  c ← get
  if is_negative n
      then (do x ← defined (above_top env n); push x)
      else if leb (length c.stack.cells) n
      then return_code stack_underflow_error
      else (do x ← defined (get_elem? c.stack.cells n); push x)

unfoldable pub xor_word : M (Unit {0})
xor_word = do r ← pop; l ← pop; push (bit_xor l r)

unfoldable pub lshift_word : M (Unit {0})
lshift_word = do r ← pop; l ← pop; x ← defined (shift_left l r); push x

unfoldable pub rshift_word : M (Unit {0})
rshift_word = do r ← pop; l ← pop; x ← defined (shift_right l r); push x

unfoldable pub less_word : M (Unit {0})
less_word = do r ← pop; l ← pop; push (flag (slt l r))

unfoldable pub greater_equal_word : M (Unit {0})
greater_equal_word = do r ← pop; l ← pop; push (flag (sle r l))

unfoldable pub less_equal_word : M (Unit {0})
less_equal_word = do r ← pop; l ← pop; push (flag (sle l r))

unfoldable pub or_word : M (Unit {0})
or_word = do r ← pop; l ← pop; push (bit_or l r)

unfoldable pub and_word : M (Unit {0})
and_word = do r ← pop; l ← pop; push (bit_and l r)

unfoldable pub depth_word : M (Unit {0})
depth_word = do c ← get; push (length c.stack.cells)

unfoldable pub c_store_word : M (Unit {0})
c_store_word = do addr ← pop; chr ← pop; store_byte addr chr

unfoldable pub c_fetch_word : M (Unit {0})
c_fetch_word = do addr ← pop; x ← load_byte addr; push x

unfoldable pub zero_less_word : M (Unit {0})
zero_less_word = do x ← pop; push (flag (is_negative x))

unfoldable pub store_word : M (Unit {0})
store_word = do addr ← pop; x ← pop; store_cell addr x

unfoldable pub fetch_word : M (Unit {0})
fetch_word = do addr ← pop; x ← load_cell addr; push x

unfoldable pub c_comma_word : Env → M (Unit {0})
unfolding reserve
c_comma_word env = do
  reserve env 1
  chr ← pop
  c ← get
  store_byte c.memory chr
  set_memory (add_word c.memory 1)

unfoldable pub here_word : M (Unit {0})
here_word = do c ← get; push c.memory

unfoldable pub max_word : M (Unit {0})
max_word = do r ← pop; l ← pop; push (if slt r l then l else r)

unfoldable pub two_times_word : M (Unit {0})
two_times_word = do x ← pop; push (mul_word x 2)

unfoldable pub two_drop_word : M (Unit {0})
two_drop_word = do x ← pop; y ← pop; pure tt

unfoldable pub tuck_word : M (Unit {0})
tuck_word = do x2 ← pop; x1 ← pop; push x2; push x1; push x2

unfoldable pub cell_plus_word : M (Unit {0})
cell_plus_word = do x ← pop; push (add_word x 4)

unfoldable pub align_word : Env → M (Unit {0})
unfolding check_memory
align_word env = do c ← get; set_memory (m4_align c.memory); check_memory env

unfoldable pub comma_word : Env → M (Unit {0})
unfolding reserve
comma_word env = do
  reserve env 4
  x ← pop
  c ← get
  store_cell c.memory x
  set_memory (add_word c.memory 4)

unfoldable pub question_dup_word : M (Unit {0})
question_dup_word = do x ← pop; push x; if x == 0 then pure tt else push x

unfoldable pub not_equal_word : M (Unit {0})
not_equal_word = do r ← pop; l ← pop; push (flag (not (l == r)))

unfoldable pub to_r_word : M (Unit {0})
to_r_word = do x ← pop; return_push x

unfoldable pub r_from_word : M (Unit {0})
r_from_word = do x ← return_pop; push x

unfoldable pub two_to_r_word : M (Unit {0})
two_to_r_word = do r ← pop; l ← pop; return_push l; return_push r

unfoldable pub two_r_from_word : M (Unit {0})
two_r_from_word = do r ← return_pop; l ← return_pop; push l; push r

unfoldable pub two_div_word : M (Unit {0})
two_div_word = do x ← pop; push (halve x)

unfoldable pub two_dup_word : M (Unit {0})
two_dup_word = do r ← pop; l ← pop; push l; push r; push l; push r

unfoldable pub zero_not_equal_word : M (Unit {0})
zero_not_equal_word = do x ← pop; push (flag (not (x == 0)))

unfoldable pub zero_greater_word : M (Unit {0})
zero_greater_word = do x ← pop; push (flag (slt 0 x))

unfoldable pub w_fetch_word : M (Unit {0})
w_fetch_word = do addr ← pop; x ← load_half addr; push x

unfoldable pub w_store_word : M (Unit {0})
w_store_word = do addr ← pop; chr ← pop; store_half addr chr

unfoldable pub plus_store_word : M (Unit {0})
plus_store_word = do addr ← pop; n ← pop; x ← load_cell addr; store_cell addr (add_word x n)

unfoldable pub div_word : M (Unit {0})
div_word = do r ← pop; l ← pop; x ← defined (div_int l r); push x

unfoldable pub cells_word : M (Unit {0})
cells_word = do x ← pop; push (mul_word x 4)

unfoldable pub nip_word : M (Unit {0})
nip_word = do top ← pop; next_cell ← pop; push top

unfoldable pub min_word : M (Unit {0})
min_word = do r ← pop; l ← pop; push (if slt l r then l else r)

unfoldable pub abs_word : M (Unit {0})
abs_word = do x ← pop; push (if is_negative x then negate x else x)

unfoldable pub r_fetch_word : M (Unit {0})
r_fetch_word = do a ← return_pop; return_push a; push a

unfoldable pub w_comma_word : Env → M (Unit {0})
unfolding reserve
w_comma_word env = do
  reserve env 2
  x ← pop
  c ← get
  store_half c.memory x
  set_memory (add_word c.memory 2)

unfoldable pub negate_word : M (Unit {0})
negate_word = do x ← pop; push (negate x)

-- The cases, by their number.
unfoldable pub words : Env → List (M (Unit {0}))
unfolding dup_word minus_word greater_word plus_word equal_word over_word mod_word drop_word
    swap_word times_word allot_word one_plus_word invert_word zero_equal_word i_word j_word
    one_minus_word rot_word pick_word xor_word lshift_word rshift_word less_word greater_equal_word
    less_equal_word or_word and_word depth_word c_store_word c_fetch_word zero_less_word store_word
    fetch_word c_comma_word here_word max_word two_times_word two_drop_word tuck_word cell_plus_word
    align_word comma_word question_dup_word not_equal_word to_r_word r_from_word two_to_r_word
    two_r_from_word two_div_word two_dup_word zero_not_equal_word zero_greater_word w_fetch_word
    w_store_word plus_store_word div_word cells_word nip_word min_word abs_word r_fetch_word
    w_comma_word negate_word
words env =
    dup_word
    ∷ minus_word
    ∷ greater_word
    ∷ plus_word
    ∷ equal_word
    ∷ over_word
    ∷ mod_word
    ∷ drop_word
    ∷ swap_word
    ∷ times_word
    ∷ allot_word env
    ∷ one_plus_word
    ∷ invert_word
    ∷ zero_equal_word
    ∷ i_word
    ∷ j_word
    ∷ one_minus_word
    ∷ rot_word
    ∷ pick_word env
    ∷ xor_word
    ∷ lshift_word
    ∷ rshift_word
    ∷ less_word
    ∷ greater_equal_word
    ∷ less_equal_word
    ∷ or_word
    ∷ and_word
    ∷ depth_word
    ∷ c_store_word
    ∷ c_fetch_word
    ∷ zero_less_word
    ∷ store_word
    ∷ fetch_word
    ∷ c_comma_word env
    ∷ here_word
    ∷ max_word
    ∷ two_times_word
    ∷ two_drop_word
    ∷ tuck_word
    ∷ cell_plus_word
    ∷ align_word env
    ∷ comma_word env
    ∷ question_dup_word
    ∷ not_equal_word
    ∷ to_r_word
    ∷ r_from_word
    ∷ two_to_r_word
    ∷ two_r_from_word
    ∷ two_div_word
    ∷ two_dup_word
    ∷ zero_not_equal_word
    ∷ zero_greater_word
    ∷ w_fetch_word
    ∷ w_store_word
    ∷ plus_store_word
    ∷ div_word
    ∷ cells_word
    ∷ nip_word
    ∷ min_word
    ∷ abs_word
    ∷ r_fetch_word
    ∷ w_comma_word env
    ∷ negate_word
    ∷ []

-- `switch (builtin_num)`; the default is a failed assertion.
unfoldable pub run_builtin : Env → ℕ → M (Unit {0})
unfolding words
run_builtin env builtin_num = elim (get_elem? (words env) builtin_num) [
  | none ↦ crash
  | some word ↦ word
]
