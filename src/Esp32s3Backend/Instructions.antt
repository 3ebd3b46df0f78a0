-- ===== src/Esp32s3Backend/Instructions.antt =====
-- The code of an instruction has the size that was counted for it: `fragment_bin_size` and
-- `fragment_bin_dump` of esp32s3_backend.c.
use mcp_forth.Prelude.{
  ℕ, ◌+◌, ◌*◌, ◌%◌, ◌<◌, bit_and, bit_or, ◌≡◌, refl, sym, ap, ◌∙◌, inl, inr, Bool, true, false,
  Option, some, List, [], ◌∷◌, ◌++◌, arith, leb, ◌==◌, if◌then◌else◌, Bool-cases, length,
  length-append, mul_word,
}
use mcp_forth.Fragment.{
  Opcode, builtin_word, defined_word, runtime_word, push_literal, exit_word, defined_word_location,
  push_data_address, declare_variable, use_variable_or_constant, halt, branch_location,
  branch_if_zero, branch, do_loop, loop, push_offset_address, push_callback, declare_constant,
  execute, thread_create, thread_join, entry, Fragment,
}
use mcp_forth.X86Backend.{Generated}
use mcp_forth.Esp32s3Backend.{
  cs, dp, va, n4, dt, s0, data_offset_in_cs, minus, is_reg, l32i_n, s32i_n, add_n, le3, callx0,
  mov_n, movi_n, addi_n, l32i, addi, and_reg,
}
use mcp_forth.Esp32s3Backend.Auto.{
  S, ◌>>=◌, pure, lift, s32i_l32i_auto_size, both, s32i_l32i_auto, movi_auto_size, movi_auto,
  addi_auto_size, addi_auto,
}
use mcp_forth.Esp32s3Backend.Flags.{call_size, location_size, size_of}
use mcp_forth.Esp32s3Backend.Dump.{
  chain, dump_location, dump_callx0, dump_execute, dump_of, store_variable,
}
use mcp_forth.Esp32s3Backend.Lengths.{Writes, s32i_l32i_auto-total}
use mcp_forth.Esp32s3Backend.Moves.{movi_auto-total}
use mcp_forth.Esp32s3Backend.Literals.{bind-some}
use mcp_forth.Esp32s3Backend.Adds.{addi_auto-total}

-- What needs no other fragment, and no generated code, and is not a callback.
unfoldable pub is_plain : Opcode → Bool
is_plain builtin_word = false
is_plain defined_word = false
is_plain exit_word = false
is_plain branch_if_zero = false
is_plain branch = false
is_plain loop = false
is_plain push_offset_address = false
is_plain push_callback = false
is_plain _ = true

-- The parameter is the index of a variable's cell.
unfoldable pub uses_cell : Opcode → Bool
uses_cell declare_variable = true
uses_cell use_variable_or_constant = true
uses_cell declare_constant = true
uses_cell _ = false

dump_callx0-total : (pos : ℕ) → Writes (dump_callx0 pos) (call_size pos)
unfolding dump_callx0 chain callx0 both le3
dump_callx0-total pos = elim (Bool-cases (leb ((pos + 3) % 4) 1)) [
  | inl h ↦ rw (h) (_, refl, refl)
  | inr h ↦ rw (h) (_, refl, refl)
]

-- The size of the call of `execute`, whose two instructions before the call may be wide.
abbrev execute_size : ℕ → ℕ
execute_size pos = 6 + (if leb ((pos + 3) % 4) 1 then 3 else 5)

dump_execute-total : (pos : ℕ) → Writes (dump_execute pos) (execute_size (pos + 2 + 4))
unfolding dump_execute chain mov_n l32i_n add_n l32i addi callx0 both le3
dump_execute-total pos = elim (Bool-cases (leb ((pos + 2 + 4 + 3) % 4) 1)) [
  | inl h ↦ rw (dump_execute, h) (_, refl, refl)
  | inr h ↦ rw (dump_execute, h) (_, refl, refl)
]

dump_location-total : (param : ℕ) → Writes (dump_location param) (location_size param)
unfolding dump_location chain mov_n s32i_n addi_n both location_size
dump_location-total param = elim (Bool-cases (param == 1)) [
  | inl h1 ↦ rw (h1) (_, refl, refl)
  | inr h1 ↦ elim (Bool-cases (param == 2)) [
    | inl h2 ↦ rw (h1, h2) (_, refl, refl)
    | inr h2 ↦ elim (Bool-cases (param == 3)) [
      | inl h3 ↦ rw (h1, h2, h3) (_, refl, refl)
      | inr h3 ↦ rw (h1, h2, h3) (_, refl, refl)
    ]
  ]
]

-- The same size and the same pool of literals.
abbrev pub Agrees : S (List ℕ) → S ℕ → List ℕ → Type 0
Agrees code size pool =
    (bytes : List ℕ) × (more : List ℕ) × (code pool ≡ some (bytes, more))
    × (size pool ≡ some (length bytes, more))

lift-Agrees :
    (code : Option (List ℕ)) (size : ℕ) (pool : List ℕ)
    → Writes code size
    → Agrees (lift code) (pure size) pool
lift-Agrees code size pool (bytes, e, l) =
    (bytes, pool, ap (λ code. lift code pool) e, ap (λ n. some (n, pool)) (sym l))

cell-mul : (param : ℕ) → param < 8192 → mul_word param 4 ≡ param * 4
cell-mul param h = omega arith

-- A load or a store of a variable's cell.
cell-Agrees :
    (is_store : Bool) (reg param : ℕ) (pool : List ℕ)
    → is_reg reg ≡ true
    → param < 8192
    → Agrees
        (s32i_l32i_auto is_store reg va (mul_word param 4) s0)
        (s32i_l32i_auto_size (mul_word param 4))
        pool
cell-Agrees is_store reg param pool hr h =
    let (bytes, e, se) = s32i_l32i_auto-total is_store reg va param s0 pool hr refl refl h in
    (bytes, pool, rw (cell-mul param h) e, rw (cell-mul param h) se)

-- A call of the engine behind an instruction that names what is called.
call-Agrees :
    (loaded : List ℕ) (pos : ℕ) (pool : List ℕ)
    → Agrees
        (lift (dump_callx0 (pos + length loaded)) >>= λ called. pure (loaded ++ called))
        (pure (length loaded + call_size (pos + length loaded)))
        pool
call-Agrees loaded pos pool =
    let (called, e, l) = dump_callx0-total (pos + length loaded) in
    (
      loaded ++ called,
      pool,
      bind-some (lift (dump_callx0 (pos + length loaded))) _ pool pool called
          (ap (λ code. lift code pool) e),
      ap (λ n. some (n, pool)) (sym (length-append loaded called ∙ ap (λ n. length loaded + n) l)),
    )

called-Agrees :
    (param pos : ℕ) (pool : List ℕ)
    → length pool < 8192
    → Agrees
        (movi_auto s0 param >>= λ loaded.
          lift (dump_callx0 (pos + length loaded)) >>= λ called. pure (loaded ++ called))
        (movi_auto_size param >>= λ size. pure (size + call_size (pos + size)))
        pool
called-Agrees param pos pool room =
    let (loaded, more, e, se) = movi_auto-total param s0 pool (omega arith) room in
    let (bytes, after, f, sf) = call-Agrees loaded pos more in
    (
      bytes,
      after,
      bind-some (movi_auto s0 param) _ pool more loaded e ∙ f,
      bind-some (movi_auto_size param) _ pool more (length loaded) se ∙ sf,
    )

address-Agrees :
    (param : ℕ) (pool : List ℕ)
    → length pool < 8192
    → Agrees
        (lift (l32i_n dt cs data_offset_in_cs) >>= λ loaded.
          addi_auto dt dt param s0 >>= λ added. pure (loaded ++ added))
        (addi_auto_size param >>= λ size. pure (2 + size))
        pool
unfolding l32i_n
address-Agrees param pool room =
    let (added, more, e, se) = addi_auto-total param dt dt s0 pool refl refl refl room in
    (
      _,
      more,
      bind-some (addi_auto dt dt param s0) _ pool more added e,
      bind-some (addi_auto_size param) _ pool more (length added) se
          ∙ ap (answer more) (omega arith),
    )
  where
    answer : List ℕ → ℕ → Option (ℕ × List ℕ)
    answer pool n = some (n, pool)

-- The alignment of the pointer to free data space, and its step past a cell.
aligned-total : Writes (chain (addi_n dp dp 3 ∷ and_reg dp dp n4 ∷ [])) 5
unfolding addi_n and_reg chain both
aligned-total = (_, refl, refl)

moved-total : Writes (addi_n dp dp 4) 2
unfolding addi_n
moved-total = (_, refl, refl)

variable-Agrees :
    (param : ℕ) (pool : List ℕ)
    → param < 8192
    → Agrees
        (lift (chain (addi_n dp dp 3 ∷ and_reg dp dp n4 ∷ [])) >>= λ aligned.
          store_variable dp param >>= λ stored.
          lift (addi_n dp dp 4) >>= λ moved. pure (aligned ++ stored ++ moved))
        (s32i_l32i_auto_size (mul_word param 4) >>= λ size. pure (7 + size))
        pool
unfolding store_variable
variable-Agrees param pool h =
    let (stored, more, e, se) = cell-Agrees true dp param pool refl h in
    let (aligned, ae, al) = aligned-total in
    let (moved, me, ml) = moved-total in
    (
      aligned ++ stored ++ moved,
      more,
      bind-some (lift (chain (addi_n dp dp 3 ∷ and_reg dp dp n4 ∷ []))) _ pool pool aligned
            (ap (λ code. lift code pool) ae)
          ∙ bind-some (store_variable dp param) _ pool more stored e
          ∙ bind-some (lift (addi_n dp dp 4)) _ more more moved (ap (λ code. lift code more) me),
      bind-some (s32i_l32i_auto_size (mul_word param 4)) _ pool more (length stored) se
          ∙ ap (answer more) (sym (sum aligned stored moved al ml)),
    )
  where
    answer : List ℕ → ℕ → Option (ℕ × List ℕ)
    answer pool n = some (n, pool)

    sum : (a b c : List ℕ) → length a ≡ 5 → length c ≡ 2 → length (a ++ b ++ c) ≡ 7 + length b
    sum a b c ha hc = omega (arith, length-append (a ++ b) c, length-append a b, ha, hc)

-- `movi_n` of the number that names a function for threads.
abbrev thread_number : ℕ → List ℕ
thread_number n = bit_or (bit_and (minus n) 0x70) 0xc ∷ bit_or (minus n % 16 * 16) s0 ∷ []

module _ (gen : Generated) (all : List Fragment) (f : Fragment) (pos : ℕ) (pool : List ℕ)
    (room : length pool < 8192) where
  abbrev answer : ℕ → Option (ℕ × List ℕ)
  answer n = some (n, pool)

  six : (pos : ℕ) → pos + 6 ≡ pos + 2 + 4
  six pos = omega arith

  -- Of an instruction that needs no other fragment, the code is written, and has the size that was
  -- counted at the same position.
  pub dump_of-size_of :
      (op : Opcode)
      → is_plain op ≡ true
      → (uses_cell op ≡ true → f.param < 8192)
      → Agrees (dump_of gen op all f pos) (size_of gen op all f pos) pool
  unfolding dump_of size_of is_plain uses_cell movi_n s32i_n l32i_n
  dump_of-size_of builtin_word h cell = cc
  dump_of-size_of defined_word h cell = cc
  dump_of-size_of runtime_word h cell = called-Agrees f.param pos pool room
  dump_of-size_of push_literal h cell = movi_auto-total f.param dt pool (omega arith) room
  dump_of-size_of exit_word h cell = cc
  dump_of-size_of defined_word_location h cell =
      lift-Agrees (dump_location f.param) (location_size f.param) pool (dump_location-total f.param)
  dump_of-size_of push_data_address h cell = address-Agrees f.param pool room
  dump_of-size_of declare_variable h cell = variable-Agrees f.param pool (cell refl)
  dump_of-size_of use_variable_or_constant h cell =
      cell-Agrees false dt f.param pool refl (cell refl)
  dump_of-size_of halt h cell = (_, pool, refl, refl)
  dump_of-size_of branch_location h cell = ([], pool, refl, refl)
  dump_of-size_of branch_if_zero h cell = cc
  dump_of-size_of branch h cell = cc
  dump_of-size_of do_loop h cell = (_, pool, refl, refl)
  dump_of-size_of loop h cell = cc
  dump_of-size_of push_offset_address h cell = cc
  dump_of-size_of push_callback h cell = cc
  dump_of-size_of declare_constant h cell = cell-Agrees true dt f.param pool refl (cell refl)
  dump_of-size_of execute h cell =
      let (bytes, e, l) = dump_execute-total pos in
      (bytes, pool, ap (λ code. lift code pool) e, ap answer (ap execute_size (six pos) ∙ sym l))
  dump_of-size_of thread_create h cell = call-Agrees (thread_number 1) pos pool
  dump_of-size_of thread_join h cell = call-Agrees (thread_number 2) pos pool
  dump_of-size_of entry h cell = (_, pool, refl, refl)
