-- ===== src/Vm/Calls.antt =====
-- Calls, returns and counted loops of vm_engine.c.
use mcp_forth.Prelude.{
  ℕ, suc, ◌+◌, ◌-◌, ◌≤◌, ◌≡◌, refl, ◌∙◌, ◌≢◌, Bool, true, false, List, [], ◌∷◌, ◌++◌, arith, ltb,
  ◌==◌, if◌then◌else◌, length, length-append, drop, add_word, slt,
}
use mcp_forth.Vm.{
  Env, Ctx, next, pure, get, ◌>>=◌, ◌>>◌, pop, return_pop, return_push, set_pc, set_base,
  set_return_stack, pc_step,
}
use mcp_forth.Vm.Step
use mcp_forth.Vm.Keeps.{bind-next, seq-next}

-- The state right behind a call from `c` to `target`, with `pc` behind the call.
abbrev pub called : Ctx → ℕ → ℕ → Ctx
called c pc target = record c {
  return_stack = record c.return_stack {
    cells = pc ∷ c.return_stack_len_base ∷ c.return_stack.cells;
  };
  return_stack_len_base = suc (suc (length c.return_stack.cells));
  pc = target;
}

-- `execute` calls the address on top of the stack.
pub execute_case-called :
    (c : Ctx) (fn : ℕ) (xs : List ℕ)
    → c.stack.cells ≡ fn ∷ xs
    → length c.return_stack.cells + 2 ≤ c.return_stack.max
    → Step.execute_case c
      ≡ next tt (called (record c { stack = record c.stack { cells = xs } }) c.pc fn)
unfolding Step.execute_case Step.mark_base ◌>>=◌ ◌>>◌ get return_push pop set_pc set_base
execute_case-called c fn xs e h = ground arith

drop-append : (xs ys : List ℕ) → drop (length xs) (xs ++ ys) ≡ ys
drop-append [] ys = refl
drop-append (x ∷ xs) ys = drop-append xs ys

-- What the called word may change: all but the part of the return stack up to its base.
abbrev pub returning : Ctx → Ctx → ℕ → ℕ → List ℕ → Ctx
returning c c' pc target left = record c' {
  return_stack = record c.return_stack { cells = left ++ (called c pc target).return_stack.cells };
  return_stack_len_base = (called c pc target).return_stack_len_base;
}

cut-returning :
    (env : Env) (c c' : Ctx) (pc target : ℕ) (left : List ℕ)
    → Step.cut_return_stack env (returning c c' pc target left)
      ≡ next tt (returning c c' pc target [])
unfolding Step.cut_return_stack ◌>>=◌ get set_return_stack
cut-returning env c c' pc target left =
    let all = left ++ (called c pc target).return_stack.cells in
    let base = suc (suc (length c.return_stack.cells)) in
    let l = length-append left (called c pc target).return_stack.cells in
    let above : ltb (length all) base ≡ false = ground (arith, l) in
    let rest : length all - base ≡ length left = omega (arith, l) in
    rw (above, rest, drop-append left)

-- For a call with an address behind it that is not null: an exit from the called word goes on behind the
-- call, with the return stack and its base as they were
-- before it, however many cells the word has left above its base, and with all else as the word left it.
pub exit_word_case-called :
    (env : Env) (c c' : Ctx) (pc target : ℕ) (left : List ℕ)
    → pc ≢ 0
    → Step.exit_word_case env (returning c c' pc target left)
      ≡ next tt (record c' {
        pc = pc;
        return_stack = c.return_stack;
        return_stack_len_base = c.return_stack_len_base;
      })
unfolding Step.exit_word_case ◌>>=◌ ◌>>◌ return_pop set_pc set_base pure
exit_word_case-called env c c' pc target left h =
    let ne : (pc == 0) ≡ false = ground arith in
    seq-next (Step.cut_return_stack env) _ (cut-returning env c c' pc target left) ∙ rw ne

-- The state in a loop with `limit` and index `i`, in front of a LOOP instruction's rest.
abbrev pub looping : Ctx → ℕ → ℕ → List ℕ → Ctx
looping c limit i below = record c {
  return_stack = record c.return_stack { cells = i ∷ limit ∷ below };
}

-- DO moves the limit and the start to the return stack.
pub do_case-looping :
    (c : Ctx) (start limit : ℕ) (xs : List ℕ)
    → c.stack.cells ≡ start ∷ limit ∷ xs
    → length c.return_stack.cells + 2 ≤ c.return_stack.max
    → Step.do_case c
      ≡ next tt (
          looping
            (record c { stack = record c.stack { cells = xs } })
            limit
            start
            c.return_stack.cells)
unfolding Step.do_case ◌>>=◌ ◌>>◌ pop return_push
do_case-looping c start limit xs e h = ground arith

loop_decision :
    (pc_initial offset limit i : ℕ) (below : List ℕ) (c : Ctx)
    → length below + 2 ≤ c.return_stack.max
    → (again : Bool)
    → (if again
          then (do Step.jump pc_initial offset; return_push limit; return_push (add_word i 1))
          else pure tt)
        (record c { return_stack = record c.return_stack { cells = below } })
      ≡ (if again
          then next tt
              (looping (record c { pc = add_word pc_initial offset }) limit (add_word i 1) below)
          else next tt (record c { return_stack = record c.return_stack { cells = below } }))
unfolding Step.jump return_push set_pc pure ◌>>◌ ◌>>=◌
loop_decision pc_initial offset limit i below c h true = ground arith
loop_decision pc_initial offset limit i below c h false = refl

-- With a number behind LOOP, and a return stack on which the loop's two cells fit: LOOP adds one to the index and goes back while that is below the limit, as signed numbers; else it
-- goes on behind itself, with the loop's two cells gone. `c` is the state behind LOOP's operand.
pub loop_case-turn :
    (env : Env) (pc_initial offset limit i : ℕ) (below : List ℕ) (c₀ c : Ctx)
    → pc_step env c₀ ≡ next offset (looping c limit i below)
    → length below + 2 ≤ c.return_stack.max
    → Step.loop_case env pc_initial c₀ ≡ (
        if slt (add_word i 1) limit
        then next tt
            (looping (record c { pc = add_word pc_initial offset }) limit (add_word i 1) below)
        else next tt (record c { return_stack = record c.return_stack { cells = below } }))
unfolding Step.loop_case return_pop
loop_case-turn env pc_initial offset limit i below c₀ c e h =
    bind-next (pc_step env) _ e
    ∙ bind-next return_pop _ refl
    ∙ bind-next return_pop _ refl
    ∙ loop_decision pc_initial offset limit i below c h (slt (add_word i 1) limit)
