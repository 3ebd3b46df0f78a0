-- ===== src/Vm/Bounds.antt =====
-- What every instruction of vm_engine.c keeps: neither stack grows past its maximum.
mod Primitives
pub use Primitives.*
use mcp_forth.Prelude.{
  ℕ, zero, suc, ◌-◌, ◌≤◌, ◌≡◌, ◌⊎◌, inl, inr, none, some, List, arith, Option-cases, length, Bool,
  true, false, Bool-cases, Option, ltb, is_negative, ◌++◌, drop, if◌then◌else◌, get_elem?, All,
  All-get_elem?, length-drop,
}
use mcp_forth.Vm.{
  Stack, Slots, Env, Ctx, RuntimeCb, lit, call, Memory, crash, get, defined, ◌>>=◌, pop, push,
  return_pop, return_push, set_memory, set_pc, set_base, set_return_stack, set_variables, load_byte,
  store_byte, load_half, store_half, load_cell, store_cell, pc_step,
}
use mcp_forth.Vm.Words
use mcp_forth.Vm.Step
use mcp_forth.Vm.Keeps.{Post, Keeps, keeps_rules, Keeps-bind, Each, none_left, ◌&◌, Each-get_elem?}

-- Each builtin word keeps both bounds.
pub Keeps-words :
    (d r : ℕ) (calm : Bool) (env : Env) → Each (Keeps (IsBounded d r calm)) (Words.words env)
unfolding Words.words
Keeps-words d r calm env =
    search memory_rules depth 12
    & search memory_rules depth 12
    & search memory_rules depth 12
    & search memory_rules depth 12
    & search memory_rules depth 12
    & search memory_rules depth 12
    & search memory_rules depth 12
    & search memory_rules depth 12
    & search memory_rules depth 12
    & search memory_rules depth 12
    & search memory_rules depth 12
    & search memory_rules depth 12
    & search memory_rules depth 12
    & search memory_rules depth 12
    & search memory_rules depth 12
    & search memory_rules depth 12
    & search memory_rules depth 12
    & search memory_rules depth 12
    & search memory_rules depth 12
    & search memory_rules depth 12
    & search memory_rules depth 12
    & search memory_rules depth 12
    & search memory_rules depth 12
    & search memory_rules depth 12
    & search memory_rules depth 12
    & search memory_rules depth 12
    & search memory_rules depth 12
    & search memory_rules depth 12
    & search memory_rules depth 12
    & search memory_rules depth 12
    & search memory_rules depth 12
    & search memory_rules depth 12
    & search memory_rules depth 12
    & search memory_rules depth 12
    & search memory_rules depth 12
    & search memory_rules depth 12
    & search memory_rules depth 12
    & search memory_rules depth 12
    & search memory_rules depth 12
    & search memory_rules depth 12
    & search memory_rules depth 12
    & search memory_rules depth 12
    & search memory_rules depth 12
    & search memory_rules depth 12
    & search memory_rules depth 12
    & search memory_rules depth 12
    & search memory_rules depth 12
    & search memory_rules depth 12
    & search memory_rules depth 12
    & search memory_rules depth 12
    & search memory_rules depth 12
    & search memory_rules depth 12
    & search memory_rules depth 12
    & search memory_rules depth 12
    & search memory_rules depth 12
    & search memory_rules depth 12
    & search memory_rules depth 12
    & search memory_rules depth 12
    & search memory_rules depth 12
    & search memory_rules depth 12
    & search memory_rules depth 12
    & search memory_rules depth 12
    & search memory_rules depth 12
    & none_left

-- A runtime word leaves a data stack within its maximum, if it got one.
abbrev pub KeepsStack : ℕ → RuntimeCb → Type 0
KeepsStack d (lit param) = Unit
KeepsStack d (call cb) =
    (s : Stack) (h : Memory)
    → s.max ≡ d
    → length s.cells ≤ d
    → ((cb s h).1.max ≡ d) × (length (cb s h).1.cells ≤ d)

Keeps-run_cb :
    (d r : ℕ) (calm : Bool) (cb : RuntimeCb)
    → KeepsStack d cb
    → Keeps (IsBounded d r calm) (Step.run_cb cb)
unfolding Step.run_cb
Keeps-run_cb d r calm (lit param) h = Keeps-push param
Keeps-run_cb d r calm (call cb) h = record {
  from_state = λ c b.
      let (m, l) = h c.stack c.heap b.stack_max b.stack_fits in
      let rm = b.return_max in let rf = b.return_fits in ground arith;
}

-- If `calm` says so, no cell above the return stack can be read.
abbrev pub StaysDown : Bool → Slots → Type 0
StaysDown calm slots = calm ≡ true → (i : ℕ) → slots.return_stack i ≡ none

raised_cells-none :
    (slot : ℕ → Option ℕ) (n : ℕ)
    → ((i : ℕ) → slot i ≡ none)
    → 1 ≤ n
    → Step.raised_cells slot n ≡ none
unfolding Step.raised_cells
raised_cells-none slot zero h le = absurd (omega arith)
raised_cells-none slot (suc n) h le = rw (Step.raised_cells, h n)

Keeps-cut_return_stack :
    (d r : ℕ) (calm : Bool) (env : Env)
    → StaysDown calm env.slots
    → Keeps (IsBounded d r calm) (Step.cut_return_stack env)
unfolding Step.cut_return_stack get set_return_stack ◌>>=◌ defined
Keeps-cut_return_stack d r calm env h = record { from_state = cut }
  where
    absent : (n : ℕ) (o : Option (List ℕ)) → o ≡ none → (xs : List ℕ) → o ≡ some xs → ⊥
    absent n o e xs e' = cc

    cut : (c : Ctx) → IsBounded d r calm c → Post (IsBounded d r calm) (Step.cut_return_stack env c)
    cut c b =
        let base = c.return_stack_len_base in
        let len = length c.return_stack.cells in
        let fits = b.return_fits in
        elim (Bool-cases (ltb len base)) [
          | inr down ↦
              rw (Step.cut_return_stack, down)
                (ground (arith, length-drop (len - base) c.return_stack.cells))
          | inl up ↦ elim (Bool-cases (is_negative base)) [
            | inl negative ↦ rw (Step.cut_return_stack, up, negative) (ground arith)
            | inr above ↦
                elim (Option-cases (Step.raised_cells env.slots.return_stack (base - len))) [
                  | inl e ↦ rw (Step.cut_return_stack, up, above, e) tt
                  | inr (xs, e) ↦
                      let no : calm ≡ true → ⊥ = λ t.
                        absent 0 _
                          (raised_cells-none env.slots.return_stack (base - len) (h t)
                            (ground arith))
                          xs e in
                      rw (Step.cut_return_stack, up, above, e)
                        (record {
                          stack_max = b.stack_max;
                          return_max = b.return_max;
                          stack_fits = b.stack_fits;
                          return_fits = λ t. absurd (no t);
                        })
                ]
          ]
        ]

Keeps-exit_word_case :
    (d r : ℕ) (calm : Bool) (env : Env)
    → StaysDown calm env.slots
    → Keeps (IsBounded d r calm) (Step.exit_word_case env)
unfolding Step.exit_word_case
Keeps-exit_word_case d r calm env h =
    search (primitives, λ (e : Env). Keeps-cut_return_stack d r calm env h) depth 12

Keeps-jump :
    (d r pc_initial offset : ℕ) (calm : Bool)
    → Keeps (IsBounded d r calm) (Step.jump pc_initial offset)
unfolding Step.jump
Keeps-jump d r pc_initial offset calm = search primitives

Keeps-mark_base : (d r : ℕ) (calm : Bool) → Keeps (IsBounded d r calm) Step.mark_base
unfolding Step.mark_base
Keeps-mark_base d r calm = search primitives

Keeps-assign_variable :
    (d r i x : ℕ) (calm : Bool) → Keeps (IsBounded d r calm) (Step.assign_variable i x)
unfolding Step.assign_variable
Keeps-assign_variable d r i x calm = search primitives

Keeps-run_builtin :
    (d r : ℕ) (calm : Bool) (env : Env) (n : ℕ)
    → Keeps (IsBounded d r calm) (Words.run_builtin env n)
unfolding Words.run_builtin
Keeps-run_builtin d r calm env n = elim (Option-cases (get_elem? (Words.words env) n)) [
  | inl e ↦ rw e (search keeps_rules)
  | inr (w, e) ↦ rw e (Each-get_elem? n (Keeps-words d r calm env) e)
]

ruleset case_rules =
    (memory_rules, Keeps-jump, Keeps-mark_base, Keeps-assign_variable, Keeps-run_builtin)

-- Every runtime word that the program is linked with keeps the data stack within bounds.
abbrev pub RuntimeFits : ℕ → Env → Type 0
RuntimeFits d env = All (KeepsStack d) env.runtime_cbs

Keeps-runtime_word_case :
    (d r : ℕ) (calm : Bool) (env : Env)
    → RuntimeFits d env
    → Keeps (IsBounded d r calm) (Step.runtime_word_case env)
unfolding Step.runtime_word_case
Keeps-runtime_word_case d r calm env h =
    Keeps-bind (Keeps-pc_step env) λ i. linked i (Option-cases (get_elem? env.runtime_cbs i))
  where
    linked :
        (i : ℕ)
        → (get_elem? env.runtime_cbs i ≡ none)
          ⊎ ((cb : RuntimeCb) × (get_elem? env.runtime_cbs i ≡ some cb))
        → Keeps (IsBounded d r calm) (defined (get_elem? env.runtime_cbs i) >>= Step.run_cb)
    linked i (inl e) = rw e (record { from_state = λ c b. unfold defined ◌>>=◌ in tt })
    linked i (inr (cb, e)) = rw e (record {
      from_state =
          unfold defined ◌>>=◌ in
          (Keeps-run_cb d r calm cb
            (All-get_elem? (KeepsStack d) env.runtime_cbs i h e)).from_state;
    })

Keeps-cases :
    (d r : ℕ) (calm : Bool) (env : Env) (pc : ℕ)
    → RuntimeFits d env
    → StaysDown calm env.slots
    → Each (Keeps (IsBounded d r calm)) (Step.cases env pc)
unfolding Step.cases
Keeps-cases d r calm env pc h down =
    search case_rules depth 12
    & search case_rules depth 12
    & Keeps-runtime_word_case d r calm env h
    & search case_rules depth 12
    & Keeps-exit_word_case d r calm env down
    & search case_rules depth 12
    & search case_rules depth 12
    & search case_rules depth 12
    & search case_rules depth 12
    & search case_rules depth 12
    & search case_rules depth 12
    & search case_rules depth 12
    & search case_rules depth 12
    & search case_rules depth 12
    & search case_rules depth 12
    & search case_rules depth 12
    & search case_rules depth 12
    & search case_rules depth 12
    & search case_rules depth 12
    & search case_rules depth 12
    & search case_rules depth 12
    & none_left

Keeps-run_case :
    (d r : ℕ) (calm : Bool) (env : Env) (pc op : ℕ)
    → RuntimeFits d env
    → StaysDown calm env.slots
    → Keeps (IsBounded d r calm) (Step.run_case env pc op)
unfolding Step.run_case Step.cases
Keeps-run_case d r calm env pc op h down = elim (Option-cases (get_elem? (Step.cases env pc) op)) [
  | inl e ↦ rw e (search keeps_rules)
  | inr (w, e) ↦ rw e (Each-get_elem? op (Keeps-cases d r calm env pc h down) e)
]

pub Keeps-step :
    (d r : ℕ) (calm : Bool) (env : Env)
    → RuntimeFits d env
    → StaysDown calm env.slots
    → Keeps (IsBounded d r calm) (Step.step env)
unfolding Step.step Step.dispatch
Keeps-step d r calm env h down = search (
  keeps_rules,
  Keeps-pc_step,
  Keeps-run_builtin,
  λ (pc op : ℕ). Keeps-run_case d r calm env pc op h down,
)
