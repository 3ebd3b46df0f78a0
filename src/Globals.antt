-- ===== src/Globals.antt =====
-- The slots of the callbacks, `m4_global_*` of mcp_forth.c and the types of global.h, in the build with
-- threads and thread-local storage. A context is a value of some type.
pub mod Slots
mod Tests
use mcp_forth.Prelude.{
  ℕ, zero, suc, ◌+◌, ◌-◌, ◌*◌, ◌/◌, ◌%◌, ◌^◌, ◌≤◌, ◌<◌, min, bit_and, bit_or, bit_xor, ◌≡◌, refl,
  sym, ap, ap₂, ◌∙◌, subst, ◌≢◌, ◌↔◌, ◌⊎◌, inl, inr, Bool, true, false, not, ◌&&◌, ◌||◌, Option,
  none, some, List, [], ◌∷◌, ◌++◌, map, append-nil, append_assoc, arith, ltb, leb, ◌==◌,
  if◌then◌else◌, ltb→lt, lt→ltb, le→ltb_false, ltb_false→le, leb→le, ==_iff, tests, Bool-cases,
  Option-cases, holds_below, holds_below-at, agree_below, length, get_elem?, set, length-append,
  length-set, get_elem?-set_self, get_elem?-set_ne, get_or, take, drop, replicate, length-map, All,
  All-append, some-eq_some, IsByte, bit_and-7f, bit_and_80, bit_and_40, bit_and-3f, bit_or_80,
  bit_or_40, word_mod, IsWord, minus_one, is_negative, invert, add_word, sub_word, mul_word, bias,
  slt, sle, codes, if_intro, bytes_eq, bytes_eq_iff, ◌>>=◌, >>=-eq-some, All-set, All-get_elem?,
  get_elem?-lt, get_elem?-some_lt, drop-cons, add_word-sub_word, sub_word-add_word, length-drop,
  length-take, get_elem?-none_le, take-append-drop, get_elem?-append, get_elem?-append_length,
  All-mono,
}

-- `global_main_t`; a slot of a fresh block is not set.
pub record GlobalMain (A : Type 0) : Type 0 where
  pub callbacks_used : ℕ
  pub ctxs : List (Option A)

-- What `m4_global_` may point to: `is_main` tells the two apart.
pub data Global (A : Type 0) : Type 0 where
  main : GlobalMain A → Global A
  thread : A → Global A

abbrev pub threads_cannot_launch_programs_error : ℕ
threads_cannot_launch_programs_error = 9

-- A count, or an error code.
pub data Used : Type 0 where
  used : ℕ → Used
  error : ℕ → Used

-- `m4_global_` is `none` where it is NULL. A result `none` is a failed assertion, a read through NULL, or
-- one of memory that is not set. M4_MAX_CALLBACKS is a number of the build.
module _ (max_callbacks : ℕ) where
  unfoldable pub global_get_ctx : {A : Type 0} → Option (Global A) → ℕ → Option A
  global_get_ctx none cb_i = none
  global_get_ctx (some (main global_main)) cb_i = do slot ← get_elem? global_main.ctxs cb_i; slot
  global_get_ctx (some (thread ctx)) cb_i = some ctx

  unfoldable pub global_thread_set : {A : Type 0} → Option (Global A) → A → Option (Global A)
  global_thread_set global ctx = some (thread ctx)

  unfoldable pub global_main_get_callbacks_used : {A : Type 0} → Option (Global A) → Used
  global_main_get_callbacks_used none = used 0
  global_main_get_callbacks_used (some (main global_main)) = used global_main.callbacks_used
  global_main_get_callbacks_used (some (thread ctx)) = error threads_cannot_launch_programs_error

  -- `for`: the next `count` slots get the context.
  unfoldable pub set_loop : {A : Type 0} → ℕ → A → GlobalMain A → GlobalMain A
  set_loop zero ctx global_main = global_main
  set_loop (suc count) ctx global_main = set_loop count ctx (record {
    callbacks_used = global_main.callbacks_used + 1;
    ctxs = set global_main.ctxs global_main.callbacks_used (some ctx);
  })

  -- `global_main`, allocated if there are callbacks and it is NULL. `allocated` tells whether `malloc`
  -- succeeds.
  unfoldable pub main_or_fresh : {A : Type 0} → Bool → Option (Global A) → Option (GlobalMain A)
  main_or_fresh allocated none =
      if allocated
      then some (record { callbacks_used = 0; ctxs = replicate max_callbacks none })
      else none
  main_or_fresh allocated (some (main global_main)) = some global_main
  main_or_fresh allocated (some (thread ctx)) = none

  unfoldable pub global_main_callbacks_set_ctx :
      {A : Type 0} → Bool → Option (Global A) → ℕ → A → Option (Option (Global A))
  unfolding main_or_fresh set_loop
  global_main_callbacks_set_ctx allocated global zero ctx = some global
  global_main_callbacks_set_ctx allocated global (suc more) ctx = do
    global_main ← main_or_fresh allocated global
    let filled = some (main (set_loop (suc more) ctx global_main))
    if leb (global_main.callbacks_used + suc more) max_callbacks then some filled else none

  unfoldable pub global_cleanup : {A : Type 0} → Option (Global A) → Option (Global A)
  global_cleanup global = none
