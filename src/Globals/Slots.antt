-- ===== src/Globals/Slots.antt =====
-- The slots of the callbacks hold, for each program that was launched, its context.
use mcp_forth.Prelude.{
  length-replicate, ℕ, zero, suc, ◌+◌, ◌-◌, ◌≤◌, ◌<◌, ◌≡◌, refl, sym, ap, ◌∙◌, subst, ◌≢◌, inl, inr,
  true, false, Option, none, some, List, [], ◌∷◌, ◌++◌, append-nil, append_assoc, arith, ltb, leb,
  ◌==◌, if◌then◌else◌, ltb→lt, ltb_false→le, leb→le, ==_iff, Bool-cases, length, get_elem?, set,
  length-append, length-set, get_elem?-set_self, get_elem?-set_ne, replicate, ◌>>=◌,
  get_elem?-append_length,
}
use mcp_forth.Globals.{
  GlobalMain, Global, main, thread, Used, used, error, global_get_ctx,
  global_main_get_callbacks_used, set_loop, main_or_fresh, global_main_callbacks_set_ctx,
  global_cleanup,
}

-- A program of the engine is launched with its callbacks, or all is released. A launch asks how many slots
-- are used, refuses a program with more callbacks than are free, and takes the slots, as
-- `m4_vm_engine_run` and the header's reader do.
pub data Command (A : Type 0) : Type 0 where
  launch : ℕ → A → Command A
  cleanup : Command A

-- The abstract view: who owns the slots in use, in their order.
unfoldable pub owners_after : {A : Type 0} → ℕ → Command A → List A → List A
owners_after max_callbacks (launch count ctx) owners =
    if leb (length owners + count) max_callbacks then owners ++ replicate count ctx else owners
owners_after max_callbacks cleanup owners = []

module _ (max_callbacks : ℕ) where
  -- `m4_global_main_get_callbacks_used`, the test on the count, and `m4_global_main_callbacks_set_ctx`.
  unfoldable pub launch_with :
      {A : Type 0} → Used → ℕ → A → Option (Global A) → Option (Option (Global A))
  launch_with (error code) count ctx global = some global
  launch_with (used callbacks_used) count ctx global =
      if leb count (max_callbacks - callbacks_used)
      then global_main_callbacks_set_ctx max_callbacks true global count ctx
      else some global

  unfoldable pub perform : {A : Type 0} → Command A → Option (Global A) → Option (Option (Global A))
  unfolding launch_with global_main_get_callbacks_used global_cleanup
  perform (launch count ctx) global =
      launch_with (global_main_get_callbacks_used max_callbacks global) count ctx global
  perform cleanup global = some (global_cleanup max_callbacks global)

  unfoldable pub perform_all :
      {A : Type 0} → List (Command A) → Option (Global A) → Option (Option (Global A))
  unfolding perform
  perform_all [] global = some global
  perform_all (command ∷ commands) global = do
    global' ← perform command global
    perform_all commands global'

  unfoldable pub owners_all : {A : Type 0} → List (Command A) → List A → List A
  unfolding owners_after
  owners_all [] owners = owners
  owners_all (command ∷ commands) owners =
      owners_all commands (owners_after max_callbacks command owners)

  -- The block holds the owners: it has all slots, as many are used as there are owners, and each of
  -- these holds its owner, the others nothing.
  pub record Holds {A : Type 0} (m : GlobalMain A) (owners : List A) : Type 0 where
    pub slots : length m.ctxs ≡ max_callbacks
    pub count : m.callbacks_used ≡ length owners
    pub bounded : length owners ≤ max_callbacks
    pub held : (i : ℕ) → i < max_callbacks → get_elem? m.ctxs i ≡ some (get_elem? owners i)

  -- No block stands for no owner; a thread's context is not a state of the main program.
  abbrev pub Represents : {A : Type 0} → Option (Global A) → List A → Type 0
  Represents none owners = owners ≡ []
  Represents (some (main m)) owners = Holds m owners
  Represents (some (thread ctx)) owners = ⊥

get_elem?-replicate : {A : Type 0} (n i : ℕ) (a : A) → i < n → get_elem? (replicate n a) i ≡ some a
get_elem?-replicate zero i a h = absurd (omega arith)
get_elem?-replicate (suc n) zero a h = refl
get_elem?-replicate (suc n) (suc i) a h = get_elem?-replicate n i a (omega arith)

-- One element more, at the end, is found at its place and nowhere else.
get_elem?-snoc :
    {A : Type 0} (xs : List A) (a : A) (i : ℕ)
    → i ≢ length xs
    → get_elem? (xs ++ (a ∷ [])) i ≡ get_elem? xs i
get_elem?-snoc [] a zero h = absurd (h refl)
get_elem?-snoc [] a (suc i) h = refl
get_elem?-snoc (x ∷ xs) a zero h = refl
get_elem?-snoc (x ∷ xs) a (suc i) h = get_elem?-snoc xs a i (λ e. h (ap suc e))

module _ (max_callbacks : ℕ) where
  fresh-Holds :
      {A : Type 0}
      → Holds max_callbacks {A = A}
          (record { callbacks_used = 0; ctxs = replicate max_callbacks none })
          []
  fresh-Holds = record {
    slots = length-replicate max_callbacks none;
    count = refl;
    bounded = omega arith;
    held = λ i h. get_elem?-replicate max_callbacks i none h;
  }

  -- The next slot gets a context.
  slot-Holds :
      {A : Type 0} (ctx : A) (m : GlobalMain A) (owners : List A)
      → Holds max_callbacks m owners
      → length owners < max_callbacks
      → Holds max_callbacks
          (record {
            callbacks_used = m.callbacks_used + 1;
            ctxs = set m.ctxs m.callbacks_used (some ctx);
          })
          (owners ++ (ctx ∷ []))
  slot-Holds ctx m owners s h = record {
    slots = length-set m.ctxs m.callbacks_used (some ctx) ∙ s.slots;
    count = omega (arith, s.count, length-append owners (ctx ∷ []));
    bounded = omega (arith, length-append owners (ctx ∷ []));
    held = λ i below. elim (Bool-cases (i == length owners)) [
      | inl e ↦
          let here : i ≡ length owners = (==_iff i (length owners)).0 e in
          rw (here, s.count)
            (get_elem?-set_self m.ctxs (length owners) (some ctx) (omega (arith, s.slots))
              ∙ ap some (sym (get_elem?-append_length owners [] ctx)))
      | inr e ↦
          let away : i ≢ length owners = λ q. cc (sym e ∙ (==_iff i (length owners)).1 q) in
          rw s.count (
            get_elem?-set_ne m.ctxs (some ctx) (λ q. away (sym q))
            ∙ s.held i below
            ∙ ap some (sym (get_elem?-snoc owners ctx i away)))
    ];
  }

  set_loop-Holds :
      {A : Type 0} (count : ℕ) (ctx : A) (m : GlobalMain A) (owners : List A)
      → Holds max_callbacks m owners
      → length owners + count ≤ max_callbacks
      → Holds max_callbacks (set_loop max_callbacks count ctx m) (owners ++ replicate count ctx)
  unfolding set_loop
  set_loop-Holds zero ctx m owners s h = rw append-nil s
  set_loop-Holds (suc count) ctx m owners s h =
      subst (λ xs. Holds max_callbacks (set_loop max_callbacks (suc count) ctx m) xs)
        (append_assoc owners (ctx ∷ []) (replicate count ctx))
        (set_loop-Holds count ctx _ (owners ++ (ctx ∷ [])) (slot-Holds ctx m owners s (omega arith))
          (omega (arith, length-append owners (ctx ∷ []))))

  -- Taking slots that are free.
  set_ctx-Represents :
      {A : Type 0} (count : ℕ) (ctx : A) (global : Option (Global A)) (owners : List A)
      → Represents max_callbacks global owners
      → length owners + count ≤ max_callbacks
      → (global' : Option (Global A)) × (global_main_callbacks_set_ctx max_callbacks true global
            count ctx
          ≡ some global')
        × Represents max_callbacks global' (owners ++ replicate count ctx)
  unfolding global_main_callbacks_set_ctx main_or_fresh
  set_ctx-Represents zero ctx global owners r h =
      (global, refl, subst (λ xs. Represents max_callbacks global xs) (sym (append-nil owners)) r)
  set_ctx-Represents (suc more) ctx none owners r h =
      let fits : leb (0 + suc more) max_callbacks ≡ true =
        enough (suc more) (omega (arith, ap length r)) in
      (
        some (
            main (
              set_loop max_callbacks (suc more) ctx
                (record { callbacks_used = 0; ctxs = replicate max_callbacks none }))),
        rw fits refl,
        subst
            (λ xs.
              Holds max_callbacks
                (set_loop max_callbacks (suc more) ctx
                  (record { callbacks_used = 0; ctxs = replicate max_callbacks none }))
                (xs ++ replicate (suc more) ctx))
            (sym r) (set_loop-Holds (suc more) ctx _ [] fresh-Holds (omega (arith, ap length r))),
      )
    where
      enough : (n : ℕ) → n ≤ max_callbacks → leb (0 + n) max_callbacks ≡ true
      enough n h = ground arith
  set_ctx-Represents (suc more) ctx (some (main m)) owners r h =
      let fits : leb (m.callbacks_used + suc more) max_callbacks ≡ true =
        enough (m.callbacks_used + suc more) (omega (arith, r.count)) in
      (
        some (main (set_loop max_callbacks (suc more) ctx m)),
        rw fits refl,
        set_loop-Holds (suc more) ctx m owners r h,
      )
    where
      enough : (n : ℕ) → n ≤ max_callbacks → leb n max_callbacks ≡ true
      enough n h = ground arith
  set_ctx-Represents (suc more) ctx (some (thread other)) owners r h = absurd r

  used-Represents :
      {A : Type 0} (global : Option (Global A)) (owners : List A)
      → Represents max_callbacks global owners
      → (global_main_get_callbacks_used max_callbacks global ≡ used (length owners))
        × (length owners ≤ max_callbacks)
  unfolding global_main_get_callbacks_used
  used-Represents none owners r = rw r (refl, omega arith)
  used-Represents (some (main m)) owners r = (ap used r.count, r.bounded)
  used-Represents (some (thread ctx)) owners r = absurd r

  perform-Represents :
      {A : Type 0} (command : Command A) (global : Option (Global A)) (owners : List A)
      → Represents max_callbacks global owners
      → (global' : Option (Global A)) × (perform max_callbacks command global ≡ some global')
        × Represents max_callbacks global' (owners_after max_callbacks command owners)
  unfolding perform launch_with owners_after global_cleanup
  perform-Represents cleanup global owners r = (none, refl, refl)
  perform-Represents (launch count ctx) global owners r =
      let (used_is, bounded) = used-Represents global owners r in
      elim (Bool-cases (leb (length owners + count) max_callbacks)) [
        | inl t ↦
            let fits : leb count (max_callbacks - length owners) ≡ true =
              free count (length owners) bounded t in
            rw (used_is, fits, t)
              (set_ctx-Represents count ctx global owners r
                (leb→le (length owners + count) max_callbacks t))
        | inr t ↦
            let full : leb count (max_callbacks - length owners) ≡ false =
              none_free count (length owners) bounded t in
            rw (used_is, full, t) (global, refl, r)
      ]
    where
      free :
          (count n : ℕ)
          → n ≤ max_callbacks
          → leb (n + count) max_callbacks ≡ true
          → leb count (max_callbacks - n) ≡ true
      free count n b t = ground arith

      none_free :
          (count n : ℕ)
          → n ≤ max_callbacks
          → leb (n + count) max_callbacks ≡ false
          → leb count (max_callbacks - n) ≡ false
      none_free count n b t = ground arith

  perform_all-Represents :
      {A : Type 0} (commands : List (Command A)) (global : Option (Global A)) (owners : List A)
      → Represents max_callbacks global owners
      → (global' : Option (Global A)) × (perform_all max_callbacks commands global ≡ some global')
        × Represents max_callbacks global' (owners_all max_callbacks commands owners)
  unfolding perform_all owners_all
  perform_all-Represents [] global owners r = (global, refl, r)
  perform_all-Represents (command ∷ commands) global owners r =
      let (next, e, r') = perform-Represents command global owners r in
      let (last, e', r'') = perform_all-Represents commands next _ r' in (last, rw e e', r'')

  get_ctx-Represents :
      {A : Type 0} (global : Option (Global A)) (owners : List A) (i : ℕ)
      → Represents max_callbacks global owners
      → global_get_ctx max_callbacks global i ≡ get_elem? owners i
  unfolding global_get_ctx
  get_ctx-Represents none owners i r = rw r refl
  get_ctx-Represents (some (main m)) owners i r = elim (Bool-cases (ltb i max_callbacks)) [
    | inl t ↦ rw (r.held i (ltb→lt i max_callbacks t)) refl
    | inr t ↦
        let out = ltb_false→le i max_callbacks t in
        rw (beyond m.ctxs i (omega (arith, r.slots)))
          (sym (beyond owners i (omega (arith, r.bounded))))
  ]
    where
      beyond : {B : Type 0} (xs : List B) (j : ℕ) → length xs ≤ j → get_elem? xs j ≡ none
      beyond [] j h = refl
      beyond (x ∷ xs) zero h = absurd (omega arith)
      beyond (x ∷ xs) (suc j) h = beyond xs j (omega arith)
  get_ctx-Represents (some (thread ctx)) owners i r = absurd r

  -- For every sequence of launches and cleanups from the start, with `malloc` succeeding: no assertion
  -- fails; the number of slots in use is the number of callbacks of the programs launched since the last
  -- cleanup that were not refused, never above M4_MAX_CALLBACKS; and a callback with any index gets the
  -- context of the program that the index belongs to, and none if it belongs to no program.
  pub perform_all-owners :
      {A : Type 0} (commands : List (Command A)) (i : ℕ)
      → (global : Option (Global A)) × (perform_all max_callbacks commands none ≡ some global)
        × (global_main_get_callbacks_used max_callbacks global
            ≡ used (length (owners_all max_callbacks commands [])))
        × (length (owners_all max_callbacks commands []) ≤ max_callbacks)
        × (global_get_ctx max_callbacks global i
            ≡ get_elem? (owners_all max_callbacks commands []) i)
  perform_all-owners commands i =
      let (global, e, r) = perform_all-Represents commands none [] refl in
      let (used_is, bounded) = used-Represents global _ r in
      (global, e, used_is, bounded, get_ctx-Represents global _ i r)
