-- ===== src/Compiler/Sound/Rules.antt =====
-- The invariant of `m4_compile` under each change of its arrays.
use mcp_forth.Prelude.{
  ℕ, suc, ◌+◌, ◌-◌, ◌≤◌, ◌<◌, ◌≡◌, ◌∙◌, subst, ◌≢◌, inl, inr, Bool, true, false, some, List, [],
  ◌∷◌, ◌++◌, arith, ◌==◌, ==_iff, Bool-cases, length, set, length-append, length-set,
  get_elem?-set_self, get_elem?-set_ne, All, All-append, All-set, get_elem?-append,
  get_elem?-append_length, All-mono,
}
use mcp_forth.Fragment.{Opcode, defined_word_location, Fragment}
use mcp_forth.VmBackend.{with_offset, shape}
use mcp_forth.VmBackend.Relax.{Refers}
use mcp_forth.Compiler.State.{ControlFlow, DataString, last_of}
use mcp_forth.Compiler.Sound.{IsLocation, IsScanned, owed_by, pending, Facts}

pub length-snoc {ℓ} : {A : Type ℓ} (xs : List A) (x : A) → length (xs ++ x ∷ []) ≡ suc (length xs)
length-snoc xs x = omega (arith, length-append xs (x ∷ []))

pub All-snoc {ℓ κ} :
    {A : Type ℓ} (P : A → Type κ) (xs : List A) (x : A) → All P xs → P x → All P (xs ++ x ∷ [])
All-snoc P xs x h p = All-append P xs (x ∷ []) h (p, tt)

pub last_of-snoc : (xs : List ℕ) (x : ℕ) → last_of (xs ++ x ∷ []) ≡ some x
last_of-snoc xs x =
    let e : length (xs ++ x ∷ []) - 1 ≡ length xs = omega (arith, length-snoc xs x) in
    rw e (get_elem?-append_length xs [] x)

pub IsLocation-set :
    (all : List Fragment) (d : ℕ) (g : Fragment)
    → d < length all
    → g.op ≡ defined_word_location
    → (x : ℕ) → IsLocation all x
    → IsLocation (set all d g) x
IsLocation-set all d g h o x (f, e, p) = elim (Bool-cases (d == x)) [
  | inl same ↦
      let q : d ≡ x = (==_iff d x).0 same in (g, rw (← q) (get_elem?-set_self all d g h), o)
  | inr other ↦ (f, get_elem?-set_ne all g (λ q. grind (arith, ==_iff d x)) ∙ e, p)
]

location-no_offset : (op : Opcode) → op ≡ defined_word_location → shape op ≢ with_offset
unfolding shape
location-no_offset op o e =
    let e' : shape defined_word_location ≡ with_offset = subst (λ p. shape p ≡ with_offset) o e in
    ground arith

module _ {owed : ℕ} {all : List Fragment} {order : List ℕ} {open_flows : List ControlFlow}
    {definitions : List ℕ} {names : List (List ℕ)} {defining : Bool} {strings : List DataString}
    {callbacks cur : List ℕ} {limit : ℕ} where
  -- One fragment more, which is owed.
  pub Facts-create :
      (f : Fragment)
      → Facts owed all order open_flows definitions names defining strings callbacks cur limit
      → Refers (suc (length all)) f
      → Facts
          (suc owed)
          (all ++ f ∷ [])
          order
          open_flows
          definitions
          names
          defining
          strings
          callbacks
          cur
          limit
  Facts-create f s h =
      let n = length all in
      let l : length (all ++ f ∷ []) ≡ suc n = length-snoc all f in
      record {
        balanced = omega (arith, l, s.balanced);
        nonempty = s.nonempty;
        sequenced = rw l (All-mono order (λ x (p : x < n). omega arith) s.sequenced);
        controlled =
            rw l (All-mono open_flows (λ cf (p : cf.fragment < n). omega arith) s.controlled);
        located =
            All-mono definitions (λ d (g, e, o). (g, get_elem?-append all (f ∷ []) d e, o))
              s.located;
        refers = rw l (
            All-snoc (Refers (suc n)) all f
              (All-mono all (λ g (p : Refers n g). λ o. omega (arith, p o)) s.refers) h);
        paired = s.paired;
        started = s.started;
        scanned = s.scanned;
        needing = s.needing;
        left = s.left;
      }

  -- An owed fragment is put into the sequence.
  pub Facts-add :
      (i : ℕ)
      → Facts (suc owed) all order open_flows definitions names defining strings callbacks cur limit
      → i < length all
      → Facts owed all
          (order ++ i ∷ [])
          open_flows
          definitions
          names
          defining
          strings
          callbacks
          cur
          limit
  Facts-add i s h =
      let l = length-snoc order i in
      record {
        balanced = omega (arith, l, s.balanced);
        nonempty = omega (arith, l);
        sequenced = All-snoc (λ x. x < length all) order i s.sequenced h;
        controlled = s.controlled;
        located = s.located;
        refers = s.refers;
        paired = s.paired;
        started = λ b. let (d, e, p) = s.started b in (d, e, omega (arith, l, p));
        scanned = s.scanned;
        needing = s.needing;
        left = s.left;
      }

  -- A control flow is opened, and takes what it keeps out of the sequence from what is owed.
  pub Facts-push :
      (cf : ControlFlow)
      → Facts
          (owed_by cf.type + owed)
          all
          order
          open_flows
          definitions
          names
          defining
          strings
          callbacks
          cur
          limit
      → cf.fragment < length all
      → Facts owed all order
          (cf ∷ open_flows)
          definitions
          names
          defining
          strings
          callbacks
          cur
          limit
  unfolding pending
  Facts-push cf s h = record {
    balanced = omega (arith, s.balanced);
    nonempty = s.nonempty;
    sequenced = s.sequenced;
    controlled = (h, s.controlled);
    located = s.located;
    refers = s.refers;
    paired = s.paired;
    started = s.started;
    scanned = s.scanned;
    needing = s.needing;
    left = s.left;
  }

  -- It is closed again.
  pub Facts-pop :
      (cf : ControlFlow)
      → Facts owed all order
          (cf ∷ open_flows)
          definitions
          names
          defining
          strings
          callbacks
          cur
          limit
      → Facts
          (owed_by cf.type + owed)
          all
          order
          open_flows
          definitions
          names
          defining
          strings
          callbacks
          cur
          limit
  unfolding pending
  Facts-pop cf s = record {
    balanced = omega (arith, s.balanced);
    nonempty = s.nonempty;
    sequenced = s.sequenced;
    controlled = s.controlled.1;
    located = s.located;
    refers = s.refers;
    paired = s.paired;
    started = s.started;
    scanned = s.scanned;
    needing = s.needing;
    left = s.left;
  }

  -- A definition starts at the fragment `d` of the sequence.
  pub Facts-define :
      (d : ℕ) (name : List ℕ)
      → Facts owed all order open_flows definitions names defining strings callbacks cur limit
      → IsLocation all d
      → d < length order
      → Facts owed all order open_flows
          (definitions ++ d ∷ [])
          (names ++ name ∷ [])
          true
          strings
          callbacks
          cur
          limit
  Facts-define d name s h less =
      let l = length-snoc definitions d in
      record {
        balanced = s.balanced;
        nonempty = s.nonempty;
        sequenced = s.sequenced;
        controlled = s.controlled;
        located = All-snoc (IsLocation all) definitions d s.located h;
        refers = s.refers;
        paired = omega (arith, l, length-snoc names name, s.paired);
        started = λ b. (d, last_of-snoc definitions d, less);
        scanned = s.scanned;
        needing =
            rw l (All-mono callbacks (λ x (p : x < length definitions). omega arith) s.needing);
        left = s.left;
      }

  -- It ends.
  pub Facts-close :
      Facts owed all order open_flows definitions names defining strings callbacks cur limit
      → Facts owed all order open_flows definitions names false strings callbacks cur limit
  Facts-close s = record {
    balanced = s.balanced;
    nonempty = s.nonempty;
    sequenced = s.sequenced;
    controlled = s.controlled;
    located = s.located;
    refers = s.refers;
    paired = s.paired;
    started = λ b. absurd (ground arith);
    scanned = s.scanned;
    needing = s.needing;
    left = s.left;
  }

  -- The scanner goes on.
  pub Facts-move :
      {limit' : ℕ} (rest : List ℕ)
      → Facts owed all order open_flows definitions names defining strings callbacks cur limit
      → length rest ≤ limit'
      → Facts owed all order open_flows definitions names defining strings callbacks rest limit'
  Facts-move rest s h = record {
    balanced = s.balanced;
    nonempty = s.nonempty;
    sequenced = s.sequenced;
    controlled = s.controlled;
    located = s.located;
    refers = s.refers;
    paired = s.paired;
    started = s.started;
    scanned = s.scanned;
    needing = s.needing;
    left = h;
  }

  -- A word gets a callback.
  pub Facts-callback :
      (i : ℕ)
      → Facts owed all order open_flows definitions names defining strings callbacks cur limit
      → i < length names
      → Facts owed all order open_flows definitions names defining strings
          (callbacks ++ i ∷ [])
          cur
          limit
  Facts-callback i s h = record {
    balanced = s.balanced;
    nonempty = s.nonempty;
    sequenced = s.sequenced;
    controlled = s.controlled;
    located = s.located;
    refers = s.refers;
    paired = s.paired;
    started = s.started;
    scanned = s.scanned;
    needing =
        All-snoc (λ x. x < length definitions) callbacks i s.needing (omega (arith, h, s.paired));
    left = s.left;
  }

  -- A string is added.
  pub Facts-string :
      (str : DataString)
      → Facts owed all order open_flows definitions names defining strings callbacks cur limit
      → IsScanned str
      → Facts owed all order open_flows definitions names defining
          (strings ++ str ∷ [])
          callbacks
          cur
          limit
  Facts-string str s h = record {
    balanced = s.balanced;
    nonempty = s.nonempty;
    sequenced = s.sequenced;
    controlled = s.controlled;
    located = s.located;
    refers = s.refers;
    paired = s.paired;
    started = s.started;
    scanned = All-snoc IsScanned strings str s.scanned h;
    needing = s.needing;
    left = s.left;
  }

  -- The start of a definition is replaced by another one.
  pub Facts-set :
      (d : ℕ) (g : Fragment)
      → Facts owed all order open_flows definitions names defining strings callbacks cur limit
      → d < length all
      → g.op ≡ defined_word_location
      → Facts owed
          (set all d g)
          order
          open_flows
          definitions
          names
          defining
          strings
          callbacks
          cur
          limit
  Facts-set d g s h o =
      let l : length (set all d g) ≡ length all = length-set all d g in
      record {
        balanced = omega (arith, l, s.balanced);
        nonempty = s.nonempty;
        sequenced = rw l s.sequenced;
        controlled = rw l s.controlled;
        located = All-mono definitions (IsLocation-set all d g h o) s.located;
        refers = rw l (
            All-set (Refers (length all)) all d g s.refers
              (λ e. absurd (location-no_offset g.op o e)));
        paired = s.paired;
        started = s.started;
        scanned = s.scanned;
        needing = s.needing;
        left = s.left;
      }
