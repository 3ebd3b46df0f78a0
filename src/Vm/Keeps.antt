-- ===== src/Vm/Keeps.antt =====
-- Invariants of the engine's code: a rule for each way to put code together.
use mcp_forth.Prelude.{
  ℕ, zero, suc, ◌≡◌, subst, get_elem?, Bool, true, false, Option, none, some, List, [], ◌∷◌,
  if◌then◌else◌,
}
use mcp_forth.Vm.{
  Ctx, Outcome, next, done, fault, M, pure, return_code, crash, get, defined, ◌>>=◌, ◌>>◌,
}

-- The invariant holds where the code goes on and where it returns; a fault has no state.
abbrev pub Post : {A : Type 0} → (Ctx → Type 0) → Outcome A → Type 0
Post P (next a c) = P c
Post P (done code c) = P c
Post P fault = Unit {0}

-- The code keeps the invariant from every state.
pub record Keeps {A : Type 0} (P : Ctx → Type 0) (m : M A) : Type 0 where
  pub from_state : (c : Ctx) → P c → Post P (m c)

-- One proof for each entry of a list.
infixr 4 ◌&◌
pub data Each {A : Type 0} (P : A → Type 0) : List A → Type 0 where
  none_left : Each P []
  ◌&◌ : {x : A} {xs : List A} → P x → Each P xs → Each P (x ∷ xs)

pub Each-get_elem? :
    {A : Type 0} {P : A → Type 0} {xs : List A} (i : ℕ) {x : A}
    → Each P xs
    → get_elem? xs i ≡ some x
    → P x
Each-get_elem? i none_left e = cc
Each-get_elem? {P} zero (p & ps) e = subst P (cc) p
Each-get_elem? (suc i) (p & ps) e = Each-get_elem? i ps e

module _ {P : Ctx → Type 0} where
  pub Keeps-bind :
      {A B : Type 0} {m : M A} {f : A → M B}
      → Keeps P m
      → ((a : A) → Keeps P (f a))
      → Keeps P (m >>= f)
  unfolding ◌>>=◌
  Keeps-bind {A} {B} {m = m} {f = f} k h = record {
    from_state = λ c p. go (m c) (k.from_state c p);
  }
    where
      go :
          (o : Outcome A)
          → Post P o
          → Post P (elim o [ next a c' ↦ f a c' | done code c' ↦ done code c' | fault ↦ fault ])
      go (next a c') q = (h a).from_state c' q
      go (done code c') q = q
      go fault q = tt

  pub Keeps-seq :
      {B : Type 0} {m : M (Unit {0})} {k : M B} → Keeps P m → Keeps P k → Keeps P (m >> k)
  unfolding ◌>>◌
  Keeps-seq k h = Keeps-bind k (λ _. h)

  pub Keeps-pure : {A : Type 0} (a : A) → Keeps P (pure a)
  unfolding pure
  Keeps-pure a = record { from_state = λ c p. p }

  pub Keeps-return_code : {A : Type 0} (code : ℕ) → Keeps P (return_code {A = A} code)
  unfolding return_code
  Keeps-return_code code = record { from_state = λ c p. p }

  pub Keeps-crash : {A : Type 0} → Keeps P (crash {A = A})
  unfolding crash
  Keeps-crash = record { from_state = λ c p. tt }

  pub Keeps-get : Keeps P get
  unfolding get
  Keeps-get = record { from_state = λ c p. p }

  pub Keeps-defined : {A : Type 0} (o : Option A) → Keeps P (defined o)
  unfolding defined
  Keeps-defined none = record { from_state = λ c p. tt }
  Keeps-defined (some a) = record { from_state = λ c p. p }

  pub Keeps-if :
      {A : Type 0} (b : Bool) {m k : M A} → Keeps P m → Keeps P k → Keeps P (if b then m else k)
  Keeps-if true h h' = h
  Keeps-if false h h' = h'

pub ruleset keeps_rules = (
  Keeps-bind, Keeps-seq, Keeps-pure, Keeps-return_code, Keeps-crash, Keeps-get, Keeps-defined,
  Keeps-if,
)

-- How a run goes on behind a piece of code that goes on.
pub bind-next :
    {A B : Type 0} (m : M A) (f : A → M B) {c c' : Ctx} {a : A}
    → m c ≡ next a c'
    → (m >>= f) c ≡ f a c'
unfolding ◌>>=◌
bind-next m f {c = c} e = rw (e, ◌>>=◌)

pub seq-next :
    {B : Type 0} (m : M (Unit {0})) (k : M B) {c c' : Ctx} → m c ≡ next tt c' → (m >> k) c ≡ k c'
unfolding ◌>>◌
seq-next m k e = bind-next m (λ _. k) e

pub bind-done :
    {A B : Type 0} (m : M A) (f : A → M B) {c c' : Ctx} {code : ℕ}
    → m c ≡ done code c'
    → (m >>= f) c ≡ done code c'
unfolding ◌>>=◌
bind-done m f e = rw (e, ◌>>=◌)
