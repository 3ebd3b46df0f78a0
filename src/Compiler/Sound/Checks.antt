-- ===== src/Compiler/Sound/Checks.antt =====
-- The checks of `m4_compile` on the way through a handler: each gives what it has found, or an error.
use mcp_forth.Prelude.{◌≡◌, refl, Bool, true, false, Option, none, some}
use mcp_forth.Compiler.State.{Error, Result, ◌>>=◌, ◌>>◌, rassert, defined, or_error}
use mcp_forth.Compiler.Sound.{Safe, safe_ok, safe_err}

pub Safe-bind :
    {A B : Type 0} {P : A → Type 0} {Q : B → Type 0} {m : Result A} {f : A → Result B}
    → Safe P m
    → ((a : A) → P a → Safe Q (f a))
    → Safe Q (m >>= f)
Safe-bind (safe_ok {a} p) h = h a p
Safe-bind safe_err h = safe_err

pub Safe-then :
    {B : Type 0} {P : Unit {0} → Type 0} {Q : B → Type 0} {m : Result (Unit {0})} {k : Result B}
    → Safe P m
    → (P tt → Safe Q k)
    → Safe Q (m >> k)
Safe-then (safe_ok p) h = h p
Safe-then safe_err h = safe_err

pub Safe-weaken :
    {A : Type 0} {P Q : A → Type 0} {m : Result A} → Safe P m → ((a : A) → P a → Q a) → Safe Q m
Safe-weaken (safe_ok {a} p) h = safe_ok (h a p)
Safe-weaken safe_err h = safe_err

pub Safe-rassert : (b : Bool) (e : Error) → Safe (λ u. b ≡ true) (rassert b e)
Safe-rassert true e = safe_ok refl
Safe-rassert false e = safe_err

pub Safe-or_error : {A : Type 0} (o : Option A) (e : Error) → Safe (λ a. o ≡ some a) (or_error o e)
Safe-or_error none e = safe_err
Safe-or_error (some a) e = safe_ok refl

pub Safe-defined :
    {A : Type 0} {o : Option A} (a : A) → o ≡ some a → Safe (λ b. o ≡ some b) (defined o)
Safe-defined {o = none} a e = cc
Safe-defined {o = some b} a e = safe_ok refl
