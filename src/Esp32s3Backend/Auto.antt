-- ===== src/Esp32s3Backend/Auto.antt =====
-- Instructions whose form depends on an operand, and the compiler's pool of literals.
use mcp_forth.Prelude.{
  ℕ, zero, suc, ◌+◌, ◌*◌, ◌/◌, ◌%◌, Bool, true, false, not, ◌&&◌, Option, none, some, List, [], ◌∷◌,
  ◌++◌, leb, ◌==◌, if◌then◌else◌, length, minus_one, sle,
}
use mcp_forth.Esp32s3Backend.{
  la, minus, between, l32i_n, s32i_n, add_n, shift_right_2, movi_n, addi_n, l32i, s32i, addi, addmi,
  movi,
}

-- A computation that may add to the pool of literals, or fail an assertion.
abbrev pub S : Type 0 → Type 0
S A = List ℕ → Option (A × List ℕ)

infixl 5 ◌>>=◌
abbrev pub ◌>>=◌ : {A B : Type 0} → S A → (A → S B) → S B
(m >>= f) pool = elim (m pool) [ none ↦ none | some r ↦ f r.0 r.1 ]

abbrev pub pure : {A : Type 0} → A → S A
pure a pool = some (a, pool)

abbrev pub lift : {A : Type 0} → Option A → S A
lift none pool = none
lift (some a) pool = some (a, pool)

-- `m4_compiler_literal`: the index of a value in the pool, at whose end it is added if it is not there.
unfoldable pub literal_loop : List ℕ → ℕ → ℕ → Option ℕ
literal_loop [] value i = none
literal_loop (x ∷ literals) value i =
    if x == value then some i else literal_loop literals value (suc i)

unfoldable pub compiler_literal : ℕ → S ℕ
unfolding literal_loop
compiler_literal value literals = elim (literal_loop literals value 0) [
  | some i ↦ some (i, literals)
  | none ↦ some (length literals, literals ++ (value ∷ []))
]

-- The `switch` on the relaxation.
unfoldable pub offset_fits : ℕ → ℕ → Bool
offset_fits zero n = sle n 0xf
offset_fits (suc zero) n = sle n 0xff
offset_fits (suc (suc zero)) n = leb (n % 256) 0xf
offset_fits _ n = true

unfoldable pub s32i_l32i_representable : ℕ → ℕ → Option Bool
unfolding shift_right_2 offset_fits
s32i_l32i_representable relaxation offset =
    let n = shift_right_2 offset in
    if offset % 4 == 0 && sle n 0x1fff then some (offset_fits relaxation n) else none

unfoldable pub s32i_l32i_relaxed_size : ℕ → Option ℕ
s32i_l32i_relaxed_size zero = some 2
s32i_l32i_relaxed_size (suc zero) = some 3
s32i_l32i_relaxed_size (suc (suc zero)) = some 5
s32i_l32i_relaxed_size (suc (suc (suc zero))) = some 6
s32i_l32i_relaxed_size _ = none

-- `while(!representable) relaxation += 1;` From the relaxation 3 on the test is true.
unfoldable pub s32i_l32i_loop : ℕ → ℕ → ℕ → Option ℕ
unfolding s32i_l32i_representable
s32i_l32i_loop zero relaxation offset = none
s32i_l32i_loop (suc fuel) relaxation offset =
    let next = s32i_l32i_loop fuel (relaxation + 1) offset in
    elim (s32i_l32i_representable relaxation offset) [
      | none ↦ none
      | some fits ↦ if fits then some relaxation else next
    ]

unfoldable pub s32i_l32i_auto_size : ℕ → S ℕ
unfolding s32i_l32i_loop s32i_l32i_relaxed_size
s32i_l32i_auto_size offset = do
  relaxation ← lift (s32i_l32i_loop 4 0 offset)
  lift (s32i_l32i_relaxed_size relaxation)

-- `is_store ? s32i_n : l32i_n`, and the same of the wide forms.
unfoldable pub narrow : Bool → ℕ → ℕ → ℕ → Option (List ℕ)
unfolding s32i_n l32i_n
narrow is_store reg regptr offset =
    if is_store then s32i_n reg regptr offset else l32i_n reg regptr offset

unfoldable pub wide : Bool → ℕ → ℕ → ℕ → Option (List ℕ)
unfolding s32i l32i
wide is_store reg regptr offset =
    if is_store then s32i reg regptr offset else l32i reg regptr offset

-- Two instructions, one behind the other.
unfoldable pub both : Option (List ℕ) → Option (List ℕ) → Option (List ℕ)
both none second = none
both (some bytes) none = none
both (some bytes) (some more) = some (bytes ++ more)

-- The `switch`; the assertions in front of it are the ones of `s32i_l32i_representable`.
unfoldable pub s32i_l32i_by : Bool → ℕ → ℕ → ℕ → ℕ → ℕ → Option (List ℕ)
unfolding narrow wide both addmi
s32i_l32i_by is_store zero reg regptr offset regscratch = narrow is_store reg regptr offset
s32i_l32i_by is_store (suc zero) reg regptr offset regscratch = wide is_store reg regptr offset
s32i_l32i_by is_store (suc (suc zero)) reg regptr offset regscratch =
    both (addmi regscratch regptr (offset / 1024 * 4))
      (narrow is_store reg regscratch (offset % 1024))
s32i_l32i_by is_store (suc (suc (suc zero))) reg regptr offset regscratch =
    both (addmi regscratch regptr (offset / 1024 * 4))
      (wide is_store reg regscratch (offset % 1024))
s32i_l32i_by is_store _ reg regptr offset regscratch = none

unfoldable pub s32i_l32i_relaxed : Bool → ℕ → ℕ → ℕ → ℕ → ℕ → Option (List ℕ)
unfolding s32i_l32i_by shift_right_2
s32i_l32i_relaxed is_store relaxation reg regptr offset regscratch =
    let bytes = s32i_l32i_by is_store relaxation reg regptr offset regscratch in
    if offset % 4 == 0 && sle (shift_right_2 offset) 0x1fff then bytes else none

unfoldable pub s32i_l32i_auto : Bool → ℕ → ℕ → ℕ → ℕ → S (List ℕ)
unfolding s32i_l32i_loop s32i_l32i_relaxed
s32i_l32i_auto is_store reg regptr offset regscratch = do
  relaxation ← lift (s32i_l32i_loop 4 0 offset)
  lift (s32i_l32i_relaxed is_store relaxation reg regptr offset regscratch)

unfoldable pub movi_representable : ℕ → ℕ → S Bool
unfolding compiler_literal s32i_l32i_representable
movi_representable zero imm = pure (between (minus 32) 95 imm)
movi_representable (suc zero) imm = pure (between (minus 2048) 2047 imm)
movi_representable (suc (suc relaxation)) imm = do
  literal_offset ← compiler_literal imm
  lift (s32i_l32i_representable relaxation (literal_offset * 4))

unfoldable pub movi_relaxed_size : ℕ → Option ℕ
unfolding s32i_l32i_relaxed_size
movi_relaxed_size zero = some 2
movi_relaxed_size (suc zero) = some 3
movi_relaxed_size (suc (suc relaxation)) = s32i_l32i_relaxed_size relaxation

-- From the relaxation 5 on the test is true.
unfoldable pub movi_loop : ℕ → ℕ → ℕ → S ℕ
unfolding movi_representable
movi_loop zero relaxation imm = lift none
movi_loop (suc fuel) relaxation imm =
    let next = movi_loop fuel (relaxation + 1) imm in
    movi_representable relaxation imm >>= λ fits. if fits then pure relaxation else next

unfoldable pub movi_auto_size : ℕ → S ℕ
unfolding movi_loop movi_relaxed_size
movi_auto_size imm = do relaxation ← movi_loop 6 0 imm; lift (movi_relaxed_size relaxation)

unfoldable pub movi_relaxed : ℕ → ℕ → ℕ → S (List ℕ)
unfolding movi_n movi compiler_literal s32i_l32i_relaxed
movi_relaxed zero regdst imm = lift (movi_n regdst imm)
movi_relaxed (suc zero) regdst imm = pure (movi regdst imm)
movi_relaxed (suc (suc relaxation)) regdst imm = do
  literal_offset ← compiler_literal imm
  lift (s32i_l32i_relaxed false relaxation regdst la (literal_offset * 4) regdst)

unfoldable pub movi_auto : ℕ → ℕ → S (List ℕ)
unfolding movi_loop movi_relaxed
movi_auto regdst imm = do relaxation ← movi_loop 6 0 imm; movi_relaxed relaxation regdst imm

unfoldable pub addi_representable : ℕ → ℕ → S Bool
unfolding movi_representable
addi_representable zero imm = pure (imm == 0)
addi_representable (suc zero) imm = pure (between minus_one 15 imm && not (imm == 0))
addi_representable (suc (suc zero)) imm = pure (between (minus 128) 127 imm)
addi_representable (suc (suc (suc relaxation))) imm = movi_representable relaxation imm

unfoldable pub addi_relaxed_size : ℕ → Option ℕ
unfolding movi_relaxed_size
addi_relaxed_size zero = some 0
addi_relaxed_size (suc zero) = some 2
addi_relaxed_size (suc (suc zero)) = some 3
addi_relaxed_size (suc (suc (suc relaxation))) = elim (movi_relaxed_size relaxation) [
  | none ↦ none
  | some size ↦ some (size + 2)
]

-- From the relaxation 8 on the test is true.
unfoldable pub addi_loop : ℕ → ℕ → ℕ → S ℕ
unfolding addi_representable
addi_loop zero relaxation imm = lift none
addi_loop (suc fuel) relaxation imm =
    let next = addi_loop fuel (relaxation + 1) imm in
    addi_representable relaxation imm >>= λ fits. if fits then pure relaxation else next

unfoldable pub addi_auto_size : ℕ → S ℕ
unfolding addi_loop addi_relaxed_size
addi_auto_size imm = do relaxation ← addi_loop 9 0 imm; lift (addi_relaxed_size relaxation)

unfoldable pub addi_relaxed : ℕ → ℕ → ℕ → ℕ → ℕ → S (List ℕ)
unfolding addi_n addi add_n movi_relaxed
addi_relaxed zero regdst regsrc imm regscratch = pure []
addi_relaxed (suc zero) regdst regsrc imm regscratch = lift (addi_n regdst regsrc imm)
addi_relaxed (suc (suc zero)) regdst regsrc imm regscratch = lift (addi regdst regsrc imm)
addi_relaxed (suc (suc (suc relaxation))) regdst regsrc imm regscratch = do
  loaded ← movi_relaxed relaxation regscratch imm
  added ← lift (add_n regdst regsrc regscratch)
  pure (loaded ++ added)

unfoldable pub addi_auto : ℕ → ℕ → ℕ → ℕ → S (List ℕ)
unfolding addi_loop addi_relaxed
addi_auto regdst regsrc imm regscratch = do
  relaxation ← addi_loop 9 0 imm
  addi_relaxed relaxation regdst regsrc imm regscratch
