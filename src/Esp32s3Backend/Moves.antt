-- ===== src/Esp32s3Backend/Moves.antt =====
-- `movi_auto`, which loads a number.
use mcp_forth.Prelude.{
  ℕ, zero, suc, ◌+◌, ◌*◌, ◌≤◌, ◌<◌, ◌≡◌, refl, sym, ap, ◌∙◌, inl, inr, Bool, true, false, ◌&&◌,
  Option, some, List, arith, Bool-cases, length, some-eq_some,
}
use mcp_forth.Esp32s3Backend.{la, minus, between, is_reg, movi_n, movi}
use mcp_forth.Esp32s3Backend.Auto.{
  lift, compiler_literal, s32i_l32i_loop, s32i_l32i_relaxed, movi_representable, movi_relaxed_size,
  movi_loop, movi_auto_size, movi_relaxed, movi_auto,
}
use mcp_forth.Esp32s3Backend.Lengths.{
  Writes, fits, representable-mul, loop-total, loop_here, loop_next, relaxed-total, assert-total,
}
use mcp_forth.Esp32s3Backend.Literals.{bind-some, compiler_literal-total}

-- The steps of the search for the form.
pub movi_here :
    (fuel r imm : ℕ) (pool more : List ℕ)
    → movi_representable r imm pool ≡ some (true, more)
    → movi_loop (suc fuel) r imm pool ≡ some (r, more)
unfolding movi_loop
movi_here fuel r imm pool more h = bind-some (movi_representable r imm) _ pool more _ h

pub movi_next :
    (fuel r imm : ℕ) (pool more : List ℕ)
    → movi_representable r imm pool ≡ some (false, more)
    → movi_loop (suc fuel) r imm pool ≡ movi_loop fuel (r + 1) imm more
unfolding movi_loop
movi_next fuel r imm pool more h = bind-some (movi_representable r imm) _ pool more _ h

-- From the relaxation 2 on, the test is that of a load from the pool.
literal-representable :
    (r value i : ℕ) (pool more : List ℕ) (b : Bool)
    → compiler_literal value pool ≡ some (i, more)
    → i < 8192
    → fits r i ≡ b
    → movi_representable (suc (suc r)) value pool ≡ some (b, more)
unfolding movi_representable
literal-representable r value i pool more b e h f =
    bind-some (compiler_literal value) _ pool more i e
    ∙ ap (λ m. lift m more) (representable-mul r i h ∙ ap some f)

no_fuel : (r n q : ℕ) → s32i_l32i_loop 0 r n ≡ some q → ⊥
unfolding s32i_l32i_loop
no_fuel r n q h = cc

literal_written :
    (q imm regdst i : ℕ) (more bytes : List ℕ)
    → compiler_literal imm more ≡ some (i, more)
    → s32i_l32i_relaxed false q regdst la (i * 4) regdst ≡ some bytes
    → movi_relaxed (suc (suc q)) regdst imm more ≡ some (bytes, more)
unfolding movi_relaxed
literal_written q imm regdst i more bytes e h =
    bind-some (compiler_literal imm) _ more more i e ∙ ap (λ code. lift code more) h

-- The first form that fits, when the pool has room for the literal.
abbrev pub Chosen : ℕ → ℕ → List ℕ → Type 0
Chosen imm regdst pool =
    (more : List ℕ) × (r : ℕ) × (movi_loop 6 0 imm pool ≡ some (r, more))
    × (size : ℕ) × (movi_relaxed_size r ≡ some size)
    × (bytes : List ℕ) × (movi_relaxed r regdst imm more ≡ some (bytes, more))
    × (length bytes ≡ size)

-- The search for the form of a load from the pool is that of a load.
same_loop :
    (fuel r q imm i : ℕ) (pool more : List ℕ)
    → i < 8192
    → compiler_literal imm pool ≡ some (i, more)
    → compiler_literal imm more ≡ some (i, more)
    → s32i_l32i_loop fuel r (i * 4) ≡ some q
    → movi_loop fuel (suc (suc r)) imm pool ≡ some (suc (suc q), more)
same_loop zero r q imm i pool more hi e again h = absurd (no_fuel r (i * 4) q h)
same_loop (suc fuel) r q imm i pool more hi e again h = elim (Bool-cases (fits r i)) [
  | inl f ↦
      movi_here fuel (suc (suc r)) imm pool more
        (literal-representable r imm i pool more true e hi f)
      ∙ ap (λ n. some (suc (suc n), more))
          (some-eq_some (sym (loop_here fuel r (i * 4) (representable-mul r i hi ∙ ap some f)) ∙ h))
  | inr f ↦
      movi_next fuel (suc (suc r)) imm pool more
        (literal-representable r imm i pool more false e hi f)
      ∙ ap (λ n. movi_loop fuel n imm more) (two r)
      ∙ same_loop fuel (r + 1) q imm i more more hi again again
          (sym (loop_next fuel r (i * 4) (representable-mul r i hi ∙ ap some f)) ∙ h)
]
  where
    two : (r : ℕ) → suc (suc r) + 1 ≡ suc (suc (r + 1))
    two r = omega arith

literal-Chosen :
    (imm regdst : ℕ) (pool : List ℕ)
    → is_reg regdst ≡ true
    → length pool < 8192
    → movi_representable 0 imm pool ≡ some (false, pool)
    → movi_representable 1 imm pool ≡ some (false, pool)
    → Chosen imm regdst pool
unfolding movi_relaxed_size
literal-Chosen imm regdst pool hr hp h0 h1 =
    let (i, more, e, le, again, found) = compiler_literal-total imm pool in
    let wide : i < 8192 = omega (arith, le) in
    let (q, se, f, three) = loop-total i wide in
    let (size, sz, (bytes, be, l)) =
      relaxed-total false q regdst la i regdst hr refl hr wide three f in
    (
      more,
      suc (suc q),
      movi_next 5 0 imm pool pool h0
          ∙ movi_next 4 1 imm pool pool h1
          ∙ same_loop 4 0 q imm i pool more wide e again se,
      size,
      sz,
      bytes,
      literal_written q imm regdst i more bytes again be,
      l,
    )

movi_n-total :
    (imm regdst : ℕ)
    → is_reg regdst ≡ true
    → between (minus 32) 95 imm ≡ true
    → Writes (movi_n regdst imm) 2
unfolding movi_n
movi_n-total imm regdst hr h = assert-total _ _ (both_hold (is_reg regdst) _ hr h)
  where
    both_hold : (a b : Bool) → a ≡ true → b ≡ true → (a && b) ≡ true
    both_hold a b ha hb = rw (ha, hb) refl

pub chosen :
    (imm regdst : ℕ) (pool : List ℕ)
    → is_reg regdst ≡ true
    → length pool < 8192
    → Chosen imm regdst pool
unfolding movi_relaxed_size movi_relaxed movi_representable
chosen imm regdst pool hr hp = elim (Bool-cases (between (minus 32) 95 imm)) [
  | inl h ↦
      let (bytes, e, l) = movi_n-total imm regdst hr h in
      (
        pool,
        0,
        movi_here 5 0 imm pool pool (at h),
        2,
        refl,
        bytes,
        ap (λ code. lift code pool) e,
        l,
      )
  | inr h0 ↦ elim (Bool-cases (between (minus 2048) 2047 imm)) [
    | inl h ↦ (
      pool,
      1,
      movi_next 5 0 imm pool pool (at h0) ∙ movi_here 4 1 imm pool pool (at h),
      3,
      refl,
      movi regdst imm,
      refl,
      refl,
    )
    | inr h1 ↦ literal-Chosen imm regdst pool hr hp (at h0) (at h1)
  ]
]
  where
    answer : Bool → Option (Bool × List ℕ)
    answer c = some (c, pool)

    at : {a b : Bool} → a ≡ b → answer a ≡ answer b
    at h = ap answer h

-- A register up to 15 is loaded with any number while the pool has fewer than 8192 literals, in
-- exactly the bytes that were counted, and the count and the code leave the same pool.
pub movi_auto-total :
    (imm regdst : ℕ) (pool : List ℕ)
    → regdst ≤ 15
    → length pool < 8192
    → (bytes : List ℕ) × (more : List ℕ) × (movi_auto regdst imm pool ≡ some (bytes, more))
      × (movi_auto_size imm pool ≡ some (length bytes, more))
unfolding movi_auto movi_auto_size
movi_auto-total imm regdst pool hr hp =
    let (more, r, e, size, se, bytes, be, l) = chosen imm regdst pool (ground arith) hp in
    (
      bytes,
      more,
      bind-some (movi_loop 6 0 imm) _ pool more r e ∙ be,
      bind-some (movi_loop 6 0 imm) _ pool more r e
          ∙ ap (λ size. lift size more) (se ∙ ap some (sym l)),
    )
