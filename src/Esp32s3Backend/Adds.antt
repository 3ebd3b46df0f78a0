-- ===== src/Esp32s3Backend/Adds.antt =====
-- `addi_auto`, which adds a number.
use mcp_forth.Prelude.{
  ℕ, zero, suc, ◌+◌, ◌<◌, ◌≡◌, refl, sym, ap, ◌∙◌, inl, inr, Bool, true, false, not, ◌&&◌, Option,
  none, some, List, [], ◌++◌, arith, ◌==◌, Bool-cases, Option-cases, length, length-append,
  minus_one,
}
use mcp_forth.Esp32s3Backend.{minus, between, is_reg, add_n, addi_n, addi}
use mcp_forth.Esp32s3Backend.Auto.{
  S, ◌>>=◌, lift, movi_representable, movi_relaxed_size, movi_loop, movi_relaxed,
  addi_representable, addi_relaxed_size, addi_loop, addi_auto_size, addi_relaxed, addi_auto,
}
use mcp_forth.Esp32s3Backend.Lengths.{Writes, assert-total, all_three}
use mcp_forth.Esp32s3Backend.Moves.{movi_here, movi_next, chosen}
use mcp_forth.Esp32s3Backend.Literals.{bind-some}

adds_here :
    (fuel r imm : ℕ) (pool more : List ℕ)
    → addi_representable r imm pool ≡ some (true, more)
    → addi_loop (suc fuel) r imm pool ≡ some (r, more)
unfolding addi_loop
adds_here fuel r imm pool more h = bind-some (addi_representable r imm) _ pool more _ h

adds_next :
    (fuel r imm : ℕ) (pool more : List ℕ)
    → addi_representable r imm pool ≡ some (false, more)
    → addi_loop (suc fuel) r imm pool ≡ addi_loop fuel (r + 1) imm more
unfolding addi_loop
adds_next fuel r imm pool more h = bind-some (addi_representable r imm) _ pool more _ h

bind-none :
    {A B : Type 0} (m : S A) (f : A → S B) (pool : List ℕ) → m pool ≡ none → (m >>= f) pool ≡ none
bind-none {A} {B} m f pool h = ap after h
  where
    after : Option (A × List ℕ) → Option (B × List ℕ)
    after none = none
    after (some r) = f r.0 r.1

moves_stop :
    (fuel r imm : ℕ) (pool : List ℕ)
    → movi_representable r imm pool ≡ none
    → movi_loop (suc fuel) r imm pool ≡ none
unfolding movi_loop
moves_stop fuel r imm pool h = bind-none (movi_representable r imm) _ pool h

no_moves : (r imm : ℕ) (pool more : List ℕ) (q : ℕ) → movi_loop 0 r imm pool ≡ some (q, more) → ⊥
unfolding movi_loop
no_moves r imm pool more q h = cc

adds_moves :
    (r imm : ℕ) (pool : List ℕ)
    → addi_representable (suc (suc (suc r))) imm pool ≡ movi_representable r imm pool
unfolding addi_representable
adds_moves r imm pool = refl

three_more : (r : ℕ) → suc (suc (suc r)) + 1 ≡ suc (suc (suc (r + 1)))
three_more r = omega arith

impossible : {A : Type 0} {a : A} {o : Option A} → o ≡ none → o ≡ some a → ⊥
impossible e h = cc

-- From the relaxation 3 on, the search is that of a load.
same_moves :
    (fuel r q imm : ℕ) (pool more : List ℕ)
    → movi_loop fuel r imm pool ≡ some (q, more)
    → addi_loop fuel (suc (suc (suc r))) imm pool ≡ some (suc (suc (suc q)), more)
same_moves zero r q imm pool more h = absurd (no_moves r imm pool more q h)
same_moves (suc fuel) r q imm pool more h = elim (Option-cases (movi_representable r imm pool)) [
  | inl e ↦ absurd (impossible (moves_stop fuel r imm pool e) h)
  | inr ((true, after), e) ↦
      adds_here fuel (suc (suc (suc r))) imm pool after (adds_moves r imm pool ∙ e)
      ∙ ap next (sym (movi_here fuel r imm pool after e) ∙ h)
  | inr ((false, after), e) ↦
      adds_next fuel (suc (suc (suc r))) imm pool after (adds_moves r imm pool ∙ e)
      ∙ ap (λ n. addi_loop fuel n imm after) (three_more r)
      ∙ same_moves fuel (r + 1) q imm after more (sym (movi_next fuel r imm pool after e) ∙ h)
]
  where
    next : Option (ℕ × List ℕ) → Option (ℕ × List ℕ)
    next none = none
    next (some (n, pool)) = some (suc (suc (suc n)), pool)

-- The first form that fits.
abbrev Added : ℕ → ℕ → ℕ → ℕ → List ℕ → Type 0
Added imm regdst regsrc regscratch pool =
    (more : List ℕ) × (r : ℕ) × (addi_loop 9 0 imm pool ≡ some (r, more))
    × (size : ℕ) × (addi_relaxed_size r ≡ some size)
    × (bytes : List ℕ) × (addi_relaxed r regdst regsrc imm regscratch more ≡ some (bytes, more))
    × (length bytes ≡ size)

add_n-total :
    (regdst regsrc regscratch : ℕ)
    → is_reg regdst ≡ true
    → is_reg regsrc ≡ true
    → is_reg regscratch ≡ true
    → Writes (add_n regdst regsrc regscratch) 2
unfolding add_n
add_n-total d s t hd hs ht = assert-total _ _ (all_three (is_reg d) (is_reg s) (is_reg t) hd hs ht)

addi_n-total :
    (imm regdst regsrc : ℕ)
    → is_reg regdst ≡ true
    → is_reg regsrc ≡ true
    → (between minus_one 15 imm && not (imm == 0)) ≡ true
    → Writes (addi_n regdst regsrc imm) 2
unfolding addi_n
addi_n-total imm d s hd hs h =
    assert-total _ _
      (all_four (is_reg d) (is_reg s) (between minus_one 15 imm) (not (imm == 0)) hd hs h)
  where
    all_four : (a b c e : Bool) → a ≡ true → b ≡ true → (c && e) ≡ true → (a && b && c && e) ≡ true
    all_four a b true e ha hb h = rw (ha, hb) h
    all_four a b false e ha hb h = rw (ha, hb) h

addi-total :
    (imm regdst regsrc : ℕ)
    → is_reg regdst ≡ true
    → is_reg regsrc ≡ true
    → between (minus 128) 127 imm ≡ true
    → Writes (addi regdst regsrc imm) 3
unfolding addi
addi-total imm d s hd hs h =
    assert-total _ _ (all_three (is_reg d) (is_reg s) (between (minus 128) 127 imm) hd hs h)

loaded_size :
    (r size : ℕ)
    → movi_relaxed_size r ≡ some size
    → addi_relaxed_size (suc (suc (suc r))) ≡ some (size + 2)
unfolding addi_relaxed_size
loaded_size r size h = rw (addi_relaxed_size, h) refl

loaded_bytes :
    (r regdst regsrc imm regscratch : ℕ) (pool loaded added : List ℕ)
    → movi_relaxed r regscratch imm pool ≡ some (loaded, pool)
    → add_n regdst regsrc regscratch ≡ some added
    → addi_relaxed (suc (suc (suc r))) regdst regsrc imm regscratch pool
      ≡ some (loaded ++ added, pool)
unfolding addi_relaxed
loaded_bytes r regdst regsrc imm regscratch pool loaded added h ha =
    bind-some (movi_relaxed r regscratch imm) _ pool pool loaded h
    ∙ bind-some (lift (add_n regdst regsrc regscratch)) _ pool pool added
        (ap (λ code. lift code pool) ha)

module _ (imm d s t : ℕ) (pool : List ℕ) (hd : is_reg d ≡ true) (hs : is_reg s ≡ true)
    (ht : is_reg t ≡ true) (room : length pool < 8192) where
  answer : Bool → Option (Bool × List ℕ)
  answer c = some (c, pool)

  loaded :
      addi_representable 0 imm pool ≡ some (false, pool)
      → addi_representable 1 imm pool ≡ some (false, pool)
      → addi_representable 2 imm pool ≡ some (false, pool)
      → Added imm d s t pool
  loaded h0 h1 h2 =
      let (more, r, e, size, se, bytes, be, l) = chosen imm t pool ht room in
      let (added, ae, al) = add_n-total d s t hd hs ht in
      (
        more,
        suc (suc (suc r)),
        adds_next 8 0 imm pool pool h0
            ∙ adds_next 7 1 imm pool pool h1
            ∙ adds_next 6 2 imm pool pool h2
            ∙ same_moves 6 0 r imm pool more e,
        size + 2,
        loaded_size r size se,
        bytes ++ added,
        loaded_bytes r d s imm t more bytes added be ae,
        length-append bytes added ∙ rw (l, al) refl,
      )

  added : Added imm d s t pool
  unfolding addi_representable addi_relaxed_size addi_relaxed answer
  added = elim (Bool-cases (imm == 0)) [
    | inl h ↦ (pool, 0, adds_here 8 0 imm pool pool (ap answer h), 0, refl, [], refl, refl)
    | inr h0 ↦ elim (Bool-cases (between minus_one 15 imm && not (imm == 0))) [
      | inl h ↦
          let (bytes, e, l) = addi_n-total imm d s hd hs h in
          (
            pool,
            1,
            adds_next 8 0 imm pool pool (ap answer h0) ∙ adds_here 7 1 imm pool pool (ap answer h),
            2,
            refl,
            bytes,
            ap (λ code. lift code pool) e,
            l,
          )
      | inr h1 ↦ elim (Bool-cases (between (minus 128) 127 imm)) [
        | inl h ↦
            let (bytes, e, l) = addi-total imm d s hd hs h in
            (
              pool,
              2,
              adds_next 8 0 imm pool pool (ap answer h0)
                  ∙ adds_next 7 1 imm pool pool (ap answer h1)
                  ∙ adds_here 6 2 imm pool pool (ap answer h),
              3,
              refl,
              bytes,
              ap (λ code. lift code pool) e,
              l,
            )
        | inr h2 ↦ loaded (ap answer h0) (ap answer h1) (ap answer h2)
      ]
    ]
  ]

  -- A number is added to a register in exactly the bytes that were counted.
  pub addi_auto-total :
      (bytes : List ℕ) × (more : List ℕ) × (addi_auto d s imm t pool ≡ some (bytes, more))
      × (addi_auto_size imm pool ≡ some (length bytes, more))
  unfolding addi_auto addi_auto_size
  addi_auto-total =
      let (more, r, e, size, se, bytes, be, l) = added in
      (
        bytes,
        more,
        bind-some (addi_loop 9 0 imm) _ pool more r e ∙ be,
        bind-some (addi_loop 9 0 imm) _ pool more r e
            ∙ ap (λ size. lift size more) (se ∙ ap some (sym l)),
      )
