-- ===== src/Vm/Fetch.antt =====
-- The bytecode backend and the engine agree: what vm_backend.c writes for a fragment, vm_engine.c runs.
use mcp_forth.Prelude.{
  ℕ, ◌+◌, ◌-◌, ◌≤◌, ◌<◌, ◌≡◌, refl, sym, ap, ◌∙◌, subst, inl, inr, true, false, ◌&&◌, some, List,
  [], ◌∷◌, ◌++◌, append_assoc, arith, ltb, leb, length, get_elem?, length-append, drop,
  some-eq_some, word_mod, add_word,
}
use mcp_forth.Fragment.{fragment_at, Opcode, op_number, opcode_last, num_max_one_byte, Fragment}
use mcp_forth.Num.{num_decode}
use mcp_forth.Num.Decode.{num_decode-suffix}
use mcp_forth.VmBackend.{
  with_param, with_offset, shape, fragment_bin_is_representable, fragment_bin_dump,
}
use mcp_forth.VmBackend.Dump.{Reads, IsEncodable, op_number-lt, fragment_bin_dump-Reads}
use mcp_forth.Vm.{Env, Ctx, next, get, push, set_pc, pc_step}
use mcp_forth.Vm.Words
use mcp_forth.Vm.Step
use mcp_forth.Vm.Keeps.{bind-next}

-- The program counter stands in the code in front of `rest`.
pub record At (env : Env) (c : Ctx) (rest : List ℕ) : Type 0 where
  pub front : List ℕ
  pub code_eq : env.code ≡ front ++ rest
  pub pc_eq : c.pc ≡ env.code_base + length front

abbrev pub moved : Ctx → ℕ → Ctx
moved c pc = record c { pc = pc }

drop-front : (xs ys : List ℕ) → drop (length xs) (xs ++ ys) ≡ ys
drop-front [] ys = refl
drop-front (x ∷ xs) ys = drop-front xs ys

-- A step of the program counter over a number that the decoder reads there.
pub pc_step-At :
    (env : Env) (c : Ctx) (src rest : List ℕ) (x : ℕ)
    → At env c src
    → num_decode src ≡ some (x, rest)
    → (pc : ℕ) × (pc_step env c ≡ next x (moved c pc))
      × At env (moved c pc) rest
      × (pc + length rest ≡ c.pc + length src)
unfolding pc_step
pc_step-At env c src rest x at e =
    let (read, split) = num_decode-suffix src e in
    let pc = env.code_base + (length env.code - length rest) in
    let above : ltb c.pc env.code_base ≡ false = ground (arith, at.pc_eq) in
    let here : drop (c.pc - env.code_base) env.code ≡ src =
      ap (λ k. drop k env.code) (omega (arith, at.pc_eq))
      ∙ ap (λ l. drop (length at.front) l) at.code_eq
      ∙ drop-front at.front src in
    let l₁ = ap (λ (l : List ℕ). length l) at.code_eq in
    let l₂ = ap (λ (l : List ℕ). length l) split in
    let n₁ : length src ≡ length read + length rest = omega (arith, l₂, length-append read rest) in
    let n₂ : length env.code ≡ length at.front + length src =
      omega (arith, l₁, length-append at.front src) in
    (
      pc,
      rw (above, here, e),
      record {
        front = at.front ++ read;
        code_eq =
            at.code_eq ∙ ap (λ l. at.front ++ l) split ∙ sym (append_assoc at.front read rest);
        pc_eq = omega (arith, n₁, n₂, length-append at.front read);
      },
      omega (arith, n₁, n₂, at.pc_eq),
    )

-- A step whose opcode is one byte below M4_OPCODE_LAST_.
step-op :
    (env : Env) (c : Ctx) (op : ℕ) (src mid : List ℕ)
    → At env c src
    → op < 22
    → num_decode src ≡ some (op, mid)
    → (pc : ℕ) × (Step.step env c ≡ Step.run_case env c.pc op (moved c pc))
      × At env (moved c pc) mid
      × (pc + length mid ≡ c.pc + length src)
unfolding Step.step Step.dispatch get
step-op env c op src mid at h e =
    let (pc, run, at', l) = pc_step-At env c src mid op at e in
    let small : (leb opcode_last op && leb op num_max_one_byte) ≡ false = ground arith in
    (pc, bind-next get _ refl ∙ bind-next (pc_step env) _ run ∙ rw small, at', l)

step-param :
    (env : Env) (c : Ctx) (all : List Fragment) (f : Fragment) (bytes after : List ℕ)
    → At env c (bytes ++ after)
    → Reads with_param all f bytes after
    → (mid pc : ℕ) × (Step.step env c ≡ Step.run_case env c.pc (op_number f.op) (moved c mid))
      × (pc_step env (moved c mid) ≡ next f.param (moved c pc))
      × At env (moved c pc) after
step-param env c all f bytes after at (rest, d₁, d₂) =
    let (mid, run, at₁, _) =
      step-op env c (op_number f.op) (bytes ++ after) rest at (op_number-lt f.op) d₁ in
    let (pc, run', at₂, _) = pc_step-At env (moved c mid) rest after f.param at₁ d₂ in
    (mid, pc, run, run', at₂)

step-one_byte :
    (env : Env) (c : Ctx) (n : ℕ) (src after : List ℕ)
    → At env c src
    → n + 22 ≤ 63
    → num_decode src ≡ some (n + 22, after)
    → (pc : ℕ) × (Step.step env c ≡ Words.run_builtin env n (moved c pc))
      × At env (moved c pc) after
unfolding Step.step Step.dispatch get
step-one_byte env c n src after at h e =
    let (pc, run, at', _) = pc_step-At env c src after (n + 22) at e in
    let large : (leb opcode_last (n + 22) && leb (n + 22) num_max_one_byte) ≡ true = ground arith in
    let back : n + 22 - opcode_last ≡ n = omega arith in
    (
      pc,
      bind-next get _ refl
          ∙ bind-next (pc_step env) _ run
          ∙ rw large (ap (λ k. Words.run_builtin env k (moved c pc)) back),
      at',
    )

-- What the theorems below say of a fragment: it is the one at index `i` of the sequence, it has been
-- laid out, and its bytes lie where the program counter stands.
pub record Compiled (env : Env) (c : Ctx) (all : List Fragment) (sequence : List ℕ) (i : ℕ)
    (f : Fragment) (after : List ℕ) : Type 0 where
  pub bytes : List ℕ
  pub found : fragment_at all sequence i ≡ some f
  pub encodable : IsEncodable f
  pub representable : fragment_bin_is_representable all sequence i ≡ some true
  pub dumped : fragment_bin_dump all sequence i ≡ some bytes
  pub placed : At env c (bytes ++ after)

module _ (env : Env) (c : Ctx) (all : List Fragment) (sequence : List ℕ) (i : ℕ) (f : Fragment)
    (after : List ℕ) (k : Compiled env c all sequence i f after) where
  pub compiled-Reads : Reads (shape f.op) all f k.bytes after
  compiled-Reads =
      let (bytes, e, _, r) =
        fragment_bin_dump-Reads all sequence i f after k.found k.encodable k.representable in
      subst (λ b. Reads (shape f.op) all f b after) (some-eq_some (sym e ∙ k.dumped)) r

  -- For an encodable fragment whose bytes lie at the program counter: the engine runs the compiled form
  -- of a builtin word as that builtin, in one byte or in two, and stands behind it then.
  pub step-builtin :
      f.op ≡ Opcode.builtin_word
      → (pc : ℕ) × (Step.step env c ≡ Words.run_builtin env f.param (moved c pc))
        × At env (moved c pc) after
  unfolding shape op_number Step.run_case Step.cases Step.builtin_word_case
  step-builtin e = elim (subst (λ o. Reads (shape o) all f k.bytes after) e compiled-Reads) [
    | inl (le, d) ↦ step-one_byte env c f.param (k.bytes ++ after) after k.placed le d
    | inr r ↦
        let (mid, pc, run, run', at) = step-param env c all f k.bytes after k.placed r in
        (
          pc,
          run
              ∙ ap (λ o. Step.run_case env c.pc (op_number o) (moved c mid)) e
              ∙ bind-next (pc_step env) _ run',
          at,
        )
  ]

  -- For an encodable fragment whose bytes lie at the program counter: the engine runs the compiled form
  -- of a literal by pushing it, and stands behind it then.
  pub step-push_literal :
      f.op ≡ Opcode.push_literal
      → (pc : ℕ) × (Step.step env c ≡ push f.param (moved c pc)) × At env (moved c pc) after
  unfolding shape op_number Step.run_case Step.cases Step.push_literal_case
  step-push_literal e =
      let r = subst (λ o. Reads (shape o) all f k.bytes after) e compiled-Reads in
      let (mid, pc, run, run', at) = step-param env c all f k.bytes after k.placed r in
      (
        pc,
        run
            ∙ ap (λ o. Step.run_case env c.pc (op_number o) (moved c mid)) e
            ∙ bind-next (pc_step env) _ run',
        at,
      )

  -- What is asked for a jump: the fragments lie in code that ends below 2 ^ 32.
  module _ (target : Fragment) (aims : get_elem? all f.param ≡ some target)
      (here : c.pc ≡ env.code_base + f.position) (fits : env.code_base + f.position < word_mod)
      (fits' : env.code_base + target.position < word_mod) where
    pub step-offset :
        Reads with_offset all f k.bytes after
        → (mid pc offset : ℕ) × (Step.step env c
            ≡ Step.run_case env c.pc (op_number f.op) (moved c mid))
          × (pc_step env (moved c mid) ≡ next offset (moved c pc))
          × (add_word c.pc offset ≡ env.code_base + target.position)
          × At env (moved c pc) after
    step-offset (rest, offset, d₁, d₂, leads) =
        let (mid, run, at₁, _) =
          step-op env c (op_number f.op) (k.bytes ++ after) rest k.placed (op_number-lt f.op) d₁ in
        let (pc, run', at₂, _) = pc_step-At env (moved c mid) rest after offset at₁ d₂ in
        let to : add_word f.position offset ≡ target.position =
          leads target aims (omega arith) (omega arith) in
        (mid, pc, offset, run, run', omega arith, at₂)

    -- For an encodable fragment whose bytes lie at the program counter, in code that ends below 2 ^ 32:
    -- the engine runs the compiled form of an unconditional branch by going to where the fragment that
    -- it names has been laid out, forwards or backwards, and changes nothing else.
    pub step-branch :
        f.op ≡ Opcode.branch → Step.step env c ≡ next tt (moved c (env.code_base + target.position))
    unfolding shape op_number Step.run_case Step.cases Step.branch_case Step.jump set_pc
    step-branch e =
        let r = subst (λ o. Reads (shape o) all f k.bytes after) e compiled-Reads in
        let (mid, pc, offset, run, run', leads, _) = step-offset r in
        run
        ∙ ap (λ o. Step.run_case env c.pc (op_number o) (moved c mid)) e
        ∙ bind-next (pc_step env) _ run'
        ∙ ap (λ p. next tt (moved c p)) leads
