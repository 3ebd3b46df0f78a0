-- ===== src/Chores/Tests.antt =====
-- A constant is declared and a literal pushed: nothing of the chores between them is needed.
use mcp_forth.Prelude.{
  ℕ, zero, suc, ◌≡◌, refl, true, false, Option, some, List, [], ◌∷◌, arith, ◌==◌, if◌then◌else◌,
}
use mcp_forth.Fragment.{Opcode, Fragment}
use mcp_forth.Chores.{Flags, no_flags, flags_at, backend_fragment_get_needed_chores}
use mcp_forth.Chores.Boundary.{Machine, before, after, chore_a, chore_b, chore_y, chore_z}
use mcp_forth.Chores.Straight.{run, Known, run-needed_chores}

abbrev fragment : Opcode → Fragment
fragment op = record {
  param = 5;
  position = 0;
  op = op;
  is_word_fragment = false;
  ext_param = 0;
  relaxation = 0;
}

abbrev program : List Fragment
program = fragment Opcode.declare_constant ∷ fragment Opcode.push_literal ∷ []

abbrev pops : Flags
pops = record { a = false; b = false; clob = false; y = true; z = true }

abbrev pushes : Flags
pushes = record { a = true; b = true; clob = true; y = false; z = false }

abbrev test_flags : Fragment → Option Flags
test_flags f = elim f.op [
  | Opcode.declare_constant ↦ some pops
  | Opcode.push_literal ↦ some pushes
  | _ ↦ some no_flags
]

abbrev flags : ℕ → Flags
flags zero = pops
flags (suc i) = pushes

abbrev needs : ℕ → Flags
needs zero = no_flags
needs (suc i) = record { a = false; b = false; clob = true; y = false; z = false }

-- The constant goes to a cell far away; the literal to eax.
abbrev work : ℕ → Machine → Machine
work zero m = record m { memory = λ at. if at == 4000 then m.eax else m.memory at }
work (suc i) m = record m { eax = 5 }

needs_run :
    (backend_fragment_get_needed_chores test_flags program (0 ∷ 1 ∷ []) 0 ≡ some (needs 0))
    × (backend_fragment_get_needed_chores test_flags program (0 ∷ 1 ∷ []) 1 ≡ some (needs 1))
unfolding backend_fragment_get_needed_chores
needs_run = (refl, refl)

known : Known test_flags program (0 ∷ 1 ∷ []) flags needs work
unfolding backend_fragment_get_needed_chores flags_at
known zero h = (
  refl,
  refl,
  record { b_a = λ e. cc e; clob_b = λ e. cc e; y_z = λ e. refl },
  record { address = λ m w. w; clobbers = λ e. cc e },
)
known (suc zero) h = (
  refl,
  refl,
  record { b_a = λ e. refl; clob_b = λ e. refl; y_z = λ e. cc e },
  record {
    address = λ m w. w;
    clobbers = λ e m m' p q i. record { eax = 5; ebx = p i; memory = q i };
  },
)
known (suc (suc i)) h = absurd (omega arith)

abbrev start : Machine
start = record { eax = 9; ebx = 104; memory = λ at. at }

run-needed_chores_example : run needs work 2 0 start ≡ run flags work 2 0 start
run-needed_chores_example =
    run-needed_chores test_flags program (0 ∷ 1 ∷ []) flags needs work start known (omega arith)

final_run : (run needs work 2 0 start).eax ≡ 5
unfolding run before after chore_a chore_b chore_y chore_z
final_run = refl
