-- ===== src/Globals/Tests.antt =====
-- Eight slots: programs launched, one refused, and all released.
use mcp_forth.Prelude.{ℕ, ◌≤◌, ◌≡◌, refl, Option, none, some, List, [], ◌∷◌, length, get_elem?}
use mcp_forth.Globals.{Global, used, error, global_get_ctx, global_main_get_callbacks_used}
use mcp_forth.Globals.{global_thread_set, threads_cannot_launch_programs_error}
use mcp_forth.Globals.Slots.{
  Command, launch, cleanup, owners_after, perform_all, owners_all, perform_all-owners,
}

abbrev commands : List (Command ℕ)
commands = launch 3 100 ∷ cleanup ∷ launch 2 200 ∷ launch 0 300 ∷ launch 7 400 ∷ launch 6 500 ∷ []

owners_run : owners_all 8 commands [] ≡ 200 ∷ 200 ∷ 500 ∷ 500 ∷ 500 ∷ 500 ∷ 500 ∷ 500 ∷ []
unfolding owners_all owners_after
owners_run = refl

abbrev nobody : Option (Global ℕ)
nobody = none

-- A thread has its own context at every index, and cannot launch a program.
thread_run :
    (global_get_ctx 8 (global_thread_set 8 nobody 7) 3 ≡ some 7)
    × (global_main_get_callbacks_used 8 (global_thread_set 8 nobody 7)
        ≡ error threads_cannot_launch_programs_error)
unfolding global_get_ctx global_main_get_callbacks_used global_thread_set
thread_run = (refl, refl)

perform_all-owners_example :
    (global : Option (Global ℕ)) × (perform_all 8 commands none ≡ some global)
    × (global_main_get_callbacks_used 8 global ≡ used (length (owners_all 8 commands [])))
    × (length (owners_all 8 commands []) ≤ 8)
    × (global_get_ctx 8 global 2 ≡ get_elem? (owners_all 8 commands []) 2)
perform_all-owners_example = perform_all-owners 8 commands 2
