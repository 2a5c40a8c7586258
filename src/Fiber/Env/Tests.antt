-- ===== src/Fiber/Env/Tests.antt =====
-- A task that is begun while another one runs, and the theorem at it.
use piorun.Prelude.{◌⊎◌, ℕ, ◌≡◌, refl, ◌∷◌, Option, some, none, true, false, arith}
use piorun.Fiber.Env.{FiberEnvironment, fresh, is_live, run_task, Reach, here, next_step, begins}
use piorun.Fiber.Env.Safe.{run_task_begins}

abbrev or_fresh : Option FiberEnvironment → FiberEnvironment
or_fresh none = fresh
or_fresh (some e) = e

began : Reach fresh (or_fresh (run_task 7 fresh))
unfolding run_task
began = next_step here (begins 7 refl)

run_task_begins_example :
    let e = or_fresh (run_task 7 fresh) in
    (i : ℕ) × (e' : FiberEnvironment) × (run_task 8 e ≡ some e')
    × (is_live (e.fiber i) ≡ false)
    × (e'.call_stack ≡ i ∷ e.call_stack)
    × (is_live (e'.fiber i) ≡ true)
    × ((e'.fiber i).pfn ≡ some 8)
    × ((is_live (e.fiber 1) ≡ false) ⊎ (e'.fiber 1 ≡ e.fiber 1))
unfolding run_task
run_task_begins_example = run_task_begins {e = or_fresh (run_task 7 fresh)} 8 1 began (omega arith)
