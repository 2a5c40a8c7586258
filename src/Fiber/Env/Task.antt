-- ===== src/Fiber/Env/Task.antt =====
-- The start of a task in a free fiber of the pool of src/piorun/fiber/fiber.cc.
use piorun.Prelude.{
  ℕ, ◌+◌, ◌<◌, ◌≡◌, refl, sym, ap, ◌∙◌, subst, List, ◌∷◌, none, some, true, false, ltb, ◌==◌,
  length, arith, ==_refl, lt→ltb,
}
use piorun.Fiber.Env.{
  Fiber, FiberEnvironment, call_stack_max, set_fiber, fill_pool, get_fiber_from_pool, is_live,
  reset_fiber, reset, resume, run_task,
}
use piorun.Fiber.Env.Pool.{count, IsSound, fill_pool-IsSound, fill_pool-call_stack}

-- The fiber of a task, and the environment in which run_task leaves it, with the fiber `i` in front of the pool.
abbrev pub set_up : ℕ → Fiber → Fiber
set_up task x = record x { c_start = false; c_end = false; pfn = some task }

abbrev pub begun : ℕ → ℕ → List ℕ → FiberEnvironment → FiberEnvironment
begun task i rest env = record env {
  fiber =
      set_fiber (set_fiber env.fiber i (set_up task (env.fiber i))) i
        (record (set_up task (env.fiber i)) { c_start = true });
  fiber_pool = rest;
  call_stack = i ∷ env.call_stack;
  current_fiber_count = env.current_fiber_count + 1;
}

reset_lem :
    (i task : ℕ) (env : FiberEnvironment)
    → is_live (env.fiber i) ≡ false
    → (env.fiber i).c_is_main ≡ false
    → reset i (some task) env
      ≡ record env { fiber = set_fiber env.fiber i (set_up task (env.fiber i)) }
unfolding reset
reset_lem i task env idle no_main =
    ap (λ x. record env { fiber = set_fiber env.fiber i x }) (unused (env.fiber i) idle no_main)
  where
    unused :
        (x : Fiber)
        → is_live x ≡ false
        → x.c_is_main ≡ false
        → reset_fiber (some task) x ≡ set_up task x
    unused x a b = rw (b, a) refl

resume_lem :
    (i task : ℕ) (rest : List ℕ) (env : FiberEnvironment)
    → length env.call_stack < call_stack_max
    → resume i (record env {
      fiber = set_fiber env.fiber i (set_up task (env.fiber i));
      fiber_pool = rest;
    })
      ≡ some (begun task i rest env)
unfolding resume
resume_lem i task rest env h = rw (lt→ltb (length env.call_stack) call_stack_max h, ==_refl i) refl

pub set_fiber-here : (f : ℕ → Fiber) (i : ℕ) (x : Fiber) → set_fiber f i x i ≡ x
set_fiber-here f i x = rw (==_refl i) refl

pub set_fiber-there :
    (f : ℕ → Fiber) (i j : ℕ) (x : Fiber) → (j == i) ≡ false → set_fiber f i x j ≡ f j
set_fiber-there f i j x d = rw d refl

-- run_task up to Resume.
pub run_task-resume :
    (task : ℕ) (env : FiberEnvironment) (i : ℕ) (rest : List ℕ)
    → IsSound env
    → (fill_pool env).fiber_pool ≡ i ∷ rest
    → run_task task env
      ≡ resume i (record (fill_pool env) {
        fiber = set_fiber (fill_pool env).fiber i (set_up task ((fill_pool env).fiber i));
        fiber_pool = rest;
      })
unfolding run_task get_fiber_from_pool
run_task-resume task env i rest v e =
    let w = fill_pool-IsSound env v in
    let at_front : 0 < count i (fill_pool env).fiber_pool =
      subst (λ l. 0 < count i l) (sym e) (ground arith) in
    rw (e, run_task, get_fiber_from_pool)
      (ap (resume i) (
        reset_lem i task (record (fill_pool env) { fiber_pool = rest }) (w.free i at_front)
          (w.not_main i at_front)))

pub run_task_lem :
    (task : ℕ) (env : FiberEnvironment) (i : ℕ) (rest : List ℕ)
    → IsSound env
    → (fill_pool env).fiber_pool ≡ i ∷ rest
    → length env.call_stack < call_stack_max
    → run_task task env ≡ some (begun task i rest (fill_pool env))
run_task_lem task env i rest v e h =
    run_task-resume task env i rest v e
    ∙ resume_lem i task rest (fill_pool env)
        (subst (λ l. length l < call_stack_max) (sym (fill_pool-call_stack env)) h)

-- A full call stack is a fault.
pub run_task_full :
    (task : ℕ) (env : FiberEnvironment) (i : ℕ) (rest : List ℕ)
    → IsSound env
    → (fill_pool env).fiber_pool ≡ i ∷ rest
    → ltb (length env.call_stack) call_stack_max ≡ false
    → run_task task env ≡ none
unfolding resume
run_task_full task env i rest v e h =
    let full : ltb (length (fill_pool env).call_stack) call_stack_max ≡ false =
      subst (λ l. ltb (length l) call_stack_max ≡ false) (sym (fill_pool-call_stack env)) h in
    run_task-resume task env i rest v e ∙ rw full refl
