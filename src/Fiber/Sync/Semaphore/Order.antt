-- ===== src/Fiber/Sync/Semaphore/Order.antt =====
-- Fairness: permits go to the fibers that wait in the order in which they came.
use piorun.Prelude.{◌≡◌, ℕ, List, [], ◌∷◌, ◌++◌, arith, append-nil, queue_step}
use piorun.Fiber.Sync.{Fiber, Outcome, acquired, parked}
use piorun.Fiber.Sync.Semaphore.{
  System, Step, waits, tries, signals, resumes, start, init, wait, try_wait, signal, add_ready,
}

abbrev when_parked : Fiber → Outcome → List Fiber
when_parked f acquired = []
when_parked f parked = f ∷ []

-- Who begins to wait in a step, and who is signalled in it.
abbrev pub begins : {s t : System} → Step s t → List Fiber
begins (waits {s} f) = when_parked f (wait s.semaphore f).1
begins _ = []

abbrev pub serves : {s t : System} → Step s t → List Fiber
serves (signals {s} h) = add_ready (signal s.semaphore).1 []
serves _ = []

-- A run, with the fibers that began to wait and those that were signalled, each in order.
pub data Trace (s : System) : List Fiber → List Fiber → System → Type 0 where
  stop : Trace s [] [] s
  step :
      {ps qs : List Fiber} {t u : System}
      → Trace s ps qs t
      → (st : Step t u) → Trace s (ps ++ begins st) (qs ++ serves st) u

Step-waiters :
    {s t : System} (st : Step s t)
    → s.semaphore.waiters ++ begins st ≡ serves st ++ t.semaphore.waiters
unfolding wait try_wait signal
Step-waiters (waits {s} f) = ground (arith, append-nil s.semaphore.waiters)
Step-waiters (tries {s} f) = ground (arith, append-nil s.semaphore.waiters)
Step-waiters (signals {s} h) = ground (arith, append-nil s.semaphore.waiters)
Step-waiters (resumes {s} xs f ys e) = append-nil s.semaphore.waiters

Trace-waiters :
    {s t : System} {ps qs : List Fiber}
    → Trace s ps qs t
    → s.semaphore.waiters ++ ps ≡ qs ++ t.semaphore.waiters
Trace-waiters {s} stop = append-nil s.semaphore.waiters
Trace-waiters {s} (step {ps} {qs} {t} {u} run st) =
    queue_step s.semaphore.waiters t.semaphore.waiters u.semaphore.waiters ps qs (begins st)
      (serves st) (Trace-waiters run) (Step-waiters st)

-- In every run from a fresh semaphore, the fibers that began to wait, in order, are those that were
-- signalled, in order, and then those that still wait, in order.
pub permits_in_order :
    (count : ℕ) {t : System} {ps qs : List Fiber}
    → Trace (start count) ps qs t
    → ps ≡ qs ++ t.semaphore.waiters
permits_in_order count run = unfold start init in Trace-waiters run
