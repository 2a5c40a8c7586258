-- ===== src/Fiber/Sync/Mutex/Order.antt =====
-- Fairness: the mutex serves the fibers that wait in the order in which they came.
use piorun.Prelude.{◌≡◌, List, [], ◌∷◌, ◌++◌, arith, append-nil, queue_step}
use piorun.Fiber.Sync.{Fiber, Outcome, acquired, parked}
use piorun.Fiber.Sync.Mutex.{
  System, Step, locks, tries, unlocks, resumes, start, init, lock, try_lock, unlock, signal,
}

abbrev pub when_parked : Fiber → Outcome → List Fiber
when_parked f acquired = []
when_parked f parked = f ∷ []

-- Who begins to wait in a step, and who is signalled in it.
abbrev pub parks : {s t : System} → Step s t → List Fiber
parks (locks {s} f) = when_parked f (lock s.mutex f).1
parks _ = []

abbrev pub serves : {s t : System} → Step s t → List Fiber
serves (unlocks {s} xs f ys e) = signal (unlock s.mutex).1 []
serves _ = []

-- A run, with the fibers that began to wait and those that were signalled, each in order.
pub data Trace (s : System) : List Fiber → List Fiber → System → Type 0 where
  stop : Trace s [] [] s
  step :
      {ps qs : List Fiber} {t u : System}
      → Trace s ps qs t
      → (st : Step t u) → Trace s (ps ++ parks st) (qs ++ serves st) u

Step-queue :
    {s t : System} (st : Step s t) → s.mutex.waiters ++ parks st ≡ serves st ++ t.mutex.waiters
unfolding lock try_lock unlock
Step-queue (locks {s} f) = ground (arith, append-nil s.mutex.waiters)
Step-queue (tries {s} f) = ground (arith, append-nil s.mutex.waiters)
Step-queue (unlocks {s} xs f ys e) = ground (arith, append-nil s.mutex.waiters)
Step-queue (resumes {s} xs f ys e) = ground (arith, append-nil s.mutex.waiters)

Trace-queue :
    {s t : System} {ps qs : List Fiber}
    → Trace s ps qs t
    → s.mutex.waiters ++ ps ≡ qs ++ t.mutex.waiters
Trace-queue {s} stop = append-nil s.mutex.waiters
Trace-queue {s} (step {ps} {qs} {t} {u} run st) =
    queue_step s.mutex.waiters t.mutex.waiters u.mutex.waiters ps qs (parks st) (serves st)
      (Trace-queue run) (Step-queue st)

-- In every run from the fresh mutex, the fibers that began to wait, in order, are those that were
-- signalled, in order, and then those that still wait, in order: nobody is overtaken or forgotten.
pub first_come_first_served :
    {t : System} {ps qs : List Fiber} → Trace start ps qs t → ps ≡ qs ++ t.mutex.waiters
first_come_first_served run = unfold start init in Trace-queue run
