-- ===== src/Fiber/Sync/SharedMutex/Order.antt =====
-- Fairness among the writers, and among the readers, that wait.
use piorun.Prelude.{◌≡◌, List, [], ◌∷◌, ◌++◌, arith, append-nil, queue_step}
use piorun.Fiber.Sync.{Fiber, Outcome, acquired, parked}
use piorun.Fiber.Sync.SharedMutex.{
  System, Step, locks, tries, unlocks, locks_shared, tries_shared, unlocks_shared, resumes_writer,
  resumes_reader, start, init, lock, try_lock, unlock, lock_shared, try_lock_shared, unlock_shared,
  Wake,
}

-- The fibers that begin to wait in a step, or are signalled in it, as writers and as readers.
pub record Both : Type 0 where
  pub writers : List Fiber
  pub readers : List Fiber

abbrev pub join : Both → Both → Both
join a b = record { writers = a.writers ++ b.writers; readers = a.readers ++ b.readers }

abbrev pub nobody : Both
nobody = record { writers = []; readers = [] }

abbrev when_parked : Fiber → Outcome → List Fiber
when_parked f acquired = []
when_parked f parked = f ∷ []

abbrev pub parks : {s t : System} → Step s t → Both
parks (locks {s} f) = record { writers = when_parked f (lock s.mutex f).1; readers = [] }
parks (locks_shared {s} f) = record {
  writers = [];
  readers = when_parked f (lock_shared s.mutex f).1;
}
parks _ = nobody

abbrev woken : Wake → Both
woken w = record { writers = w.writer; readers = w.readers }

abbrev pub serves : {s t : System} → Step s t → Both
serves (unlocks {s} xs f ys e) = woken (unlock s.mutex).1
serves (unlocks_shared {s} xs f ys e) = woken (unlock_shared s.mutex).1
serves _ = nobody

-- A run, with the fibers that began to wait and those that were signalled, each in order.
pub data Trace (s : System) : Both → Both → System → Type 0 where
  stop : Trace s nobody nobody s
  step :
      {p q : Both} {t u : System}
      → Trace s p q t
      → (st : Step t u) → Trace s (join p (parks st)) (join q (serves st)) u

Step-wwaiters :
    {s t : System} (st : Step s t)
    → s.mutex.wwaiters ++ (parks st).writers ≡ (serves st).writers ++ t.mutex.wwaiters
unfolding lock try_lock unlock lock_shared try_lock_shared unlock_shared
Step-wwaiters (locks {s} f) = ground (arith, append-nil s.mutex.wwaiters)
Step-wwaiters (tries {s} f) = ground (arith, append-nil s.mutex.wwaiters)
Step-wwaiters (unlocks {s} xs f ys e) = ground (arith, append-nil s.mutex.wwaiters)
Step-wwaiters (locks_shared {s} f) = ground (arith, append-nil s.mutex.wwaiters)
Step-wwaiters (tries_shared {s} f) = ground (arith, append-nil s.mutex.wwaiters)
Step-wwaiters (unlocks_shared {s} xs f ys e) = ground (arith, append-nil s.mutex.wwaiters)
Step-wwaiters (resumes_writer {s} xs f ys e) = append-nil s.mutex.wwaiters
Step-wwaiters (resumes_reader {s} xs f ys e) = append-nil s.mutex.wwaiters

Step-rwaiters :
    {s t : System} (st : Step s t)
    → s.mutex.rwaiters ++ (parks st).readers ≡ (serves st).readers ++ t.mutex.rwaiters
unfolding lock try_lock unlock lock_shared try_lock_shared unlock_shared
Step-rwaiters (locks {s} f) = ground (arith, append-nil s.mutex.rwaiters)
Step-rwaiters (tries {s} f) = ground (arith, append-nil s.mutex.rwaiters)
Step-rwaiters (unlocks {s} xs f ys e) = ground (arith, append-nil s.mutex.rwaiters)
Step-rwaiters (locks_shared {s} f) = ground (arith, append-nil s.mutex.rwaiters)
Step-rwaiters (tries_shared {s} f) = ground (arith, append-nil s.mutex.rwaiters)
Step-rwaiters (unlocks_shared {s} xs f ys e) = ground (arith, append-nil s.mutex.rwaiters)
Step-rwaiters (resumes_writer {s} xs f ys e) = append-nil s.mutex.rwaiters
Step-rwaiters (resumes_reader {s} xs f ys e) = append-nil s.mutex.rwaiters

Trace-queues :
    {s t : System} {p q : Both}
    → Trace s p q t
    → (s.mutex.wwaiters ++ p.writers ≡ q.writers ++ t.mutex.wwaiters)
      × (s.mutex.rwaiters ++ p.readers ≡ q.readers ++ t.mutex.rwaiters)
Trace-queues {s} stop = (append-nil s.mutex.wwaiters, append-nil s.mutex.rwaiters)
Trace-queues {s} (step {p} {q} {t} {u} run st) =
    let (w, r) = Trace-queues run in
    let out = serves st in
    (
      queue_step s.mutex.wwaiters t.mutex.wwaiters u.mutex.wwaiters p.writers q.writers
          (parks st).writers out.writers w (Step-wwaiters st),
      queue_step s.mutex.rwaiters t.mutex.rwaiters u.mutex.rwaiters p.readers q.readers
          (parks st).readers out.readers r (Step-rwaiters st),
    )

-- In every run from the fresh mutex, the writers that began to wait, in order, are those that were
-- signalled, in order, and then those that still wait, in order; and so it is with the readers.
pub shared_in_order :
    {t : System} {p q : Both}
    → Trace start p q t
    → (p.writers ≡ q.writers ++ t.mutex.wwaiters) × (p.readers ≡ q.readers ++ t.mutex.rwaiters)
shared_in_order run = unfold start init in Trace-queues run
