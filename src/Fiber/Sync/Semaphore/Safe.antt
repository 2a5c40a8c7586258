-- ===== src/Fiber/Sync/Semaphore/Safe.antt =====
-- Permits are conserved, and none is kept from a fiber that waits.
use piorun.Prelude.{
  ℕ, ◌+◌, ◌<◌, ◌≡◌, refl, ap, ◌⊎◌, List, [], ◌∷◌, Option, none, some, arith, length, length-append,
  length-split,
}
use piorun.Fiber.Sync.{Fiber}
use piorun.Fiber.Sync.Semaphore.{
  System, Step, waits, tries, signals, resumes, Reach, here, next, start, init, wait, try_wait,
  signal, add_ready,
}

-- A permit is free, taken, or on its way to a signalled fiber; a free one means that nobody waits.
pub record IsValid (s : System) : Type 0 where
  pub permits : s.semaphore.count + length s.ready + s.taken ≡ s.given
  pub free : 0 < s.semaphore.count → s.semaphore.waiters ≡ []

abbrev count_ready : Option Fiber → ℕ
count_ready none = 0
count_ready (some f) = 1

length-add_ready :
    (o : Option Fiber) (r : List Fiber) → length (add_ready o r) ≡ length r + count_ready o
length-add_ready none r = omega arith
length-add_ready (some f) r = omega (arith, length-append r (f ∷ []))

pub start-IsValid : (count : ℕ) → IsValid (start count)
unfolding start init
start-IsValid count = record { permits = omega arith; free = λ _. refl }

pub Step-IsValid : {s t : System} → Step s t → IsValid s → IsValid t
unfolding wait try_wait signal
Step-IsValid (waits {s} f) v = ground arith
Step-IsValid (tries {s} f) v = ground arith
Step-IsValid (signals {s} h) v = ground (arith, length-add_ready (signal s.semaphore).1 s.ready)
Step-IsValid (resumes {s} xs f ys e) v = ground (arith, ap length e, length-split xs f ys)

pub Reach-IsValid : {s t : System} → IsValid s → Reach s t → IsValid t
Reach-IsValid v here = v
Reach-IsValid v (next r st) = Step-IsValid st (Reach-IsValid v r)

-- In every state reached from a fresh semaphore by any interleaving of calls: the permits that were
-- there or were signalled are those that are free, those on their way to a signalled fiber, and
-- those that were taken; and while a fiber waits, none is free.
pub permits_conserved :
    (count : ℕ) {s : System}
    → Reach (start count) s
    → (s.semaphore.count + length s.ready + s.taken ≡ s.given)
      × ((s.semaphore.waiters ≡ []) ⊎ (s.semaphore.count ≡ 0))
permits_conserved count r =
    let v = Reach-IsValid (start-IsValid count) r in (v.permits, ground arith)
