-- ===== src/Fiber/Sync/Mutex/Safe.antt =====
-- Mutual exclusion, and no lost wake-up.
use piorun.Prelude.{
  ℕ, ◌+◌, ◌≤◌, ◌≡◌, refl, ap, ◌≢◌, ◌⊎◌, List, [], ◌∷◌, true, false, Option, none, some, arith,
  length, length-append, length-split, if◌then◌else◌,
}
use piorun.Fiber.Sync.{Fiber}
use piorun.Fiber.Sync.Mutex.{
  System, Step, locks, tries, unlocks, resumes, Reach, here, next, start, init, lock, try_lock,
  unlock, signal,
}

-- There is one token: it is free, with the holder, or on its way to a signalled fiber.
pub record IsValid (s : System) : Type 0 where
  pub token : length s.holders + length s.ready ≡ (if s.mutex.locked then 1 else 0)
  pub free : s.mutex.locked ≡ false → s.mutex.waiters ≡ []

abbrev count_signal : Option Fiber → ℕ
count_signal none = 0
count_signal (some f) = 1

length-signal :
    (o : Option Fiber) (r : List Fiber) → length (signal o r) ≡ length r + count_signal o
length-signal none r = omega arith
length-signal (some f) r = omega (arith, length-append r (f ∷ []))

pub start-IsValid : IsValid start
unfolding start init
start-IsValid = record { token = refl; free = λ _. refl }

pub Step-IsValid : {s t : System} → Step s t → IsValid s → IsValid t
unfolding lock try_lock unlock
Step-IsValid (locks {s} f) v = ground arith
Step-IsValid (tries {s} f) v = ground arith
Step-IsValid (unlocks {s} xs f ys e) v =
    ground (arith, ap length e, length-split xs f ys, length-signal (unlock s.mutex).1 s.ready)
Step-IsValid (resumes {s} xs f ys e) v = ground (arith, ap length e, length-split xs f ys)

pub Reach-IsValid : {s t : System} → IsValid s → Reach s t → IsValid t
Reach-IsValid v here = v
Reach-IsValid v (next r st) = Step-IsValid st (Reach-IsValid v r)

-- In every state that is reached from the fresh mutex by any interleaving of calls, at most one fiber
-- has the mutex or was signalled to have it, and none has it unless it is marked as locked.
pub mutual_exclusion :
    {s : System}
    → Reach start s
    → (length s.holders + length s.ready ≤ 1) × ((s.mutex.locked ≡ true) ⊎ (s.holders ≡ []))
mutual_exclusion r = let v = Reach-IsValid start-IsValid r in (ground arith, ground arith)

-- No wake-up is lost: while fibers wait, some fiber has the mutex, which will hand it on, or
-- one was signalled and is about to have it; and never both.
pub waiters_are_served :
    {s : System} → Reach start s → s.mutex.waiters ≢ [] → length s.holders + length s.ready ≡ 1
waiters_are_served r some_wait = let v = Reach-IsValid start-IsValid r in ground arith
