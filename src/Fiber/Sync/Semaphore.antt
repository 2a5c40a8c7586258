-- ===== src/Fiber/Sync/Semaphore.antt =====
-- fiber::semaphore, and all interleavings of its calls.
pub mod Safe
pub mod Order
pub mod Tests
use piorun.Prelude.{
  ℕ, suc, zero, ◌+◌, ◌-◌, ◌%◌, ◌^◌, ◌<◌, ◌≡◌, List, [], ◌∷◌, ◌++◌, Option, none, some, Bool, true,
  false, ltb, if◌then◌else◌,
}
use piorun.Fiber.Sync.{Fiber, Outcome, acquired, parked}

pub record Semaphore : Type 0 where
  pub waiters : List Fiber
  pub count : ℕ

unfoldable pub init : ℕ → Semaphore
init count = record { waiters = []; count = count }

-- semaphore::wait by fiber `f`, up to its return or its Yield.
unfoldable pub wait : Semaphore → Fiber → Semaphore × Outcome
wait m f =
    if ltb 0 m.count
    then (record m { count = m.count - 1 }, acquired)
    else (record m { waiters = m.waiters ++ (f ∷ []) }, parked)

pub try_wait : Semaphore → Semaphore × Bool
try_wait m = if ltb 0 m.count then (record m { count = m.count - 1 }, true) else (m, false)

-- semaphore::signal, with the fiber that it signals. The count is a size_t.
unfoldable pub signal : Semaphore → Semaphore × Option Fiber
signal m = elim m.waiters [
  | [] ↦ (record m { count = (m.count + 1) % 2 ^ 64 }, none)
  | fb ∷ rest ↦ (record m { waiters = rest }, some fb)
]

-- The semaphore, the signalled fibers that are not resumed yet, over all threads, and two counts: of
-- the waits that have got a permit, and of the permits that there were or that were signalled.
pub record System : Type 0 where
  pub semaphore : Semaphore
  pub ready : List Fiber
  pub taken : ℕ
  pub given : ℕ

pub start : ℕ → System
unfolding init
start count = record { semaphore = init count; ready = []; taken = 0; given = count }

abbrev pub count_outcome : Outcome → ℕ
count_outcome acquired = 1
count_outcome parked = 0

abbrev pub count_success : Bool → ℕ
count_success true = 1
count_success false = 0

abbrev pub add_ready : Option Fiber → List Fiber → List Fiber
add_ready none r = r
add_ready (some f) r = r ++ (f ∷ [])

-- One step of some fiber, on any thread. No signal makes the count overflow.
pub data Step : System → System → Type 0 where
  waits :
      {s : System} (f : Fiber)
      → Step s (record s {
        semaphore = (wait s.semaphore f).0;
        taken = s.taken + count_outcome (wait s.semaphore f).1;
      })
  tries :
      {s : System} (f : Fiber)
      → Step s (record s {
        semaphore = (try_wait s.semaphore).0;
        taken = s.taken + count_success (try_wait s.semaphore).1;
      })
  signals :
      {s : System}
      → s.semaphore.count + 1 < 2 ^ 64
      → Step s (record s {
        semaphore = (signal s.semaphore).0;
        ready = add_ready (signal s.semaphore).1 s.ready;
        given = s.given + 1;
      })
  resumes :
      {s : System} (xs : List Fiber) (f : Fiber) (ys : List Fiber)
      → s.ready ≡ xs ++ (f ∷ ys)
      → Step s (record s { ready = xs ++ ys; taken = s.taken + 1 })

pub data Reach (s : System) : System → Type 0 where
  here : Reach s s
  next : {t u : System} → Reach s t → Step t u → Reach s u
