-- ===== src/Fiber/Sync/Mutex.antt =====
-- fiber::mutex, and all interleavings of its calls.
pub mod Safe
pub mod Order
pub mod Tests
use piorun.Prelude.{ℕ, suc, zero, ◌≡◌, List, [], ◌∷◌, ◌++◌, Option, none, some, Bool, true, false}
use piorun.Fiber.Sync.{Fiber, Outcome, acquired, parked}

pub record Mutex : Type 0 where
  pub waiters : List Fiber
  pub locked : Bool

unfoldable pub init : Mutex
init = record { waiters = []; locked = false }

-- mutex::lock by fiber `f`, up to its return or its Yield.
unfoldable pub lock : Mutex → Fiber → Mutex × Outcome
lock m f = elim m.locked [
  | false ↦ (record m { locked = true }, acquired)
  | true ↦ (record m { waiters = m.waiters ++ (f ∷ []) }, parked)
]

pub try_lock : Mutex → Mutex × Bool
try_lock m = elim m.locked [ false ↦ (record m { locked = true }, true) | true ↦ (m, false) ]

-- mutex::unlock, with the fiber that goes on its thread's queue of signalled fibers.
unfoldable pub unlock : Mutex → Mutex × Option Fiber
unlock m = elim m.waiters [
  | [] ↦ (record m { locked = false }, none)
  | fb ∷ rest ↦ (record m { waiters = rest }, some fb)
]

-- The mutex with the fibers about it: those that have it (their lock() has returned, and they have not
-- called unlock()), and those that were signalled and are not resumed yet, over all threads.
pub record System : Type 0 where
  pub mutex : Mutex
  pub holders : List Fiber
  pub ready : List Fiber

pub start : System
unfolding init
start = record { mutex = init; holders = []; ready = [] }

abbrev pub add_holder : Fiber → Outcome → List Fiber → List Fiber
add_holder f acquired hs = f ∷ hs
add_holder f parked hs = hs

abbrev pub add_holder_if : Fiber → Bool → List Fiber → List Fiber
add_holder_if f true hs = f ∷ hs
add_holder_if f false hs = hs

abbrev pub signal : Option Fiber → List Fiber → List Fiber
signal none r = r
signal (some f) r = r ++ (f ∷ [])

-- One step of some fiber, on any thread. Only a fiber that has the mutex unlocks it, and a thread
-- may resume any of its signalled fibers next.
pub data Step : System → System → Type 0 where
  locks :
      {s : System} (f : Fiber)
      → Step s (record {
        mutex = (lock s.mutex f).0;
        holders = add_holder f (lock s.mutex f).1 s.holders;
        ready = s.ready;
      })
  tries :
      {s : System} (f : Fiber)
      → Step s (record {
        mutex = (try_lock s.mutex).0;
        holders = add_holder_if f (try_lock s.mutex).1 s.holders;
        ready = s.ready;
      })
  unlocks :
      {s : System} (xs : List Fiber) (f : Fiber) (ys : List Fiber)
      → s.holders ≡ xs ++ (f ∷ ys)
      → Step s (record {
        mutex = (unlock s.mutex).0;
        holders = xs ++ ys;
        ready = signal (unlock s.mutex).1 s.ready;
      })
  resumes :
      {s : System} (xs : List Fiber) (f : Fiber) (ys : List Fiber)
      → s.ready ≡ xs ++ (f ∷ ys)
      → Step s (record s { holders = f ∷ s.holders; ready = xs ++ ys })

pub data Reach (s : System) : System → Type 0 where
  here : Reach s s
  next : {t u : System} → Reach s t → Step t u → Reach s u
