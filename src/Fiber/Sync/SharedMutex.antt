-- ===== src/Fiber/Sync/SharedMutex.antt =====
-- fiber::shared_mutex, and all interleavings of its calls. The int `state` is not bounded here: it
-- counts fibers, of which there are fewer than 2^31.
pub mod Safe
pub mod Order
pub mod Tests
use piorun.Prelude.{
  ℕ, suc, zero, ◌≡◌, List, [], ◌∷◌, ◌++◌, Option, none, some, Bool, true, false, length,
}
use piorun.Prelude.Int.{ℤ, pos, negsuc, increment, decrement}
use piorun.Fiber.Sync.{Fiber, Outcome, acquired, parked}

-- -1 with a writer, and the number of readers otherwise.
pub record SharedMutex : Type 0 where
  pub rwaiters : List Fiber
  pub wwaiters : List Fiber
  pub state : ℤ

pub init : SharedMutex
init = record { rwaiters = []; wwaiters = []; state = pos 0 }

-- `state == 0`
abbrev pub is_free : ℤ → Bool
is_free (pos zero) = true
is_free (pos (suc n)) = false
is_free (negsuc n) = false

-- `state >= 0 && wwaiters.empty()`
abbrev pub admits_reader : ℤ → List Fiber → Bool
admits_reader (pos n) [] = true
admits_reader (pos n) (f ∷ fs) = false
admits_reader (negsuc n) ws = false

pub lock : SharedMutex → Fiber → SharedMutex × Outcome
lock m f = elim (is_free m.state) [
  | true ↦ (record m { state = negsuc 0 }, acquired)
  | false ↦ (record m { wwaiters = m.wwaiters ++ (f ∷ []) }, parked)
]

pub try_lock : SharedMutex → SharedMutex × Bool
try_lock m = elim (is_free m.state) [
  | true ↦ (record m { state = negsuc 0 }, true)
  | false ↦ (m, false)
]

-- The fibers that a release signals: a writer, or readers.
pub record Wake : Type 0 where
  pub writer : List Fiber
  pub readers : List Fiber

abbrev pub wake_none : Wake
wake_none = record { writer = []; readers = [] }

abbrev pub wake_writer : Fiber → Wake
wake_writer f = record { writer = f ∷ []; readers = [] }

-- The first waiting writer goes on with the state left at -1; else all waiting readers do.
pub unlock : SharedMutex → SharedMutex × Wake
unlock m = elim m.wwaiters [
  | fb ∷ rest ↦ (record m { wwaiters = rest }, wake_writer fb)
  | [] ↦ elim m.rwaiters [
    | r ∷ rs ↦ (
      record m { state = pos (length m.rwaiters); rwaiters = [] },
      record { writer = []; readers = m.rwaiters },
    )
    | [] ↦ (record m { state = pos 0 }, wake_none)
  ]
]

pub lock_shared : SharedMutex → Fiber → SharedMutex × Outcome
lock_shared m f = elim (admits_reader m.state m.wwaiters) [
  | true ↦ (record m { state = increment m.state }, acquired)
  | false ↦ (record m { rwaiters = m.rwaiters ++ (f ∷ []) }, parked)
]

pub try_lock_shared : SharedMutex → SharedMutex × Bool
try_lock_shared m = elim (admits_reader m.state m.wwaiters) [
  | true ↦ (record m { state = increment m.state }, true)
  | false ↦ (m, false)
]

-- `state == 1 && !wwaiters.empty()`, with the first of the writers.
abbrev pub next_writer : ℤ → List Fiber → Option (Fiber × List Fiber)
next_writer (pos (suc zero)) (fb ∷ rest) = some (fb, rest)
next_writer _ _ = none

pub unlock_shared : SharedMutex → SharedMutex × Wake
unlock_shared m = elim (next_writer m.state m.wwaiters) [
  | some (fb, rest) ↦ (record m { wwaiters = rest; state = negsuc 0 }, wake_writer fb)
  | none ↦ (record m { state = decrement m.state }, wake_none)
]

-- The mutex with the fibers that have it as a writer or as a reader, and those that were signalled as
-- one and are not resumed yet, over all threads.
pub record System : Type 0 where
  pub mutex : SharedMutex
  pub writers : List Fiber
  pub readers : List Fiber
  pub ready_writers : List Fiber
  pub ready_readers : List Fiber

pub start : System
unfolding init
start = record { mutex = init; writers = []; readers = []; ready_writers = []; ready_readers = [] }

abbrev pub add_if : Fiber → Outcome → List Fiber → List Fiber
add_if f acquired hs = f ∷ hs
add_if f parked hs = hs

abbrev pub add_on : Fiber → Bool → List Fiber → List Fiber
add_on f true hs = f ∷ hs
add_on f false hs = hs

-- One step of some fiber, on any thread. Only a fiber that has the mutex releases it, in the mode
-- in which it has it.
pub data Step : System → System → Type 0 where
  locks :
      {s : System} (f : Fiber)
      → Step s
          (record s { mutex = (lock s.mutex f).0; writers = add_if f (lock s.mutex f).1 s.writers })
  tries :
      {s : System} (f : Fiber)
      → Step s (record s {
        mutex = (try_lock s.mutex).0;
        writers = add_on f (try_lock s.mutex).1 s.writers;
      })
  unlocks :
      {s : System} (xs : List Fiber) (f : Fiber) (ys : List Fiber)
      → s.writers ≡ xs ++ (f ∷ ys)
      → Step s (record s {
        mutex = (unlock s.mutex).0;
        writers = xs ++ ys;
        ready_writers = s.ready_writers ++ (unlock s.mutex).1.writer;
        ready_readers = s.ready_readers ++ (unlock s.mutex).1.readers;
      })
  locks_shared :
      {s : System} (f : Fiber)
      → Step s (record s {
        mutex = (lock_shared s.mutex f).0;
        readers = add_if f (lock_shared s.mutex f).1 s.readers;
      })
  tries_shared :
      {s : System} (f : Fiber)
      → Step s (record s {
        mutex = (try_lock_shared s.mutex).0;
        readers = add_on f (try_lock_shared s.mutex).1 s.readers;
      })
  unlocks_shared :
      {s : System} (xs : List Fiber) (f : Fiber) (ys : List Fiber)
      → s.readers ≡ xs ++ (f ∷ ys)
      → Step s (record s {
        mutex = (unlock_shared s.mutex).0;
        readers = xs ++ ys;
        ready_writers = s.ready_writers ++ (unlock_shared s.mutex).1.writer;
        ready_readers = s.ready_readers ++ (unlock_shared s.mutex).1.readers;
      })
  resumes_writer :
      {s : System} (xs : List Fiber) (f : Fiber) (ys : List Fiber)
      → s.ready_writers ≡ xs ++ (f ∷ ys)
      → Step s (record s { writers = f ∷ s.writers; ready_writers = xs ++ ys })
  resumes_reader :
      {s : System} (xs : List Fiber) (f : Fiber) (ys : List Fiber)
      → s.ready_readers ≡ xs ++ (f ∷ ys)
      → Step s (record s { readers = f ∷ s.readers; ready_readers = xs ++ ys })

pub data Reach (s : System) : System → Type 0 where
  here : Reach s s
  next : {t u : System} → Reach s t → Step t u → Reach s u
