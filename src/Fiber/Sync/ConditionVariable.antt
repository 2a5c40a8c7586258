-- ===== src/Fiber/Sync/ConditionVariable.antt =====
-- fiber::condition_variable with its mutex, and all interleavings of their calls: another fiber may come
-- in between any two statements of wait.
pub mod Safe
pub mod Tests
use piorun.Prelude.{ℕ, ◌≡◌, List, [], ◌∷◌, ◌++◌, Option, none, some, Bool, true, false}
use piorun.Fiber.Sync.{Fiber, Outcome, acquired, parked}
use piorun.Fiber.Sync.Mutex.{Mutex, lock, unlock}
use piorun.Fiber.Sync.Mutex

pub record ConditionVariable : Type 0 where
  pub waiters : List Fiber

pub notify_one : ConditionVariable → ConditionVariable × Option Fiber
notify_one c = elim c.waiters [ [] ↦ (c, none) | fb ∷ rest ↦ (record { waiters = rest }, some fb) ]

-- notify_all, with the fibers that it signals, in order.
pub notify_all : ConditionVariable → ConditionVariable × List Fiber
notify_all c = (record { waiters = [] }, c.waiters)

abbrev pub to_list : Option Fiber → List Fiber
to_list none = []
to_list (some f) = f ∷ []

-- Both locks, with the fibers that they have signalled and that are not resumed yet, over all threads.
pub record Locks : Type 0 where
  pub cond : ConditionVariable
  pub mtx : Mutex
  pub ready_cond : List Fiber
  pub ready_mtx : List Fiber

-- Where a call of wait is: before push_back, before lock.unlock(), in Yield, before lock.lock(), in it.
pub data WaitPhase : Type 0 where
  wait_begins wait_queued wait_yields wait_resumed wait_waits_mtx wait_returned : WaitPhase

abbrev behind_lock : Outcome → WaitPhase
behind_lock acquired = wait_returned
behind_lock parked = wait_waits_mtx

-- The next statement of a call of wait by fiber `f`; a fiber that waits does nothing.
pub wait : Locks → Fiber → WaitPhase → Locks × WaitPhase
wait s f wait_begins =
    (record s { cond = record { waiters = s.cond.waiters ++ (f ∷ []) } }, wait_queued)
wait s f wait_queued =
    let r = unlock s.mtx in
    (record s { mtx = r.0; ready_mtx = s.ready_mtx ++ to_list r.1 }, wait_yields)
wait s f wait_yields = (s, wait_yields)
wait s f wait_resumed = let r = lock s.mtx f in (record s { mtx = r.0 }, behind_lock r.1)
wait s f wait_waits_mtx = (s, wait_waits_mtx)
wait s f wait_returned = (s, wait_returned)

-- The locks with the fibers about them: those that have the mutex outside of wait, those that wait in
-- lock() outside of wait, the calls of wait, the fibers that began to wait, in order, and those that were
-- notified, in order.
pub record System : Type 0 where
  pub locks : Locks
  pub holders : List Fiber
  pub lockers : List Fiber
  pub waits : List (Fiber × WaitPhase)
  pub arrived : List Fiber
  pub notified : List Fiber

pub start : System
unfolding Mutex.init
start = record {
  locks = record {
    cond = record { waiters = [] };
    mtx = Mutex.init;
    ready_cond = [];
    ready_mtx = [];
  };
  holders = [];
  lockers = [];
  waits = [];
  arrived = [];
  notified = [];
}

abbrev pub add_acquired : Fiber → Outcome → List Fiber → List Fiber
add_acquired f acquired fs = f ∷ fs
add_acquired f parked fs = fs

abbrev pub add_parked : Fiber → Outcome → List Fiber → List Fiber
add_parked f acquired fs = fs
add_parked f parked fs = f ∷ fs

abbrev pub arrives : Fiber → WaitPhase → List Fiber → List Fiber
arrives f wait_begins fs = fs ++ (f ∷ [])
arrives f _ fs = fs

-- One step of some fiber, on any thread. Only a fiber that has the mutex unlocks it or calls wait.
pub data Step : System → System → Type 0 where
  locks_mtx :
      {s : System} (f : Fiber)
      → Step s (record s {
        locks = record s.locks { mtx = (lock s.locks.mtx f).0 };
        holders = add_acquired f (lock s.locks.mtx f).1 s.holders;
        lockers = add_parked f (lock s.locks.mtx f).1 s.lockers;
      })
  unlocks_mtx :
      {s : System} (xs : List Fiber) (f : Fiber) (ys : List Fiber)
      → s.holders ≡ xs ++ (f ∷ ys)
      → Step s (record s {
        locks = record s.locks {
          mtx = (unlock s.locks.mtx).0;
          ready_mtx = s.locks.ready_mtx ++ to_list (unlock s.locks.mtx).1;
        };
        holders = xs ++ ys;
      })
  begins_wait :
      {s : System} (xs : List Fiber) (f : Fiber) (ys : List Fiber)
      → s.holders ≡ xs ++ (f ∷ ys)
      → Step s (record s { holders = xs ++ ys; waits = (f, wait_begins) ∷ s.waits })
  goes_on :
      {s : System} (xs : List (Fiber × WaitPhase)) (f : Fiber) (p : WaitPhase)
      (ys : List (Fiber × WaitPhase))
      → s.waits ≡ xs ++ ((f, p) ∷ ys)
      → Step s (record s {
        locks = (wait s.locks f p).0;
        waits = xs ++ ((f, (wait s.locks f p).1) ∷ ys);
        arrived = arrives f p s.arrived;
      })
  leaves :
      {s : System} (xs : List (Fiber × WaitPhase)) (f : Fiber) (ys : List (Fiber × WaitPhase))
      → s.waits ≡ xs ++ ((f, wait_returned) ∷ ys)
      → Step s (record s { holders = f ∷ s.holders; waits = xs ++ ys })
  notifies_one :
      {s : System}
      → Step s (record s {
        locks = record s.locks {
          cond = (notify_one s.locks.cond).0;
          ready_cond = s.locks.ready_cond ++ to_list (notify_one s.locks.cond).1;
        };
        notified = s.notified ++ to_list (notify_one s.locks.cond).1;
      })
  notifies_all :
      {s : System}
      → Step s (record s {
        locks = record s.locks {
          cond = (notify_all s.locks.cond).0;
          ready_cond = s.locks.ready_cond ++ (notify_all s.locks.cond).1;
        };
        notified = s.notified ++ (notify_all s.locks.cond).1;
      })
  wakes :
      {s : System} (rs : List Fiber) (f : Fiber) (ts : List Fiber)
      (xs ys : List (Fiber × WaitPhase))
      → s.locks.ready_cond ≡ rs ++ (f ∷ ts)
      → s.waits ≡ xs ++ ((f, wait_yields) ∷ ys)
      → Step s (record s {
        locks = record s.locks { ready_cond = rs ++ ts };
        waits = xs ++ ((f, wait_resumed) ∷ ys);
      })
  wait_gets_mtx :
      {s : System} (rs : List Fiber) (f : Fiber) (ts : List Fiber)
      (xs ys : List (Fiber × WaitPhase))
      → s.locks.ready_mtx ≡ rs ++ (f ∷ ts)
      → s.waits ≡ xs ++ ((f, wait_waits_mtx) ∷ ys)
      → Step s (record s {
        locks = record s.locks { ready_mtx = rs ++ ts };
        waits = xs ++ ((f, wait_returned) ∷ ys);
      })
  lock_gets_mtx :
      {s : System} (rs : List Fiber) (f : Fiber) (ts us vs : List Fiber)
      → s.locks.ready_mtx ≡ rs ++ (f ∷ ts)
      → s.lockers ≡ us ++ (f ∷ vs)
      → Step s (record s {
        locks = record s.locks { ready_mtx = rs ++ ts };
        holders = f ∷ s.holders;
        lockers = us ++ vs;
      })

pub data Reach (s : System) : System → Type 0 where
  here : Reach s s
  next : {t u : System} → Reach s t → Step t u → Reach s u
