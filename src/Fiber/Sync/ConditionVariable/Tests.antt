-- ===== src/Fiber/Sync/ConditionVariable/Tests.antt =====
-- A run of the condition variable, and the theorems at it.
use piorun.Prelude.{◌+◌, ◌≤◌, ◌≡◌, ◌⊎◌, refl, [], ◌∷◌, ◌++◌, true, length}
use piorun.Fiber.Sync.Mutex.{lock, unlock}
use piorun.Fiber.Sync.Mutex
use piorun.Fiber.Sync.Calls.{total}
use piorun.Fiber.Sync.ConditionVariable.{
  System, start, notify_one, wait, wait_begins, wait_queued, wait_yields, locks_mtx, begins_wait,
  goes_on, notifies_one, Reach, here, next,
}
use piorun.Fiber.Sync.ConditionVariable.Safe.{locked, asleep, wait_excludes, notified_in_order}

-- Fibers 1 and 2 wait, and 1 is notified by 3, which has the mutex.
abbrev one_notified : System
one_notified = record {
  locks = record {
    cond = record { waiters = 2 ∷ [] };
    mtx = record { waiters = []; locked = true };
    ready_cond = 1 ∷ [];
    ready_mtx = [];
  };
  holders = 3 ∷ [];
  lockers = [];
  waits = (2, wait_yields) ∷ (1, wait_yields) ∷ [];
  arrived = 1 ∷ 2 ∷ [];
  notified = 1 ∷ [];
}

to_one_notified : Reach start one_notified
unfolding start Mutex.init lock unlock wait notify_one
to_one_notified =
    next
      (next
        (next
          (next
            (next
              (next
                (next
                  (next (next (next here (locks_mtx 1)) (begins_wait [] 1 [] refl))
                    (goes_on [] 1 wait_begins [] refl))
                  (goes_on [] 1 wait_queued [] refl))
                (locks_mtx 2))
              (begins_wait [] 2 [] refl))
            (goes_on [] 2 wait_begins ((1, wait_yields) ∷ []) refl))
          (goes_on [] 2 wait_queued ((1, wait_yields) ∷ []) refl))
        (locks_mtx 3))
      notifies_one

wait_excludes_example :
    (length one_notified.holders + total locked one_notified.waits ≤ 1)
    × ((true ≡ true) ⊎ (length one_notified.holders + total locked one_notified.waits ≡ 0))
wait_excludes_example = wait_excludes to_one_notified

notified_in_order_example :
    (one_notified.arrived ≡ one_notified.notified ++ one_notified.locks.cond.waiters)
    × (total asleep one_notified.waits
        ≡ length one_notified.locks.cond.waiters + length one_notified.locks.ready_cond)
notified_in_order_example = notified_in_order to_one_notified
