-- ===== src/Fiber/Sync/SharedMutex/Tests.antt =====
-- Runs of the shared mutex, and the theorems at them.
use piorun.Prelude.{◌+◌, ◌≤◌, ◌<◌, ◌≡◌, ◌⊎◌, inr, refl, [], ◌∷◌, length}
use piorun.Prelude.Int.{negsuc}
use piorun.Fiber.Sync.SharedMutex.{
  System, locks, locks_shared, unlocks_shared, resumes_writer, Reach, here, next, start, init, lock,
  lock_shared, unlock_shared,
}
use piorun.Fiber.Sync.SharedMutex.Safe.{
  writing, reading, writers_exclude, shared_waiters_are_served,
}
use piorun.Fiber.Sync.SharedMutex.Order.{Both, Trace, stop, step}

-- Fiber 1 was a reader; the writer 2 waited for it and was signalled; the reader 3 came behind 2.
abbrev passed_on : System
passed_on = record {
  mutex = record { rwaiters = 3 ∷ []; wwaiters = []; state = negsuc 0 };
  writers = [];
  readers = [];
  ready_writers = 2 ∷ [];
  ready_readers = [];
}

to_passed_on : Reach start passed_on
unfolding start init lock lock_shared unlock_shared
to_passed_on =
    next (next (next (next here (locks_shared 1)) (locks 2)) (locks_shared 3))
      (unlocks_shared [] 1 [] refl)

abbrev written : System
written = record passed_on { writers = 2 ∷ []; ready_writers = [] }

to_written : Reach start written
to_written = next to_passed_on (resumes_writer [] 2 [] refl)

writers_exclude_example :
    (length written.writers ≤ 1) × ((written.writers ≡ []) ⊎ (written.readers ≡ []))
writers_exclude_example = writers_exclude to_written

shared_waiters_are_served_example : 0 < writing passed_on + reading passed_on
shared_waiters_are_served_example = shared_waiters_are_served to_passed_on (inr (λ e. cc))

abbrev came : Both
came = record { writers = 2 ∷ []; readers = 3 ∷ [] }

abbrev went : Both
went = record { writers = 2 ∷ []; readers = [] }

served : Trace start came went passed_on
unfolding start init lock lock_shared unlock_shared
served =
    step (step (step (step stop (locks_shared 1)) (locks 2)) (locks_shared 3))
      (unlocks_shared [] 1 [] refl)
