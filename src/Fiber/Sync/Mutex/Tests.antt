-- ===== src/Fiber/Sync/Mutex/Tests.antt =====
-- Runs of the mutex, and the theorems at them.
use piorun.Prelude.{◌+◌, ◌≤◌, ◌≡◌, ◌⊎◌, refl, [], ◌∷◌, true, length}
use piorun.Fiber.Sync.Mutex.{
  System, Step, locks, unlocks, Reach, here, next, start, init, lock, unlock,
}
use piorun.Fiber.Sync.Mutex.Safe.{IsValid, Step-IsValid, mutual_exclusion, waiters_are_served}

-- Fiber 1 has the mutex, and 2 and 3 wait.
abbrev contended : System
contended = record {
  mutex = record { waiters = 2 ∷ 3 ∷ []; locked = true };
  holders = 1 ∷ [];
  ready = [];
}

to_contended : Reach start contended
unfolding start init lock
to_contended = next (next (next here (locks 1)) (locks 2)) (locks 3)

-- After 1 has unlocked: 2 is signalled, the mutex stays locked, and 3 waits.
abbrev handed_on : System
handed_on = record {
  mutex = record { waiters = 3 ∷ []; locked = true };
  holders = [];
  ready = 2 ∷ [];
}

hand_on : Step contended handed_on
unfolding unlock
hand_on = unlocks [] 1 [] refl

Step-IsValid_example : IsValid handed_on
Step-IsValid_example = Step-IsValid hand_on (record { token = refl; free = λ e. cc })

mutual_exclusion_example :
    (length contended.holders + length contended.ready ≤ 1)
    × ((contended.mutex.locked ≡ true) ⊎ (contended.holders ≡ []))
mutual_exclusion_example = mutual_exclusion to_contended

waiters_are_served_example : length handed_on.holders + length handed_on.ready ≡ 1
waiters_are_served_example = waiters_are_served (next to_contended hand_on) (λ e. cc)
