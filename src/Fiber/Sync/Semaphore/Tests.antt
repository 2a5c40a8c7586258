-- ===== src/Fiber/Sync/Semaphore/Tests.antt =====
-- Runs of the semaphore, and the theorems at them.
use piorun.Prelude.{◌+◌, ◌≡◌, ◌⊎◌, [], ◌∷◌, arith, length}
use piorun.Fiber.Sync.Semaphore.{
  System, waits, signals, Reach, here, next, start, init, wait, signal,
}
use piorun.Fiber.Sync.Semaphore.Safe.{permits_conserved}
use piorun.Fiber.Sync.Semaphore.Order.{Trace, stop, step}

-- One permit: 1 has taken it, 2 was signalled, and 3 waits.
abbrev signalled : System
signalled = record {
  semaphore = record { waiters = 3 ∷ []; count = 0 };
  ready = 2 ∷ [];
  taken = 1;
  given = 2;
}

to_signalled : Reach (start 1) signalled
unfolding start init wait signal
to_signalled = next (next (next (next here (waits 1)) (waits 2)) (waits 3)) (signals (omega arith))

permits_conserved_example :
    (signalled.semaphore.count + length signalled.ready + signalled.taken ≡ signalled.given)
    × ((signalled.semaphore.waiters ≡ []) ⊎ (signalled.semaphore.count ≡ 0))
permits_conserved_example = permits_conserved 1 to_signalled

served : Trace (start 1) (2 ∷ 3 ∷ []) (2 ∷ []) signalled
unfolding start init wait signal
served = step (step (step (step stop (waits 1)) (waits 2)) (waits 3)) (signals (omega arith))
