-- ===== src/Fiber/Sync.antt =====
-- The fiber-level locks of src/piorun/fiber/fiber.cc and include/fiber/fiber.h. Each call holds the
-- lock's spin lock for all that it does to the lock, so it is one atomic step. A call that
-- does not get the lock puts the running fiber in a queue of the lock and yields; a release puts a fiber
-- that waits on the queue of its own thread, whose loop resumes it. Being resumed is all that
-- such a fiber waits for: its call then returns, and it has what it asked for.
pub mod Mutex
pub mod Semaphore
pub mod SharedMutex
pub mod Calls
pub mod Channel
pub mod ConditionVariable
use piorun.Prelude.{ℕ}

-- Fibers are told apart by numbers.
abbrev pub Fiber : Type 0
Fiber = ℕ

-- What a call that may wait comes to.
pub data Outcome : Type 0 where
  acquired parked : Outcome
