-- ===== src/Fiber/Sync/SharedMutex/Safe.antt =====
-- Writers exclude each other and readers, and no waiting fiber is left without one to wake it.
use piorun.Prelude.{
  ℕ, zero, suc, ◌+◌, ◌≤◌, ◌<◌, ◌≡◌, refl, ap, ◌≢◌, ◌⊎◌, List, [], ◌∷◌, arith, length, length-append,
  length-split,
}
use piorun.Prelude.Int.{ℤ, pos, negsuc}
use piorun.Fiber.Sync.{Fiber}
use piorun.Fiber.Sync.SharedMutex.{
  System, Step, locks, tries, unlocks, locks_shared, tries_shared, unlocks_shared, resumes_writer,
  resumes_reader, Reach, here, next, start, init, lock, try_lock, unlock, lock_shared,
  try_lock_shared, unlock_shared,
}

-- What the state says of the fibers that have the mutex or are about to.
abbrev pub Counts : ℤ → ℕ → ℕ → Type 0
Counts (pos n) writing reading = (writing ≡ 0) × (reading ≡ n)
Counts (negsuc zero) writing reading = (writing ≡ 1) × (reading ≡ 0)
Counts (negsuc (suc n)) writing reading = ⊥

-- Who may wait: nobody at a free mutex, and behind readers no reader without a writer.
abbrev pub MayWait : ℤ → List Fiber → List Fiber → Type 0
MayWait (pos zero) ws rs = (ws ≡ []) × (rs ≡ [])
MayWait (pos (suc n)) [] rs = rs ≡ []
MayWait (pos (suc n)) (w ∷ ws) rs = Unit
MayWait (negsuc n) ws rs = Unit

abbrev pub writing : System → ℕ
writing s = length s.writers + length s.ready_writers

abbrev pub reading : System → ℕ
reading s = length s.readers + length s.ready_readers

pub record IsValid (s : System) : Type 0 where
  pub counts : Counts s.mutex.state (writing s) (reading s)
  pub may_wait : MayWait s.mutex.state s.mutex.wwaiters s.mutex.rwaiters

pub start-IsValid : IsValid start
unfolding start init
start-IsValid = record { counts = (refl, refl); may_wait = (refl, refl) }

pub Step-IsValid : {s t : System} → Step s t → IsValid s → IsValid t
unfolding lock try_lock unlock lock_shared try_lock_shared unlock_shared
Step-IsValid (locks {s} f) v = ground arith
Step-IsValid (tries {s} f) v = ground arith
Step-IsValid (unlocks {s} xs f ys e) v = ground (
  arith,
  ap length e,
  length-split xs f ys,
  length-append s.ready_writers (unlock s.mutex).1.writer,
  length-append s.ready_readers (unlock s.mutex).1.readers,
)
Step-IsValid (locks_shared {s} f) v = ground arith
Step-IsValid (tries_shared {s} f) v = ground arith
Step-IsValid (unlocks_shared {s} xs f ys e) v = ground (
  arith,
  ap length e,
  length-split xs f ys,
  length-append s.ready_writers (unlock_shared s.mutex).1.writer,
  length-append s.ready_readers (unlock_shared s.mutex).1.readers,
)
Step-IsValid (resumes_writer {s} xs f ys e) v = ground (arith, ap length e, length-split xs f ys)
Step-IsValid (resumes_reader {s} xs f ys e) v = ground (arith, ap length e, length-split xs f ys)

pub Reach-IsValid : {s t : System} → IsValid s → Reach s t → IsValid t
Reach-IsValid v here = v
Reach-IsValid v (next r st) = Step-IsValid st (Reach-IsValid v r)

one_writer :
    (s : System) (state : ℤ)
    → Counts state (writing s) (reading s)
    → (length s.writers ≤ 1) × ((s.writers ≡ []) ⊎ (s.readers ≡ []))
one_writer s (pos n) c = (omega arith, ground arith)
one_writer s (negsuc zero) c = (omega arith, ground arith)
one_writer s (negsuc (suc n)) c = absurd c

-- In every state reached from the fresh mutex by any interleaving of calls, at most one fiber has the
-- mutex as a writer, and then none has it as a reader.
pub writers_exclude :
    {s : System} → Reach start s → (length s.writers ≤ 1) × ((s.writers ≡ []) ⊎ (s.readers ≡ []))
writers_exclude {s} r = one_writer s s.mutex.state (Reach-IsValid start-IsValid r).counts

busy_when_waiting :
    (s : System) (state : ℤ)
    → Counts state (writing s) (reading s)
    → MayWait state s.mutex.wwaiters s.mutex.rwaiters
    → (s.mutex.wwaiters ≢ []) ⊎ (s.mutex.rwaiters ≢ [])
    → 0 < writing s + reading s
busy_when_waiting s (pos zero) c m h = ground arith
busy_when_waiting s (pos (suc n)) c m h = omega arith
busy_when_waiting s (negsuc zero) c m h = omega arith
busy_when_waiting s (negsuc (suc n)) c m h = absurd c

readers_behind_writer :
    (s : System) (state : ℤ)
    → Counts state (writing s) (reading s)
    → MayWait state s.mutex.wwaiters s.mutex.rwaiters
    → s.mutex.rwaiters ≢ []
    → s.mutex.wwaiters ≡ []
    → writing s ≡ 1
readers_behind_writer s (pos zero) c m h e = ground arith
readers_behind_writer s (pos (suc n)) c m h e = ground arith
readers_behind_writer s (negsuc zero) c m h e = c.0
readers_behind_writer s (negsuc (suc n)) c m h e = absurd c

-- No wake-up is lost: while a fiber waits, some fiber has the mutex or was signalled to have it.
pub shared_waiters_are_served :
    {s : System}
    → Reach start s
    → (s.mutex.wwaiters ≢ []) ⊎ (s.mutex.rwaiters ≢ [])
    → 0 < writing s + reading s
shared_waiters_are_served {s} r h =
    let v = Reach-IsValid start-IsValid r in busy_when_waiting s s.mutex.state v.counts v.may_wait h

-- A reader waits behind a writer only: where readers wait and no writer does, a writer has the mutex
-- or was signalled to have it.
pub readers_wait_for_writers :
    {s : System} → Reach start s → s.mutex.rwaiters ≢ [] → s.mutex.wwaiters ≡ [] → writing s ≡ 1
readers_wait_for_writers {s} r h e =
    let v = Reach-IsValid start-IsValid r in
    readers_behind_writer s s.mutex.state v.counts v.may_wait h e
