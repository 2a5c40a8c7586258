-- ===== src/Fiber/Sync/Channel/Safe.antt =====
-- A channel is a bounded queue: what holds in every reachable state.
use piorun.Prelude.{
  ℕ, ◌+◌, ◌^◌, ◌<◌, ◌≤◌, ◌≡◌, refl, ap, List, [], ◌∷◌, ◌++◌, some, arith, length, length-append,
}
use piorun.Fiber.Sync.{Fiber}
use piorun.Fiber.Sync.Mutex
use piorun.Fiber.Sync.Semaphore
use piorun.Fiber.Sync.Channel.{
  WritePhase, write_waits_space, write_has_space, write_waits_mtx, write_has_mtx, ReadPhase,
  read_waits_full, read_has_full, read_waits_mtx, read_has_mtx, read_popped, init, write, pop_item,
  read, System, start, Step, begins_write, begins_read, writes, reads, gets_space, gets_full,
  write_gets_mtx, read_gets_mtx, Reach, here, next,
}
use piorun.Fiber.Sync.Calls.{total, total-split}
use piorun.Fiber.Sync.Channel.Counts.{
  before_push, after_push, write_locked, write_awaits_space, write_awaits_mtx, before_pop,
  after_pop, read_locked, read_awaits_full, read_awaits_mtx, write_runs, read_runs, write_runs_none,
  read_runs_none,
}
use piorun.Fiber.Sync.Channel.Keeps.{
  Calls, Calls-eq, IsValid, write_calls, read_calls, write-IsValid, read-IsValid,
  resume_space-IsValid, resume_full-IsValid, resume_writer-IsValid, resume_reader-IsValid,
}

module _ {V : Type 0} where
  abbrev calls_of : List (Fiber × WritePhase V) → List (Fiber × ReadPhase V) → Calls
  calls_of ws rs = record {
    to_push = total before_push ws;
    to_signal_full = total after_push ws;
    await_space = total write_awaits_space ws;
    to_pop = total before_pop rs;
    to_signal_space = total after_pop rs;
    await_full = total read_awaits_full rs;
    locked = total write_locked ws + total read_locked rs;
    await_mtx = total write_awaits_mtx ws + total read_awaits_mtx rs;
  }

  calls_of-write :
      (xs : List (Fiber × WritePhase V)) (f : Fiber) (p : WritePhase V)
      (ys : List (Fiber × WritePhase V)) (rs : List (Fiber × ReadPhase V))
      → calls_of (xs ++ ((f, p) ∷ ys)) rs ≡ write_calls (calls_of (xs ++ ys) rs) p
  calls_of-write xs f p ys rs =
      Calls-eq (total-split before_push xs f p ys) (total-split after_push xs f p ys)
        (total-split write_awaits_space xs f p ys) refl refl refl
        (omega (arith, total-split write_locked xs f p ys))
        (omega (arith, total-split write_awaits_mtx xs f p ys))

  calls_of-read :
      (ws : List (Fiber × WritePhase V)) (xs : List (Fiber × ReadPhase V)) (f : Fiber)
      (p : ReadPhase V) (ys : List (Fiber × ReadPhase V))
      → calls_of ws (xs ++ ((f, p) ∷ ys)) ≡ read_calls (calls_of ws (xs ++ ys)) p
  calls_of-read ws xs f p ys =
      Calls-eq refl refl refl (total-split before_pop xs f p ys) (total-split after_pop xs f p ys)
        (total-split read_awaits_full xs f p ys) (omega (arith, total-split read_locked xs f p ys))
        (omega (arith, total-split read_awaits_mtx xs f p ys))

  abbrev Valid : ℕ → System V → Type 0
  Valid sz s = IsValid sz (calls_of s.writers s.readers) s.channel s.pushed s.popped

  start-IsValid : (sz : ℕ) → Valid sz (start sz)
  unfolding start init Mutex.init Semaphore.init
  start-IsValid sz = ground arith

  -- The call of a writer that goes on, in the counts before and behind.
  writer :
      (sz : ℕ) (s : System V) (xs : List (Fiber × WritePhase V)) (f : Fiber) (p : WritePhase V)
      (ys : List (Fiber × WritePhase V))
      → s.writers ≡ xs ++ ((f, p) ∷ ys)
      → Valid sz s
      → IsValid sz (write_calls (calls_of (xs ++ ys) s.readers) p) s.channel s.pushed s.popped
  writer sz s xs f p ys e v = rw (← calls_of-write xs f p ys s.readers, ← e) v

  reader :
      (sz : ℕ) (s : System V) (xs : List (Fiber × ReadPhase V)) (f : Fiber) (p : ReadPhase V)
      (ys : List (Fiber × ReadPhase V))
      → s.readers ≡ xs ++ ((f, p) ∷ ys)
      → Valid sz s
      → IsValid sz (read_calls (calls_of s.writers (xs ++ ys)) p) s.channel s.pushed s.popped
  reader sz s xs f p ys e v = rw (← calls_of-read s.writers xs f p ys, ← e) v

  Step-IsValid : (sz : ℕ) {s t : System V} → sz < 2 ^ 64 → Step s t → Valid sz s → Valid sz t
  Step-IsValid sz h (begins_write {s} f x) v = ground arith
  Step-IsValid sz h (begins_read {s} f) v = ground arith
  Step-IsValid sz h (writes {s} xs f p ys e) v =
      rw (calls_of-write xs f (write s.channel f p).1 ys s.readers) (
        write-IsValid sz (calls_of (xs ++ ys) s.readers) s.channel s.pushed s.popped f p h
          (writer sz s xs f p ys e v))
  Step-IsValid sz h (reads {s} xs f p p' ys c e d) v = rw (calls_of-read s.writers xs f p' ys) (
      read-IsValid sz (calls_of s.writers (xs ++ ys)) s.channel c s.pushed s.popped f p p' h d
        (reader sz s xs f p ys e v))
  Step-IsValid sz h (gets_space {s} rs f ts xs x ys r e) v =
      rw (calls_of-write xs f (write_has_space x) ys s.readers) (
        resume_space-IsValid sz (calls_of (xs ++ ys) s.readers) s.channel s.pushed s.popped rs f ts
          x r (writer sz s xs f (write_waits_space x) ys e v))
  Step-IsValid sz h (gets_full {s} rs f ts xs ys r e) v =
      rw (calls_of-read s.writers xs f read_has_full ys) (
        resume_full-IsValid sz (calls_of s.writers (xs ++ ys)) s.channel s.pushed s.popped rs f ts r
          (reader sz s xs f read_waits_full ys e v))
  Step-IsValid sz h (write_gets_mtx {s} rs f ts xs x ys r e) v =
      rw (calls_of-write xs f (write_has_mtx x) ys s.readers) (
        resume_writer-IsValid sz (calls_of (xs ++ ys) s.readers) s.channel s.pushed s.popped rs f ts
          x r (writer sz s xs f (write_waits_mtx x) ys e v))
  Step-IsValid sz h (read_gets_mtx {s} rs f ts xs ys r e) v =
      rw (calls_of-read s.writers xs f read_has_mtx ys) (
        resume_reader-IsValid sz (calls_of s.writers (xs ++ ys)) s.channel s.pushed s.popped rs f ts
          r (reader sz s xs f read_waits_mtx ys e v))

  Reach-IsValid : (sz : ℕ) {s t : System V} → sz < 2 ^ 64 → Reach s t → Valid sz s → Valid sz t
  Reach-IsValid sz h here v = v
  Reach-IsValid sz h (next r st) v = Step-IsValid sz h st (Reach-IsValid sz h r v)

  items-split : (l : List V) → 0 < length l → (x : V) × (rest : List V) × (l ≡ x ∷ rest)
  items-split [] h = absurd (omega arith)
  items-split (x ∷ rest) h = (x, rest, refl)

  reached : (sz : ℕ) {s : System V} → sz < 2 ^ 64 → Reach (start sz) s → Valid sz s
  reached sz h r = Reach-IsValid sz h r (start-IsValid sz)

  -- In every state reached from a new channel of a size below 2^64 by any interleaving of the statements of
  -- write and read: the items that were pushed, in order, are those that were popped, in order, and then
  -- those that are there, which are no more than the size; and at most one call is between mtx.lock() and
  -- mtx.unlock().
  pub channel_in_order :
      (sz : ℕ) {s : System V}
      → sz < 2 ^ 64
      → Reach (start sz) s
      → (s.pushed ≡ s.popped ++ s.channel.items)
        × (length s.channel.items ≤ sz)
        × (total write_locked s.writers + total read_locked s.readers ≤ 1)
  channel_in_order sz {s} h r =
      let v = reached sz h r in
      (
        v.queue,
        omega (
          arith,
          ap length v.queue,
          length-append s.popped s.channel.items,
          v.space_permits,
          v.full_permits,
        ),
        ground (arith, v.lock_token),
      )

  -- In every state reached from a new channel of a size below 2^64: a call of read that has the mutex and
  -- is about to pop finds an item, so that front() is not called on an empty deque.
  pub read_finds :
      (sz : ℕ) {s : System V} (xs : List (Fiber × ReadPhase V)) (f : Fiber)
      (ys : List (Fiber × ReadPhase V))
      → sz < 2 ^ 64
      → Reach (start sz) s
      → s.readers ≡ xs ++ ((f, read_has_mtx) ∷ ys)
      → (x : V) × (rest : List V) × (s.channel.items ≡ x ∷ rest)
        × (read s.channel f read_has_mtx ≡ some (record s.channel { items = rest }, read_popped x))
  unfolding read pop_item
  read_finds sz {s} xs f ys h r e =
      let v = reader sz s xs f read_has_mtx ys e (reached sz h r) in
      let (x, rest, some_left) = items-split s.channel.items (
        omega (arith, v.full_permits, ap length v.queue, length-append s.popped s.channel.items)) in
      (x, rest, some_left, rw some_left refl)

  -- In every state reached from a new channel of a size below 2^64 in which no signalled fiber is left and
  -- every call has returned or waits: none waits for the mutex; while a call of write waits, the channel
  -- is full; and while a call of read waits, it is empty. No wake-up is lost, and there is no deadlock
  -- but by waiting for a reader or a writer that does not come.
  pub channel_rests :
      (sz : ℕ) {s : System V}
      → sz < 2 ^ 64
      → Reach (start sz) s
      → s.channel.ready_mtx ≡ []
      → s.channel.ready_full ≡ []
      → s.channel.ready_space ≡ []
      → total write_runs s.writers ≡ 0
      → total read_runs s.readers ≡ 0
      → (total write_awaits_mtx s.writers + total read_awaits_mtx s.readers ≡ 0)
        × (0 < total write_awaits_space s.writers → length s.channel.items ≡ sz)
        × (0 < total read_awaits_full s.readers → s.channel.items ≡ [])
  channel_rests sz {s} h r a b c w d =
      let v = reached sz h r in
      let (w₁, w₂, w₃) = write_runs_none s.writers w in
      let (r₁, r₂, r₃) = read_runs_none s.readers d in
      ground (
        arith,
        v,
        w₁,
        w₂,
        w₃,
        r₁,
        r₂,
        r₃,
        ap length v.queue,
        length-append s.popped s.channel.items,
      )
