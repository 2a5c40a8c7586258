-- ===== src/Fiber/Sync/Channel/Keeps.antt =====
-- What every statement of write and read keeps.
use piorun.Prelude.{
  ℕ, ◌+◌, ◌^◌, ◌<◌, ◌≡◌, refl, ap, List, [], ◌∷◌, ◌++◌, Option, none, some, Bool, true, false,
  arith, length, length-append, length-split, append_assoc,
}
use piorun.Fiber.Sync.{Fiber}
use piorun.Fiber.Sync.Mutex.{lock, unlock}
use piorun.Fiber.Sync.Semaphore.{wait, signal, add_ready}
use piorun.Fiber.Sync.Channel.{
  Channel, WritePhase, write_begins, write_waits_space, write_has_space, write_waits_mtx,
  write_has_mtx, write_pushed, write_unlocked, write_returned, ReadPhase, read_begins,
  read_waits_full, read_has_full, read_waits_mtx, read_has_mtx, read_popped, read_unlocked,
  read_returned, write, pop_item, read, pushes, pops,
}
use piorun.Fiber.Sync.Channel.Counts.{
  before_push, after_push, write_locked, write_awaits_space, write_awaits_mtx, before_pop,
  after_pop, read_locked, read_awaits_full, read_awaits_mtx,
}

abbrev pub token : Bool → ℕ
token true = 1
token false = 0

-- The counts of the calls in their phases.
pub record Calls : Type 0 where
  pub to_push : ℕ
  pub to_signal_full : ℕ
  pub await_space : ℕ
  pub to_pop : ℕ
  pub to_signal_space : ℕ
  pub await_full : ℕ
  pub locked : ℕ
  pub await_mtx : ℕ

-- Permits are conserved in both semaphores, a token in the mutex, and the items are a queue.
pub record IsValid {V : Type 0} (sz : ℕ) (n : Calls) (c : Channel V) (pushed popped : List V)
    : Type 0 where
  pub queue : pushed ≡ popped ++ c.items
  pub space_permits :
      c.space.count + length c.ready_space + n.to_push + length pushed + n.to_signal_space
      ≡ sz + length popped
  pub full_permits :
      c.full.count + length c.ready_full + n.to_pop + length popped + n.to_signal_full
      ≡ length pushed
  pub lock_token : n.locked + length c.ready_mtx ≡ token c.mtx.locked
  pub space_free : 0 < c.space.count → c.space.waiters ≡ []
  pub full_free : 0 < c.full.count → c.full.waiters ≡ []
  pub mtx_free : c.mtx.locked ≡ false → c.mtx.waiters ≡ []
  pub space_waiters : n.await_space ≡ length c.space.waiters + length c.ready_space
  pub full_waiters : n.await_full ≡ length c.full.waiters + length c.ready_full
  pub mtx_waiters : n.await_mtx ≡ length c.mtx.waiters + length c.ready_mtx

pub Calls-eq :
    {m n : Calls}
    → m.to_push ≡ n.to_push
    → m.to_signal_full ≡ n.to_signal_full
    → m.await_space ≡ n.await_space
    → m.to_pop ≡ n.to_pop
    → m.to_signal_space ≡ n.to_signal_space
    → m.await_full ≡ n.await_full
    → m.locked ≡ n.locked
    → m.await_mtx ≡ n.await_mtx
    → m ≡ n
Calls-eq a b c d e f g h = cc

abbrev count_ready : Option Fiber → ℕ
count_ready none = 0
count_ready (some f) = 1

length-add_ready :
    (o : Option Fiber) (r : List Fiber) → length (add_ready o r) ≡ length r + count_ready o
length-add_ready none r = omega arith
length-add_ready (some f) r = omega (arith, length-append r (f ∷ []))

module _ {V : Type 0} where
  abbrev pub write_calls : Calls → WritePhase V → Calls
  write_calls n p = record n {
    to_push = before_push p + n.to_push;
    to_signal_full = after_push p + n.to_signal_full;
    await_space = write_awaits_space p + n.await_space;
    locked = write_locked p + n.locked;
    await_mtx = write_awaits_mtx p + n.await_mtx;
  }

  abbrev pub read_calls : Calls → ReadPhase V → Calls
  read_calls n p = record n {
    to_pop = before_pop p + n.to_pop;
    to_signal_space = after_pop p + n.to_signal_space;
    await_full = read_awaits_full p + n.await_full;
    locked = read_locked p + n.locked;
    await_mtx = read_awaits_mtx p + n.await_mtx;
  }

  pub write-IsValid :
      (sz : ℕ) (n : Calls) (c : Channel V) (pushed popped : List V) (f : Fiber) (p : WritePhase V)
      → sz < 2 ^ 64
      → IsValid sz (write_calls n p) c pushed popped
      → IsValid sz (write_calls n (write c f p).1) (write c f p).0 (pushes p pushed) popped
  unfolding write wait signal lock unlock
  write-IsValid sz n c pushed popped f (write_begins x) h v =
      ground (arith, length-append c.space.waiters (f ∷ []))
  write-IsValid sz n c pushed popped f (write_waits_space x) h v = v
  write-IsValid sz n c pushed popped f (write_has_space x) h v =
      ground (arith, length-append c.mtx.waiters (f ∷ []))
  write-IsValid sz n c pushed popped f (write_waits_mtx x) h v = v
  write-IsValid sz n c pushed popped f (write_has_mtx x) h v =
      ground (arith, length-append pushed (x ∷ []), append_assoc popped c.items (x ∷ []))
  write-IsValid sz n c pushed popped f write_pushed h v =
      ground (arith, length-add_ready (unlock c.mtx).1 c.ready_mtx)
  write-IsValid sz n c pushed popped f write_unlocked h v = ground (
    arith,
    length-add_ready (signal c.full).1 c.ready_full,
    ap length v.queue,
    length-append popped c.items,
  )
  write-IsValid sz n c pushed popped f write_returned h v = v

  pop-IsValid :
      (sz : ℕ) (n : Calls) (c c' : Channel V) (pushed popped : List V) (p' : ReadPhase V)
      (items : List V)
      → c.items ≡ items
      → pop_item c ≡ some (c', p')
      → IsValid sz (read_calls n read_has_mtx) c pushed popped
      → IsValid sz (read_calls n p') c' pushed (pops read_has_mtx p' popped)
  unfolding pop_item
  pop-IsValid sz n c c' pushed popped p' [] i e v = ground arith
  pop-IsValid sz n c c' pushed popped p' (x ∷ xs) i e v =
      ground (arith, append_assoc popped (x ∷ []) xs, length-append popped (x ∷ []))

  pub read-IsValid :
      (sz : ℕ) (n : Calls) (c c' : Channel V) (pushed popped : List V) (f : Fiber)
      (p p' : ReadPhase V)
      → sz < 2 ^ 64
      → read c f p ≡ some (c', p')
      → IsValid sz (read_calls n p) c pushed popped
      → IsValid sz (read_calls n p') c' pushed (pops p p' popped)
  unfolding read pop_item wait signal lock unlock
  read-IsValid sz n c c' pushed popped f read_begins p' h e v =
      ground (arith, length-append c.full.waiters (f ∷ []))
  read-IsValid sz n c c' pushed popped f read_waits_full p' h e v = ground arith
  read-IsValid sz n c c' pushed popped f read_has_full p' h e v =
      ground (arith, length-append c.mtx.waiters (f ∷ []))
  read-IsValid sz n c c' pushed popped f read_waits_mtx p' h e v = ground arith
  read-IsValid sz n c c' pushed popped f read_has_mtx p' h e v =
      pop-IsValid sz n c c' pushed popped p' c.items refl e v
  read-IsValid sz n c c' pushed popped f (read_popped x) p' h e v =
      ground (arith, length-add_ready (unlock c.mtx).1 c.ready_mtx)
  read-IsValid sz n c c' pushed popped f (read_unlocked x) p' h e v = ground (
    arith,
    length-add_ready (signal c.space).1 c.ready_space,
    ap length v.queue,
    length-append popped c.items,
  )
  read-IsValid sz n c c' pushed popped f (read_returned x) p' h e v = ground arith

  pub resume_space-IsValid :
      (sz : ℕ) (n : Calls) (c : Channel V) (pushed popped : List V) (rs : List Fiber) (f : Fiber)
      (ts : List Fiber) (x : V)
      → c.ready_space ≡ rs ++ (f ∷ ts)
      → IsValid sz (write_calls n (write_waits_space x)) c pushed popped
      → IsValid sz
          (write_calls n (write_has_space x))
          (record c { ready_space = rs ++ ts })
          pushed
          popped
  resume_space-IsValid sz n c pushed popped rs f ts x e v =
      ground (arith, ap length e, length-split rs f ts)

  pub resume_full-IsValid :
      (sz : ℕ) (n : Calls) (c : Channel V) (pushed popped : List V) (rs : List Fiber) (f : Fiber)
      (ts : List Fiber)
      → c.ready_full ≡ rs ++ (f ∷ ts)
      → IsValid sz (read_calls n read_waits_full) c pushed popped
      → IsValid sz (read_calls n read_has_full) (record c { ready_full = rs ++ ts }) pushed popped
  resume_full-IsValid sz n c pushed popped rs f ts e v =
      ground (arith, ap length e, length-split rs f ts)

  pub resume_writer-IsValid :
      (sz : ℕ) (n : Calls) (c : Channel V) (pushed popped : List V) (rs : List Fiber) (f : Fiber)
      (ts : List Fiber) (x : V)
      → c.ready_mtx ≡ rs ++ (f ∷ ts)
      → IsValid sz (write_calls n (write_waits_mtx x)) c pushed popped
      → IsValid sz
          (write_calls n (write_has_mtx x))
          (record c { ready_mtx = rs ++ ts })
          pushed
          popped
  resume_writer-IsValid sz n c pushed popped rs f ts x e v =
      ground (arith, ap length e, length-split rs f ts)

  pub resume_reader-IsValid :
      (sz : ℕ) (n : Calls) (c : Channel V) (pushed popped : List V) (rs : List Fiber) (f : Fiber)
      (ts : List Fiber)
      → c.ready_mtx ≡ rs ++ (f ∷ ts)
      → IsValid sz (read_calls n read_waits_mtx) c pushed popped
      → IsValid sz (read_calls n read_has_mtx) (record c { ready_mtx = rs ++ ts }) pushed popped
  resume_reader-IsValid sz n c pushed popped rs f ts e v =
      ground (arith, ap length e, length-split rs f ts)
