-- ===== src/Fiber/Sync/Channel.antt =====
-- fiber::channel, and all interleavings of its calls: write and read go on from lock to lock, and another
-- fiber may come in between any two of their statements.
pub mod Counts
pub mod Keeps
pub mod Safe
pub mod Tests
use piorun.Prelude.{ℕ, zero, suc, ◌≡◌, List, [], ◌∷◌, ◌++◌, Option, none, some, Bool, true, false}
use piorun.Fiber.Sync.{Fiber, Outcome, acquired, parked}
use piorun.Fiber.Sync.Mutex.{Mutex, lock, unlock}
use piorun.Fiber.Sync.Mutex
use piorun.Fiber.Sync.Semaphore.{Semaphore, wait, signal, add_ready}
use piorun.Fiber.Sync.Semaphore

-- The channel with the fibers that its locks have signalled and that are not resumed yet, over all
-- threads.
pub record Channel (V : Type 0) : Type 0 where
  pub mtx : Mutex
  pub full : Semaphore
  pub space : Semaphore
  pub items : List V
  pub ready_mtx : List Fiber
  pub ready_full : List Fiber
  pub ready_space : List Fiber

-- Where a call of write is: before space.wait() or in it, before mtx.lock() or in it, and before the
-- statements that follow.
pub data WritePhase (V : Type 0) : Type 0 where
  write_begins write_waits_space write_has_space write_waits_mtx write_has_mtx : V → WritePhase V
  write_pushed write_unlocked write_returned : WritePhase V

pub data ReadPhase (V : Type 0) : Type 0 where
  read_begins read_waits_full read_has_full read_waits_mtx read_has_mtx : ReadPhase V
  read_popped read_unlocked read_returned : V → ReadPhase V

abbrev at_outcome : {A : Type 0} → Outcome → A → A → A
at_outcome acquired goes_on waits = goes_on
at_outcome parked goes_on waits = waits

module _ {V : Type 0} where
  pub init : ℕ → Channel V
  unfolding Mutex.init Semaphore.init
  init sz = record {
    mtx = Mutex.init;
    full = Semaphore.init 0;
    space = Semaphore.init sz;
    items = [];
    ready_mtx = [];
    ready_full = [];
    ready_space = [];
  }

  -- The next statement of a call of write by fiber `f`; a fiber that waits does nothing.
  pub write : Channel V → Fiber → WritePhase V → Channel V × WritePhase V
  write c f (write_begins x) =
      let r = wait c.space f in
      (record c { space = r.0 }, at_outcome r.1 (write_has_space x) (write_waits_space x))
  write c f (write_waits_space x) = (c, write_waits_space x)
  write c f (write_has_space x) =
      let r = lock c.mtx f in
      (record c { mtx = r.0 }, at_outcome r.1 (write_has_mtx x) (write_waits_mtx x))
  write c f (write_waits_mtx x) = (c, write_waits_mtx x)
  write c f (write_has_mtx x) = (record c { items = c.items ++ (x ∷ []) }, write_pushed)
  write c f write_pushed =
      let r = unlock c.mtx in
      (record c { mtx = r.0; ready_mtx = add_ready r.1 c.ready_mtx }, write_unlocked)
  write c f write_unlocked =
      let r = signal c.full in
      (record c { full = r.0; ready_full = add_ready r.1 c.ready_full }, write_returned)
  write c f write_returned = (c, write_returned)

  -- front() and pop_front(); none if they are called on an empty deque.
  pub pop_item : Channel V → Option (Channel V × ReadPhase V)
  pop_item c = elim c.items [ [] ↦ none | x ∷ xs ↦ some (record c { items = xs }, read_popped x) ]

  -- The next statement of a call of read.
  pub read : Channel V → Fiber → ReadPhase V → Option (Channel V × ReadPhase V)
  read c f read_begins =
      let r = wait c.full f in
      some (record c { full = r.0 }, at_outcome r.1 read_has_full read_waits_full)
  read c f read_waits_full = some (c, read_waits_full)
  read c f read_has_full =
      let r = lock c.mtx f in
      some (record c { mtx = r.0 }, at_outcome r.1 read_has_mtx read_waits_mtx)
  read c f read_waits_mtx = some (c, read_waits_mtx)
  read c f read_has_mtx = pop_item c
  read c f (read_popped x) =
      let r = unlock c.mtx in
      some (record c { mtx = r.0; ready_mtx = add_ready r.1 c.ready_mtx }, read_unlocked x)
  read c f (read_unlocked x) =
      let r = signal c.space in
      some (record c { space = r.0; ready_space = add_ready r.1 c.ready_space }, read_returned x)
  read c f (read_returned x) = some (c, read_returned x)

-- The channel with the calls about it, and what was pushed into it and popped from it, in order.
pub record System (V : Type 0) : Type 0 where
  pub channel : Channel V
  pub writers : List (Fiber × WritePhase V)
  pub readers : List (Fiber × ReadPhase V)
  pub pushed : List V
  pub popped : List V

module _ {V : Type 0} where
  pub start : ℕ → System V
  start sz = record { channel = init sz; writers = []; readers = []; pushed = []; popped = [] }

  -- What was pushed, and what was popped, behind a statement.
  abbrev pub pushes : WritePhase V → List V → List V
  pushes (write_has_mtx x) pushed = pushed ++ (x ∷ [])
  pushes _ pushed = pushed

  abbrev pub pops : ReadPhase V → ReadPhase V → List V → List V
  pops read_has_mtx (read_popped x) popped = popped ++ (x ∷ [])
  pops _ _ popped = popped

-- One step of some fiber, on any thread: a call begins or goes on, or a signalled fiber is resumed in
-- the call in which it waits.
pub data Step {V : Type 0} : System V → System V → Type 0 where
  begins_write :
      {s : System V} (f : Fiber) (x : V)
      → Step s (record s { writers = (f, write_begins x) ∷ s.writers })
  begins_read :
      {s : System V} (f : Fiber) → Step s (record s { readers = (f, read_begins) ∷ s.readers })
  writes :
      {s : System V} (xs : List (Fiber × WritePhase V)) (f : Fiber) (p : WritePhase V)
      (ys : List (Fiber × WritePhase V))
      → s.writers ≡ xs ++ ((f, p) ∷ ys)
      → Step s (record s {
        channel = (write s.channel f p).0;
        writers = xs ++ ((f, (write s.channel f p).1) ∷ ys);
        pushed = pushes p s.pushed;
      })
  reads :
      {s : System V} (xs : List (Fiber × ReadPhase V)) (f : Fiber) (p p' : ReadPhase V)
      (ys : List (Fiber × ReadPhase V)) (c : Channel V)
      → s.readers ≡ xs ++ ((f, p) ∷ ys)
      → read s.channel f p ≡ some (c, p')
      → Step s
          (record s { channel = c; readers = xs ++ ((f, p') ∷ ys); popped = pops p p' s.popped })
  gets_space :
      {s : System V} (rs : List Fiber) (f : Fiber) (ts : List Fiber)
      (xs : List (Fiber × WritePhase V)) (x : V) (ys : List (Fiber × WritePhase V))
      → s.channel.ready_space ≡ rs ++ (f ∷ ts)
      → s.writers ≡ xs ++ ((f, write_waits_space x) ∷ ys)
      → Step s (record s {
        channel = record s.channel { ready_space = rs ++ ts };
        writers = xs ++ ((f, write_has_space x) ∷ ys);
      })
  gets_full :
      {s : System V} (rs : List Fiber) (f : Fiber) (ts : List Fiber)
      (xs : List (Fiber × ReadPhase V)) (ys : List (Fiber × ReadPhase V))
      → s.channel.ready_full ≡ rs ++ (f ∷ ts)
      → s.readers ≡ xs ++ ((f, read_waits_full) ∷ ys)
      → Step s (record s {
        channel = record s.channel { ready_full = rs ++ ts };
        readers = xs ++ ((f, read_has_full) ∷ ys);
      })
  write_gets_mtx :
      {s : System V} (rs : List Fiber) (f : Fiber) (ts : List Fiber)
      (xs : List (Fiber × WritePhase V)) (x : V) (ys : List (Fiber × WritePhase V))
      → s.channel.ready_mtx ≡ rs ++ (f ∷ ts)
      → s.writers ≡ xs ++ ((f, write_waits_mtx x) ∷ ys)
      → Step s (record s {
        channel = record s.channel { ready_mtx = rs ++ ts };
        writers = xs ++ ((f, write_has_mtx x) ∷ ys);
      })
  read_gets_mtx :
      {s : System V} (rs : List Fiber) (f : Fiber) (ts : List Fiber)
      (xs : List (Fiber × ReadPhase V)) (ys : List (Fiber × ReadPhase V))
      → s.channel.ready_mtx ≡ rs ++ (f ∷ ts)
      → s.readers ≡ xs ++ ((f, read_waits_mtx) ∷ ys)
      → Step s (record s {
        channel = record s.channel { ready_mtx = rs ++ ts };
        readers = xs ++ ((f, read_has_mtx) ∷ ys);
      })

pub data Reach {V : Type 0} (s : System V) : System V → Type 0 where
  here : Reach s s
  next : {t u : System V} → Reach s t → Step t u → Reach s u
