-- ===== src/Http/BlockDeque.antt =====
-- include/http/blockqueue.h: BlockDeque, the bounded queue of the log's writer, with all interleavings
-- of its calls. Between taking the mutex and waiting or returning a call is one atomic step.
pub mod Safe
pub mod Tests
use piorun.Prelude.{
  ℕ, ◌+◌, ◌-◌, ◌<◌, List, [], ◌∷◌, ◌++◌, Option, none, some, Bool, true, false, leb, ltb,
  if◌then◌else◌, length, assert, ◌>>◌,
}

-- Items are numbers.
pub record BlockDeque : Type 0 where
  pub deq : List ℕ
  pub capacity : ℕ
  pub closed : Bool

pub new : ℕ → Option BlockDeque
new max_capacity = do
  assert (ltb 0 max_capacity)
  some (record { deq = []; capacity = max_capacity; closed = false })

abbrev pub full : BlockDeque → Bool
full q = leb q.capacity (length q.deq)

-- The loop of push_back at its condition: true if the item went in, false if the call waits.
pub push_back : BlockDeque → ℕ → BlockDeque × Bool
push_back q item = if full q then (q, false) else (record q { deq = q.deq ++ (item ∷ []) }, true)

pub push_front : BlockDeque → ℕ → BlockDeque × Bool
push_front q item = if full q then (q, false) else (record q { deq = item ∷ q.deq }, true)

pub data PopResult : Type 0 where
  popped : ℕ → PopResult
  waits refused : PopResult

-- The loop of pop at its condition, and behind its wait.
pub pop : BlockDeque → BlockDeque × PopResult
pop q = elim q.deq [ [] ↦ (q, waits) | x ∷ rest ↦ (record q { deq = rest }, popped x) ]

pub pop_woken : BlockDeque → BlockDeque × PopResult
unfolding pop
pop_woken q = if q.closed then (q, refused) else pop q

pub close : BlockDeque → BlockDeque
close q = record q { deq = []; closed = true }

pub clear : BlockDeque → BlockDeque
clear q = record q { deq = [] }

-- The queue with the threads in its calls: those that wait for a condition variable, and those that
-- were woken and do not have the mutex again. What went in and what came out or was thrown away, in
-- order; whether push_front or clear was called; how many pops that were notified came back by their
-- timeout; the calls of Close that have not notified the producers yet, and those that have notified
-- the producers and not the consumers.
pub record System : Type 0 where
  pub queue : BlockDeque
  pub sleeping_consumers : ℕ
  pub woken_consumers : ℕ
  pub sleeping_producers : ℕ
  pub woken_producers : ℕ
  pub pushed : List ℕ
  pub gone : List ℕ
  pub fronted : Bool
  pub cleared : Bool
  pub late : ℕ
  pub closing_producers : ℕ
  pub closing_consumers : ℕ

pub start : BlockDeque → System
start q = record {
  queue = q;
  sleeping_consumers = 0;
  woken_consumers = 0;
  sleeping_producers = 0;
  woken_producers = 0;
  pushed = [];
  gone = [];
  fronted = false;
  cleared = false;
  late = 0;
  closing_producers = 0;
  closing_consumers = 0;
}

-- condConsumer_.notify_one(), condProducer_.notify_one().
abbrev pub wake_consumer : System → System
wake_consumer s =
    if ltb 0 s.sleeping_consumers
    then record s {
      sleeping_consumers = s.sleeping_consumers - 1;
      woken_consumers = s.woken_consumers + 1;
    }
    else s

abbrev pub wake_producer : System → System
wake_producer s =
    if ltb 0 s.sleeping_producers
    then record s {
      sleeping_producers = s.sleeping_producers - 1;
      woken_producers = s.woken_producers + 1;
    }
    else s

abbrev pub finish_push : System → ℕ → BlockDeque × Bool → System
finish_push s item (q, true) =
    wake_consumer (record s { queue = q; pushed = s.pushed ++ (item ∷ []) })
finish_push s item (q, false) = record s { sleeping_producers = s.sleeping_producers + 1 }

abbrev pub finish_pop : System → BlockDeque × PopResult → System
finish_pop s (q, popped x) = wake_producer (record s { queue = q; gone = s.gone ++ (x ∷ []) })
finish_pop s (q, waits) = record s { sleeping_consumers = s.sleeping_consumers + 1 }
finish_pop s (q, refused) = s

-- Close(): its part under the mutex, and then its two notify_all(), each a step of its own.
pub close_locked : System → System
unfolding close
close_locked s = record s {
  queue = close s.queue;
  gone = s.gone ++ s.queue.deq;
  closing_producers = s.closing_producers + 1;
}

pub notify_producers : System → System
notify_producers s = record s {
  sleeping_producers = 0;
  woken_producers = s.woken_producers + s.sleeping_producers;
  closing_producers = s.closing_producers - 1;
  closing_consumers = s.closing_consumers + 1;
}

pub notify_consumers : System → System
notify_consumers s = record s {
  sleeping_consumers = 0;
  woken_consumers = s.woken_consumers + s.sleeping_consumers;
  closing_consumers = s.closing_consumers - 1;
}

abbrev pub one_less_producer : System → System
one_less_producer s = record s { woken_producers = s.woken_producers - 1 }

abbrev pub one_less_consumer : System → System
one_less_consumer s = record s { woken_consumers = s.woken_consumers - 1 }

-- One step of some thread. A waiting thread may also wake without a notification, or by its timeout. A thread
-- in pop with a timeout that was notified, and whose time is over when it has the mutex again, returns
-- without a look at the queue.
pub data Step : System → System → Type 0 where
  pushes_back : {s : System} (item : ℕ) → Step s (finish_push s item (push_back s.queue item))
  pushes_back_again :
      {s : System} (item : ℕ)
      → 0 < s.woken_producers
      → Step s (finish_push (one_less_producer s) item (push_back s.queue item))
  pushes_front :
      {s : System} (item : ℕ)
      → Step s (finish_push (record s { fronted = true }) item (push_front s.queue item))
  pushes_front_again :
      {s : System} (item : ℕ)
      → 0 < s.woken_producers
      → Step s (
          finish_push
            (record (one_less_producer s) { fronted = true })
            item
            (push_front s.queue item))
  pops : {s : System} → Step s (finish_pop s (pop s.queue))
  pops_again :
      {s : System}
      → 0 < s.woken_consumers
      → Step s (finish_pop (one_less_consumer s) (pop_woken s.queue))
  times_out :
      {s : System}
      → 0 < s.sleeping_consumers
      → Step s (record s { sleeping_consumers = s.sleeping_consumers - 1 })
  times_out_late :
      {s : System}
      → 0 < s.woken_consumers
      → Step s (record (one_less_consumer s) { late = s.late + 1 })
  wakes_consumer : {s : System} → Step s (wake_consumer s)
  wakes_producer : {s : System} → Step s (wake_producer s)
  closes : {s : System} → Step s (close_locked s)
  notifies_producers : {s : System} → 0 < s.closing_producers → Step s (notify_producers s)
  notifies_consumers : {s : System} → 0 < s.closing_consumers → Step s (notify_consumers s)
  clears :
      {s : System}
      → Step s (record s { queue = clear s.queue; gone = s.gone ++ s.queue.deq; cleared = true })

pub data Reach (s : System) : System → Type 0 where
  here : Reach s s
  next : {t u : System} → Reach s t → Step t u → Reach s u
