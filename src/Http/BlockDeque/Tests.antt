-- ===== src/Http/BlockDeque/Tests.antt =====
-- Runs of the queue, and the theorems at the end of one.
use piorun.Prelude.{
  ◌+◌, ◌<◌, ◌-◌, ◌≤◌, ◌≡◌, refl, ◌⊎◌, [], ◌∷◌, ◌++◌, some, true, false, length, arith,
}
use piorun.Http.BlockDeque.{
  BlockDeque, System, new, start, push_back, pop, clear, Reach, here, next, pushes_back, pops,
  times_out_late, clears,
}
use piorun.Http.BlockDeque.Safe.{no_wakeup_lost, deque_in_order}

abbrev single : BlockDeque
single = record { deq = []; capacity = 1; closed = false }

new-single : new 1 ≡ some single
unfolding new
new-single = refl

-- One item went in and came out; a second one waited for room, and its thread is woken.
abbrev handed_on : System
handed_on = record {
  queue = single;
  sleeping_consumers = 0;
  woken_consumers = 0;
  sleeping_producers = 0;
  woken_producers = 1;
  pushed = 7 ∷ [];
  gone = 7 ∷ [];
  fronted = false;
  cleared = false;
  late = 0;
  closing_producers = 0;
  closing_consumers = 0;
}

to_handed_on : Reach (start single) handed_on
unfolding start push_back pop
to_handed_on = next (next (next here (pushes_back 7)) (pushes_back 8)) pops

no_wakeup_lost_example :
    ((handed_on.queue.closed ≡ true)
      ⊎ ((handed_on.sleeping_consumers ≡ 0)
          ⊎ (length handed_on.queue.deq ≤ handed_on.woken_consumers + handed_on.late)))
    × ((handed_on.cleared ≡ true)
        ⊎ ((0 < handed_on.closing_producers)
            ⊎ ((handed_on.sleeping_producers ≡ 0)
                ⊎ (handed_on.queue.capacity - length handed_on.queue.deq
                    ≤ handed_on.woken_producers))))
no_wakeup_lost_example = no_wakeup_lost 1 single new-single to_handed_on

deque_in_order_example :
    (length handed_on.queue.deq ≤ handed_on.queue.capacity)
    × ((handed_on.fronted ≡ true) ⊎ (handed_on.pushed ≡ handed_on.gone ++ handed_on.queue.deq))
deque_in_order_example = deque_in_order 1 single new-single to_handed_on

-- `clear` in place of the pop makes room, and leaves the thread that waits for it asleep.
abbrev stranded : System
stranded = record handed_on { woken_producers = 0; sleeping_producers = 1; cleared = true }

to_stranded : Reach (start single) stranded
unfolding start push_back clear
to_stranded = next (next (next here (pushes_back 7)) (pushes_back 8)) clears

-- Two threads wait in pop, an item comes in, and the time of the thread that was notified is over when it has
-- the mutex again: the item is left, and the other thread sleeps.
abbrev passed_over : System
passed_over = record handed_on {
  queue = record single { deq = 7 ∷ [] };
  sleeping_consumers = 1;
  woken_producers = 0;
  gone = [];
  late = 1;
}

to_passed_over : Reach (start single) passed_over
unfolding start push_back pop
to_passed_over =
    next (next (next (next here pops) pops) (pushes_back 7)) (times_out_late (omega arith))
