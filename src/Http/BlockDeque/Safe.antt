-- ===== src/Http/BlockDeque/Safe.antt =====
-- The queue is bounded and in order, and no wakeup is lost.
use piorun.Prelude.{
  ℕ, ◌+◌, ◌-◌, ◌≤◌, ◌<◌, ◌≡◌, refl, sym, ◌⊎◌, inl, inr, List, [], ◌∷◌, ◌++◌, some, arith, length,
  length-append, append-nil, append_assoc, true,
}
use piorun.Http.BlockDeque.{
  BlockDeque, System, Step, pushes_back, pushes_back_again, pushes_front, pushes_front_again, pops,
  pops_again, times_out, times_out_late, wakes_consumer, wakes_producer, closes, notifies_producers,
  notifies_consumers, clears, Reach, here, next, start, push_back, push_front, pop, pop_woken,
  close, close_locked, notify_producers, notify_consumers, clear, new,
}

pub record IsValid (s : System) : Type 0 where
  pub bounded : length s.queue.deq ≤ s.queue.capacity
  pub consumers :
      (s.queue.closed ≡ true)
      ⊎ ((s.sleeping_consumers ≡ 0) ⊎ (length s.queue.deq ≤ s.woken_consumers + s.late))
  pub producers :
      (s.cleared ≡ true)
      ⊎ ((0 < s.closing_producers)
          ⊎ ((s.sleeping_producers ≡ 0)
              ⊎ (s.queue.capacity - length s.queue.deq ≤ s.woken_producers)))

Step-IsValid : {s t : System} → Step s t → IsValid s → IsValid t
unfolding push_back push_front pop pop_woken close close_locked notify_producers notify_consumers
    clear
Step-IsValid (pushes_back {s} x) v = ground (arith, length-append s.queue.deq (x ∷ []))
Step-IsValid (pushes_back_again {s} x h) v = ground (arith, length-append s.queue.deq (x ∷ []))
Step-IsValid (pushes_front {s} x) v = ground arith
Step-IsValid (pushes_front_again {s} x h) v = ground arith
Step-IsValid (pops {s}) v = grind arith
Step-IsValid (pops_again {s} h) v = grind arith
Step-IsValid (times_out {s} h) v = ground arith
Step-IsValid (wakes_consumer {s}) v = ground arith
Step-IsValid (wakes_producer {s}) v = ground arith
Step-IsValid (closes {s}) v = ground arith
Step-IsValid (notifies_producers {s} h) v = ground arith
Step-IsValid (notifies_consumers {s} h) v = ground arith
Step-IsValid (times_out_late {s} h) v = ground arith
Step-IsValid (clears {s}) v = ground arith

start-IsValid : (q : BlockDeque) → length q.deq ≤ q.capacity → IsValid (start q)
unfolding start
start-IsValid q h = record {
  bounded = h;
  consumers = inr (inl refl);
  producers = inr (inr (inl refl));
}

Reach-IsValid : {s t : System} → IsValid s → Reach s t → IsValid t
Reach-IsValid v here = v
Reach-IsValid v (next r st) = Step-IsValid st (Reach-IsValid v r)

-- What went in is what came out or was thrown away and then what is there, if push_front was not used.
InOrder : System → Type 0
InOrder s = (s.fronted ≡ true) ⊎ (s.pushed ≡ s.gone ++ s.queue.deq)

popped-append : (gone rest : List ℕ) (x : ℕ) → gone ++ (x ∷ rest) ≡ (gone ++ (x ∷ [])) ++ rest
popped-append gone rest x = sym (append_assoc gone (x ∷ []) rest)

Step-InOrder : {s t : System} → Step s t → InOrder s → InOrder t
unfolding InOrder push_back push_front pop pop_woken close close_locked notify_producers
    notify_consumers clear
Step-InOrder (pushes_back {s} x) v = grind (arith, append_assoc s.gone s.queue.deq (x ∷ []))
Step-InOrder (pushes_back_again {s} x h) v = grind (arith, append_assoc s.gone s.queue.deq (x ∷ []))
Step-InOrder (pushes_front {s} x) v = ground arith
Step-InOrder (pushes_front_again {s} x h) v = ground arith
Step-InOrder (pops {s}) v = grind (arith, popped-append s.gone)
Step-InOrder (pops_again {s} h) v = grind (arith, popped-append s.gone)
Step-InOrder (times_out {s} h) v = v
Step-InOrder (times_out_late {s} h) v = v
Step-InOrder (notifies_producers {s} h) v = v
Step-InOrder (notifies_consumers {s} h) v = v
Step-InOrder (wakes_consumer {s}) v = ground arith
Step-InOrder (wakes_producer {s}) v = ground arith
Step-InOrder (closes {s}) v = grind (arith, append-nil (s.gone ++ s.queue.deq))
Step-InOrder (clears {s}) v = grind (arith, append-nil (s.gone ++ s.queue.deq))

Reach-InOrder : {s t : System} → InOrder s → Reach s t → InOrder t
Reach-InOrder v here = v
Reach-InOrder v (next r st) = Step-InOrder st (Reach-InOrder v r)

new-IsValid : (max_capacity : ℕ) (q : BlockDeque) → new max_capacity ≡ some q → IsValid (start q)
unfolding new start
new-IsValid max_capacity q e = grind arith

new-InOrder : (max_capacity : ℕ) (q : BlockDeque) → new max_capacity ≡ some q → InOrder (start q)
unfolding new start InOrder
new-InOrder max_capacity q e = grind arith

-- In every state reached from a new queue by any interleaving of calls: while the queue is not closed and
-- threads wait in pop, there are no more items than threads that were woken for them and, beyond those,
-- calls of pop that were notified and came back by their timeout; and if clear was not called, no call of
-- Close is before its notify_all of the producers, and threads wait in push_back or push_front, there is
-- no more room than threads that were woken for it.
pub no_wakeup_lost :
    (max_capacity : ℕ) (q : BlockDeque) {s : System}
    → new max_capacity ≡ some q
    → Reach (start q) s
    → ((s.queue.closed ≡ true)
        ⊎ ((s.sleeping_consumers ≡ 0) ⊎ (length s.queue.deq ≤ s.woken_consumers + s.late)))
      × ((s.cleared ≡ true)
          ⊎ ((0 < s.closing_producers)
              ⊎ ((s.sleeping_producers ≡ 0)
                  ⊎ (s.queue.capacity - length s.queue.deq ≤ s.woken_producers))))
no_wakeup_lost max_capacity q e r =
    let v = Reach-IsValid (new-IsValid max_capacity q e) r in (v.consumers, v.producers)

-- In every state reached from a new queue by any interleaving of calls, the queue holds no more items
-- than its capacity; and if push_front was not called, the items that went in, in order, are those
-- that came out or were thrown away by Close and clear, in order, and then those that are there.
pub deque_in_order :
    (max_capacity : ℕ) (q : BlockDeque) {s : System}
    → new max_capacity ≡ some q
    → Reach (start q) s
    → (length s.queue.deq ≤ s.queue.capacity)
      × ((s.fronted ≡ true) ⊎ (s.pushed ≡ s.gone ++ s.queue.deq))
deque_in_order max_capacity q e r = (
  (Reach-IsValid (new-IsValid max_capacity q e) r).bounded,
  unfold InOrder in Reach-InOrder (new-InOrder max_capacity q e) r,
)
