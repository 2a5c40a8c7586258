-- ===== src/Fiber/Sync/ConditionVariable/Safe.antt =====
-- No notification is lost, and wait returns with the mutex.
use piorun.Prelude.{
  ℕ, ◌+◌, ◌≤◌, ◌≡◌, refl, sym, ap, ◌∙◌, ◌⊎◌, List, [], ◌∷◌, ◌++◌, Bool, true, false, arith, length,
  length-append, length-split, append_assoc, append-nil,
}
use piorun.Fiber.Sync.{Fiber}
use piorun.Fiber.Sync.Mutex.{lock, unlock}
use piorun.Fiber.Sync.Mutex
use piorun.Fiber.Sync.Calls.{total, total-split}
use piorun.Fiber.Sync.ConditionVariable.{
  ConditionVariable, notify_one, notify_all, to_list, Locks, WaitPhase, wait_begins, wait_queued,
  wait_yields, wait_resumed, wait_waits_mtx, wait_returned, wait, System, start, arrives, Step,
  locks_mtx, unlocks_mtx, begins_wait, goes_on, leaves, notifies_one, notifies_all, wakes,
  wait_gets_mtx, lock_gets_mtx, Reach, here, next,
}

-- The call has the mutex.
abbrev pub locked : WaitPhase → ℕ
locked wait_begins = 1
locked wait_queued = 1
locked wait_returned = 1
locked _ = 0

-- The call is in the queue or notified, and not resumed yet.
abbrev pub asleep : WaitPhase → ℕ
asleep wait_queued = 1
asleep wait_yields = 1
asleep _ = 0

abbrev pub in_lock : WaitPhase → ℕ
in_lock wait_waits_mtx = 1
in_lock _ = 0

abbrev token : Bool → ℕ
token true = 1
token false = 0

-- With the numbers of the calls that have the mutex, that sleep, and that wait for the mutex.
pub record IsValid (have sleep await : ℕ) (s : Locks) (arrived notified : List Fiber) : Type 0 where
  pub queue : arrived ≡ notified ++ s.cond.waiters
  pub sleepers : sleep ≡ length s.cond.waiters + length s.ready_cond
  pub lock_token : have + length s.ready_mtx ≡ token s.mtx.locked
  pub free : s.mtx.locked ≡ false → s.mtx.waiters ≡ []
  pub lock_waiters : await ≡ length s.mtx.waiters + length s.ready_mtx

wait-IsValid :
    (h k a : ℕ) (s : Locks) (arrived notified : List Fiber) (f : Fiber) (p : WaitPhase)
    → IsValid (h + locked p) (k + asleep p) (a + in_lock p) s arrived notified
    → IsValid
        (h + locked (wait s f p).1)
        (k + asleep (wait s f p).1)
        (a + in_lock (wait s f p).1)
        (wait s f p).0
        (arrives f p arrived)
        notified
unfolding wait lock unlock
wait-IsValid h k a s arrived notified f wait_begins v =
    ground
      (arith, length-append s.cond.waiters (f ∷ []), append_assoc notified s.cond.waiters (f ∷ []))
wait-IsValid h k a s arrived notified f wait_queued v =
    ground (arith, length-append s.ready_mtx (to_list (unlock s.mtx).1))
wait-IsValid h k a s arrived notified f wait_yields v = v
wait-IsValid h k a s arrived notified f wait_resumed v =
    ground (arith, length-append s.mtx.waiters (f ∷ []))
wait-IsValid h k a s arrived notified f wait_waits_mtx v = v
wait-IsValid h k a s arrived notified f wait_returned v = v

abbrev Valid : System → Type 0
Valid s =
    IsValid (length s.holders + total locked s.waits) (total asleep s.waits)
      (length s.lockers + total in_lock s.waits) s.locks s.arrived s.notified

IsValid-equal :
    {h h' k k' a a' : ℕ} {s : Locks} {arrived notified : List Fiber}
    → h ≡ h'
    → k ≡ k'
    → a ≡ a'
    → IsValid h k a s arrived notified
    → IsValid h' k' a' s arrived notified
IsValid-equal e f g v = ground arith

-- The fibers at the front of the queue are signalled.
notify-IsValid :
    {h k a : ℕ} (s : Locks) (arrived notified out rest : List Fiber)
    → s.cond.waiters ≡ out ++ rest
    → IsValid h k a s arrived notified
    → IsValid h k a
        (record s { cond = record { waiters = rest }; ready_cond = s.ready_cond ++ out })
        arrived
        (notified ++ out)
notify-IsValid s arrived notified out rest e v = ground (
  arith,
  ap length e,
  length-append out rest,
  length-append s.ready_cond out,
  append_assoc notified out rest,
)

notify_one-split :
    (c : ConditionVariable) → c.waiters ≡ to_list (notify_one c).1 ++ (notify_one c).0.waiters
unfolding notify_one
notify_one-split c = ground arith

counts :
    (xs : List (Fiber × WaitPhase)) (f : Fiber) (p : WaitPhase) (ys : List (Fiber × WaitPhase))
    {waits : List (Fiber × WaitPhase)}
    → waits ≡ xs ++ ((f, p) ∷ ys)
    → (total locked waits ≡ locked p + total locked (xs ++ ys))
      × (total asleep waits ≡ asleep p + total asleep (xs ++ ys))
      × (total in_lock waits ≡ in_lock p + total in_lock (xs ++ ys))
counts xs f p ys e = (
  ap (total locked) e ∙ total-split locked xs f p ys,
  ap (total asleep) e ∙ total-split asleep xs f p ys,
  ap (total in_lock) e ∙ total-split in_lock xs f p ys,
)

start-IsValid : Valid start
unfolding start Mutex.init
start-IsValid = ground arith

Step-IsValid : {s t : System} → Step s t → Valid s → Valid t
unfolding lock unlock notify_one notify_all
Step-IsValid (locks_mtx {s} f) v = ground (arith, length-append s.locks.mtx.waiters (f ∷ []))
Step-IsValid (unlocks_mtx {s} xs f ys e) v = ground (
  arith,
  ap length e,
  length-split xs f ys,
  length-append s.locks.ready_mtx (to_list (unlock s.locks.mtx).1),
)
Step-IsValid (begins_wait {s} xs f ys e) v = ground (arith, ap length e, length-split xs f ys)
Step-IsValid (goes_on {s} xs f p ys e) v =
    let p' = (wait s.locks f p).1 in
    let (h, k, a) = counts xs f p ys e in
    let (h', k', a') = counts xs f p' ys refl in
    IsValid-equal (omega (arith, h')) (omega (arith, k')) (omega (arith, a')) (
      wait-IsValid (length s.holders + total locked (xs ++ ys)) (total asleep (xs ++ ys))
        (length s.lockers + total in_lock (xs ++ ys)) s.locks s.arrived s.notified f p
        (IsValid-equal (omega (arith, h)) (omega (arith, k)) (omega (arith, a)) v))
Step-IsValid (leaves {s} xs f ys e) v = ground (arith, counts xs f wait_returned ys e)
Step-IsValid (notifies_one {s}) v =
    notify-IsValid s.locks s.arrived s.notified (to_list (notify_one s.locks.cond).1)
      (notify_one s.locks.cond).0.waiters (notify_one-split s.locks.cond) v
Step-IsValid (notifies_all {s}) v =
    notify-IsValid s.locks s.arrived s.notified s.locks.cond.waiters []
      (sym (append-nil s.locks.cond.waiters)) v
Step-IsValid (wakes {s} rs f ts xs ys r e) v = ground (
  arith,
  ap length r,
  length-split rs f ts,
  counts xs f wait_yields ys e,
  counts xs f wait_resumed ys refl,
)
Step-IsValid (wait_gets_mtx {s} rs f ts xs ys r e) v = ground (
  arith,
  ap length r,
  length-split rs f ts,
  counts xs f wait_waits_mtx ys e,
  counts xs f wait_returned ys refl,
)
Step-IsValid (lock_gets_mtx {s} rs f ts us vs r e) v =
    ground (arith, ap length r, length-split rs f ts, ap length e, length-split us f vs)

Reach-IsValid : {s t : System} → Reach s t → Valid s → Valid t
Reach-IsValid here v = v
Reach-IsValid (next r st) v = Step-IsValid st (Reach-IsValid r v)

-- In every state reached from fresh locks by any interleaving of calls: at most one fiber has the mutex,
-- be it outside of wait, in a call of wait that has not unlocked it yet, or in one that has come
-- back; and none has it unless it is marked as locked.
pub wait_excludes :
    {s : System}
    → Reach start s
    → (length s.holders + total locked s.waits ≤ 1)
      × ((s.locks.mtx.locked ≡ true) ⊎ (length s.holders + total locked s.waits ≡ 0))
wait_excludes r = let v = Reach-IsValid r start-IsValid in (ground (arith, v), ground (arith, v))

-- In every state reached from fresh locks by any interleaving of calls: the fibers that began to wait, in
-- order, are those that were notified, in order, and then those in the queue; and the calls of wait
-- that sleep, from before they unlock the mutex on, are as many as the fibers that are in the queue or
-- are notified and not resumed yet. No notification is lost between the unlocking and the sleep.
pub notified_in_order :
    {s : System}
    → Reach start s
    → (s.arrived ≡ s.notified ++ s.locks.cond.waiters)
      × (total asleep s.waits ≡ length s.locks.cond.waiters + length s.locks.ready_cond)
notified_in_order r = let v = Reach-IsValid r start-IsValid in (v.queue, v.sleepers)
