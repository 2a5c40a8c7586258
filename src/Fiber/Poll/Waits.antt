-- ===== src/Fiber/Poll/Waits.antt =====
-- What co_poll_inner of src/piorun/fiber/fiber.cc does when it waits and when the time wheel refuses.
use mathlib.Core.Option
use piorun.Prelude.{
  ℕ, ◌+◌, ◌-◌, ◌^◌, ◌≤◌, ◌<◌, ◌≡◌, refl, ap, ◌∙◌, List, [], ◌∷◌, Option, none, some, Bool, true,
  false, if◌then◌else◌, ◌==◌, length, Perm, arith, get_elem?, inl, subst,
}
use piorun.Http.Buffer.{IoResult, failed, done}
use piorun.Fiber.Wheel.{Item, Wheel, Status, ok, add_timeout, u64_mod}
use piorun.Fiber.Wheel.Take.{stored}
use piorun.Fiber.Wheel.Valid.{IsValid}
use piorun.Fiber.Wheel.Add.{add_timeout_ok, add_timeout_rejected, marked}
use piorun.Fiber.Poll.Seen.{
  as_poll, with_revents, of_timer, asked, of_timer-drop_item, get_elem?-copy_revents,
  watching-del_fds,
}
use piorun.Fiber.Poll.{
  PollMask, EpollMask, PollFd, Kernel, Poller, on_poll_prepare, prepare_all, copy_revents,
  epoll_event_to_poll, co_poll_inner, add_fds, del_fds, wait_for, poll_item, drop_item, expire_time,
  is_positive, einval, fresh_poller,
}

-- The last of the events that came for an index.
abbrev pub last_event : ℕ → List (ℕ × EpollMask) → Option EpollMask
last_event i [] = none
last_event i ((j, e) ∷ rest) = elim (last_event i rest) [
  | none ↦ if i == j then some e else none
  | some later ↦ some later
]

-- What a descriptor's `revents` is after the wait: the last event, or what the memory held.
abbrev pub answer : (ℕ → PollMask) → List (ℕ × EpollMask) → ℕ → PollMask
answer held arrivals i = elim (last_event i arrivals) [ none ↦ held i | some e ↦ as_poll e ]

prepare_all-raise_cnt :
    (p : Poller) (arrivals : List (ℕ × EpollMask))
    → (prepare_all p arrivals).raise_cnt ≡ p.raise_cnt + length arrivals
unfolding prepare_all
prepare_all-raise_cnt p [] = omega arith
prepare_all-raise_cnt p ((j, e) ∷ rest) =
    ground (arith, prepare_all-raise_cnt (on_poll_prepare p (j, e)) rest)

answer_step :
    (p : Poller) (i j : ℕ) (e : EpollMask) (later : Option EpollMask) (same : Bool)
    → elim later as (λ _. PollMask) [
      | none ↦ if same then as_poll e else p.revents i
      | some e' ↦ as_poll e'
    ]
      ≡ elim (elim later as (λ _. Option EpollMask) [
        | none ↦ if same then some e else none
        | some x ↦ some x
      ]) [ none ↦ p.revents i | some e' ↦ as_poll e' ]
answer_step p i j e none true = refl
answer_step p i j e none false = refl
answer_step p i j e (some x) same = refl

prepare_all-revents :
    (p : Poller) (arrivals : List (ℕ × EpollMask)) (i : ℕ)
    → (prepare_all p arrivals).revents i ≡ answer p.revents arrivals i
unfolding prepare_all epoll_event_to_poll
prepare_all-revents p [] i = refl
prepare_all-revents p ((j, e) ∷ rest) i =
    prepare_all-revents (on_poll_prepare p (j, e)) rest i
    ∙ answer_step p i j e (last_event i rest) (i == j)

copy_revents_cong :
    (f g : ℕ → PollMask)
    → ((i : ℕ) → f i ≡ g i)
    → (i : ℕ) (fds : List PollFd) → copy_revents f i fds ≡ copy_revents g i fds
unfolding copy_revents
copy_revents_cong f g h i [] = refl
copy_revents_cong f g h i (p ∷ ps) = rw (h i, copy_revents_cong f g h (i + 1) ps) refl

-- A timeout that is positive or none, as the bit pattern of an int, is due no earlier than now and
-- below 2^64.
expire_time_lem :
    (now timeout : ℕ)
    → now + 2 ^ 31 < u64_mod
    → (now ≤ expire_time now timeout)
      × (expire_time now timeout < u64_mod)
      × (expire_time now timeout ≡ (if is_positive timeout then now + timeout else u64_mod - 1))
expire_time_lem now timeout h = ground arith

module _ {K : Type 0} (sys : Kernel K) (fds : List PollFd) (p : Poller) (k : K) where
  wait_for-ok :
      {r : Status × Wheel × Item} (x : Item)
      → r.0 ≡ ok
      → r.2 ≡ x
      → p.raise_cnt ≡ 0
      → (let (arrivals, back, k') = sys.away x r.1 k in
          wait_for sys fds p r k ≡ (
            (copy_revents (answer p.revents arrivals) 0 fds, done (length arrivals)),
            record back { items = λ i. drop_item x.id (back.items i) },
            del_fds sys fds k',
          ))
  unfolding wait_for
  wait_for-ok {r} x accepted same none_yet =
      let arrivals = (sys.away x r.1 k).0 in
      let count : (prepare_all p arrivals).raise_cnt ≡ length arrivals =
        omega (arith, prepare_all-raise_cnt p arrivals, none_yet) in
      rw (accepted, same, count, copy_revents_cong _ _ (prepare_all-revents p arrivals) 0 fds) refl

-- What the fiber finds when it goes on, after the events `came`, with the wheel `back`, in the system `k`: the
-- result and the memory that `fds` points to, the wheel, and the system.
pub record Waited {K : Type 0} (watching : K → ℕ → Bool) (id : ℕ) (fds : List PollFd)
    (held : ℕ → PollMask) (came : List (ℕ × EpollMask) × Wheel × K)
    (out : (List PollFd × IoResult ℕ) × Wheel × K) : Type 0 where
  pub result : out.0.1 ≡ done (length came.0)
  pub answers :
      (i : ℕ)
      → get_elem? out.0.0 i ≡ Option.map (with_revents (answer held came.0 i)) (get_elem? fds i)
  pub timers :
      (slot y : ℕ)
      → of_timer y (out.1.items slot) ≡ (if y == id then [] else of_timer y (came.1.items slot))
  pub same_start : out.1.start ≡ came.1.start
  pub same_start_idx : out.1.start_idx ≡ came.1.start_idx
  pub same_size : out.1.item_size ≡ came.1.item_size
  pub watches : (fd : ℕ) → watching out.2 fd ≡ (if asked fd fds then false else watching came.2 fd)

module _ {K : Type 0} (sys : Kernel K) (id timeout : ℕ) (fds : List PollFd) (k : K)
    (nonzero : (timeout == 0) ≡ false)
    (accepted : (add_fds sys (length fds) 0 fds k).0 ≡ true) where
  abbrev pub watched : K
  watched = (add_fds sys (length fds) 0 fds k).1

  abbrev pub timer : Item
  timer = poll_item id (sys.now watched) timeout

  watches :
      (w : Wheel)
      → co_poll_inner sys id fds timeout w k
        ≡ wait_for sys fds (fresh_poller sys k) (add_timeout w timer (sys.now watched)) watched
  unfolding co_poll_inner
  watches w = rw (nonzero, accepted) refl

  -- co_poll_inner, when the timeout is not 0, epoll takes the descriptors, the clock has not run backwards and
  -- is 2^31 or more below 2^64, the wheel is valid, and EPOLL_CTL_DEL ends the watch of its descriptor and of no
  -- other: the wheel that the fiber leaves when it yields is valid and has the items it had and the poll's
  -- timer, due `timeout` from now, or at 2^64 - 1 if `timeout` is negative. When the fiber goes on, the
  -- result is the number of events that came; of each descriptor `revents` is the last event that came for
  -- it, flag by flag, or what the memory of `new pollfd[]` held if none came, and nothing else has changed; the
  -- poll's timer is in no slot of the wheel, in which the slots have the items of every other timer that they
  -- had; and epoll watches none of the descriptors of the call that are not negative, and the others as it did.
  pub co_poll_inner_waits :
      (watching : K → ℕ → Bool)
      → ((fd fd' : ℕ) (k : K)
          → watching (sys.epoll_del fd k) fd' ≡ (if fd' == fd then false else watching k fd'))
      → {w : Wheel} → IsValid w
      → w.start ≤ sys.now watched
      → sys.now watched + 2 ^ 31 < u64_mod
      → let x = marked w timer in
        (parked : Wheel) × IsValid parked
        × Perm (x ∷ stored w.items w.item_size) (stored parked.items w.item_size)
        × (x.expire_time ≡ (if is_positive timeout then sys.now watched + timeout else u64_mod - 1))
        × Waited watching id fds
            (sys.fresh k)
            (sys.away x parked watched)
            (co_poll_inner sys id fds timeout w k)
  co_poll_inner_waits watching forgets {w} v begun small =
      let (late, below, due) = expire_time_lem (sys.now watched) timeout small in
      let r = add_timeout w timer (sys.now watched) in
      let (added, valid, start, size, same, perm) =
        add_timeout_ok {w = w} timer (sys.now watched) v refl begun late below in
      let out =
        watches w
        ∙ wait_for-ok sys fds (fresh_poller sys k) watched {r = r} (marked w timer) added same
            refl in
      let came = sys.away (marked w timer) r.1 watched in
      (
        r.1,
        valid,
        subst (λ x. Perm (x ∷ stored w.items w.item_size) (stored r.1.items w.item_size)) same perm,
        due,
        rw out (record {
          result = refl;
          answers = λ i. get_elem?-copy_revents (answer (sys.fresh k) came.0) i fds;
          timers = λ slot y. of_timer-drop_item y id (came.1.items slot);
          same_start = refl;
          same_start_idx = refl;
          same_size = refl;
          watches = watching-del_fds sys watching forgets fds came.2;
        }),
      )

  -- When the clock has run backwards, the wheel refuses the timer: the call fails at once with EINVAL, the wheel
  -- is as it was, the descriptors are out of epoll, and `revents` is what the memory of `new pollfd[]` held.
  pub co_poll_inner_refused :
      (w : Wheel)
      → 0 < w.start
      → sys.now watched < w.start
      → co_poll_inner sys id fds timeout w k
        ≡ ((copy_revents (sys.fresh k) 0 fds, failed einval), w, del_fds sys fds watched)
  unfolding wait_for
  co_poll_inner_refused w h past =
      watches w
      ∙ ap (λ r. wait_for sys fds (fresh_poller sys k) r watched)
          (add_timeout_rejected w timer (sys.now watched) h (inl past))
