-- ===== src/Fiber/Poll/Quiet.antt =====
-- What co_poll_inner leaves as it is: an observation that the system calls of the wait keep, and so do
-- the fibers that run meanwhile.
use piorun.Prelude.{ℕ, ◌+◌, ◌≡◌, refl, ◌∙◌, List, [], ◌∷◌, ◌==◌, length, inl, inr, Bool-cases}
use piorun.Fiber.Wheel.{Item, Wheel, Status, ok, rejected, add_timeout}
use piorun.Fiber.Poll.{
  PollFd, Kernel, EpollMask, Poller, add_fds, del_fds, wait_for, co_poll_inner, is_open, refuses,
  fresh_poller, poll_item, poll_event_to_epoll,
}

pub record IsQuiet {K B : Type 0} (sys : Kernel K) (seen : K → B) : Type 0 where
  pub of_poll :
      (fds : List PollFd) (timeout : ℕ) (k : K) → seen (sys.sys_poll fds timeout k).1 ≡ seen k
  pub of_add : (fd i : ℕ) (e : EpollMask) (k : K) → seen (sys.epoll_add fd i e k).1 ≡ seen k
  pub of_del : (fd : ℕ) (k : K) → seen (sys.epoll_del fd k) ≡ seen k
  pub of_away : (x : Item) (w : Wheel) (k : K) → seen (sys.away x w k).2 ≡ seen k

module _ {K B : Type 0} {sys : Kernel K} {seen : K → B} (q : IsQuiet sys seen) where
  seen-add_fds : (n i : ℕ) (fds : List PollFd) (k : K) → seen (add_fds sys n i fds k).1 ≡ seen k
  unfolding add_fds
  seen-add_fds n i [] k = refl
  seen-add_fds n i (p ∷ ps) k =
      let added = q.of_add p.fd i (poll_event_to_epoll p.events) k in
      let rest =
        seen-add_fds n (i + 1) ps (sys.epoll_add p.fd i (poll_event_to_epoll p.events) k).1
        ∙ added in
      elim (Bool-cases (is_open p.fd)) [
        | inr shut ↦ rw shut (seen-add_fds n (i + 1) ps k)
        | inl live ↦
            elim (Bool-cases
              (refuses n (sys.epoll_add p.fd i (poll_event_to_epoll p.events) k).0)) [
                | inl refused ↦ rw (live, refused) added
                | inr taken ↦ rw (live, taken) rest
              ]
      ]

  seen-del_fds : (fds : List PollFd) (k : K) → seen (del_fds sys fds k) ≡ seen k
  unfolding del_fds
  seen-del_fds [] k = refl
  seen-del_fds (p ∷ ps) k = elim (Bool-cases (is_open p.fd)) [
    | inl live ↦ rw live (seen-del_fds ps (sys.epoll_del p.fd k) ∙ q.of_del p.fd k)
    | inr shut ↦ rw shut (seen-del_fds ps k)
  ]

  seen-wait_for :
      (fds : List PollFd) (p : Poller) (r : Status × Wheel × Item) (k : K)
      → seen (wait_for sys fds p r k).2 ≡ seen k
  unfolding wait_for
  seen-wait_for fds p (rejected, w, x) k = seen-del_fds fds k
  seen-wait_for fds p (ok, w, x) k = seen-del_fds fds (sys.away x w k).2 ∙ q.of_away x w k

  pub seen-co_poll_inner :
      (id : ℕ) (fds : List PollFd) (timeout : ℕ) (w : Wheel) (k : K)
      → seen (co_poll_inner sys id fds timeout w k).2 ≡ seen k
  unfolding co_poll_inner
  seen-co_poll_inner id fds timeout w k =
      let added = seen-add_fds (length fds) 0 fds k in
      let watched = (add_fds sys (length fds) 0 fds k).1 in
      elim (Bool-cases (timeout == 0)) [
        | inl at_once ↦ rw at_once (q.of_poll fds timeout k)
        | inr waits ↦ elim (Bool-cases (add_fds sys (length fds) 0 fds k).0) [
          | inl taken ↦
              rw (waits, taken)
                (seen-wait_for fds (fresh_poller sys k)
                    (add_timeout w (poll_item id (sys.now watched) timeout) (sys.now watched))
                    watched
                  ∙ added)
          | inr refused ↦ rw (waits, refused) (q.of_poll fds timeout watched ∙ added)
        ]
      ]
