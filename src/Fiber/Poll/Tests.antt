-- ===== src/Fiber/Poll/Tests.antt =====
-- A poll of a fiber at a concrete system, and the theorems at it.
use piorun.Prelude.{
  ℕ, ◌+◌, ◌≡◌, refl, Bool, if◌then◌else◌, ◌==◌, List, [], ◌∷◌, none, true, false, arith, Perm,
}
use piorun.Http.Buffer.{done}
use piorun.Fiber.Wheel.{Wheel}
use piorun.Fiber.Wheel.Take.{stored}
use piorun.Fiber.Wheel.Valid.{IsValid}
use piorun.Fiber.Wheel.Add.{marked}
use piorun.Fiber.Wheel.Tests.{busy, busy-IsValid}
use piorun.Fiber.Poll.{
  PollMask, EpollMask, PollFd, Kernel, no_events, co_poll_inner, poll_item, add_fds,
}
use piorun.Fiber.Poll.Waits.{Waited, co_poll_inner_waits}

abbrev readable : PollMask
readable = record no_events { pollin = true }

abbrev arrived : EpollMask
arrived = record {
  epollin = true;
  epollout = false;
  epollhup = false;
  epollerr = false;
  epollrdnorm = false;
  epollwrnorm = false;
  epollpri = false;
}

-- A system whose state is the time and the descriptors that epoll watches; the descriptor at index 1 becomes
-- readable.
abbrev system : Kernel (ℕ × (ℕ → Bool))
system = record {
  sys_poll = λ fds timeout k. ((fds, done 0), k);
  epoll_add = λ fd i mask k. (none, (k.0, λ f. if f == fd then true else k.1 f));
  epoll_del = λ fd k. (k.0 + 1, λ f. if f == fd then false else k.1 f);
  now = λ k. k.0;
  fresh = λ k i. no_events;
  away = λ x w k. ((1, arrived) ∷ [], w, (k.0 + 10, k.1));
}

abbrev waiting : ℕ → PollFd
waiting fd = record { fd = fd; events = readable; revents = no_events }

abbrev two_fds : List PollFd
two_fds = waiting 4 ∷ waiting 5 ∷ []

abbrev at_101 : ℕ × (ℕ → Bool)
at_101 = (101, λ f. false)

-- What the fiber finds: an event for index 1, and both descriptors still in epoll.
abbrev came_back : Wheel → List (ℕ × EpollMask) × Wheel × (ℕ × (ℕ → Bool))
came_back w =
    ((1, arrived) ∷ [], w, (111, λ f. if f == 5 then true else if f == 4 then true else false))

co_poll_inner_waits_example :
    let x = marked busy (poll_item 9 101 20) in
    (parked : Wheel) × IsValid parked
    × Perm (x ∷ stored busy.items 4) (stored parked.items 4)
    × (x.expire_time ≡ 121)
    × Waited
        (λ k. k.1)
        9
        two_fds
        (λ i. no_events)
        (came_back parked)
        (co_poll_inner system 9 two_fds 20 busy at_101)
unfolding add_fds
co_poll_inner_waits_example =
    co_poll_inner_waits system 9 20 two_fds at_101 refl refl (λ k. k.1) (λ fd fd' k. refl)
      {w = busy} busy-IsValid (omega arith) (omega arith)
