-- ===== src/Fiber/Poll.antt =====
-- co_poll_inner of src/piorun/fiber/fiber.cc: how a fiber waits for file descriptors, with the conversion
-- of event masks and OnPollPrepare. The system calls and what the thread does while the fiber
-- is away are parameters.
pub mod Seen
pub mod Waits
pub mod Quiet
pub mod Tests
use piorun.Prelude.{
  ℕ, zero, suc, ◌+◌, ◌-◌, ◌%◌, ◌^◌, ◌<◌, List, [], ◌∷◌, ◌++◌, Option, none, some, Bool, true, false,
  ◌&&◌, ◌||◌, ltb, ◌==◌, if◌then◌else◌, length,
}
use piorun.Http.Buffer.{IoResult, failed, done}
use piorun.Fiber.Wheel.{Item, Wheel, Status, ok, rejected, update, add_timeout}

-- The events of poll, and those of epoll, one flag each.
pub record PollMask : Type 0 where
  pub pollin : Bool
  pub pollout : Bool
  pub pollhup : Bool
  pub pollerr : Bool
  pub pollrdnorm : Bool
  pub pollwrnorm : Bool
  pub pollpri : Bool
  pub pollnval : Bool

pub record EpollMask : Type 0 where
  pub epollin : Bool
  pub epollout : Bool
  pub epollhup : Bool
  pub epollerr : Bool
  pub epollrdnorm : Bool
  pub epollwrnorm : Bool
  pub epollpri : Bool

abbrev pub no_events : PollMask
no_events = record {
  pollin = false;
  pollout = false;
  pollhup = false;
  pollerr = false;
  pollrdnorm = false;
  pollwrnorm = false;
  pollpri = false;
  pollnval = false;
}

pub poll_event_to_epoll : PollMask → EpollMask
poll_event_to_epoll e = record {
  epollin = e.pollin;
  epollout = e.pollout;
  epollhup = e.pollhup;
  epollerr = e.pollerr;
  epollrdnorm = e.pollrdnorm;
  epollwrnorm = e.pollwrnorm;
  epollpri = false;
}

pub epoll_event_to_poll : EpollMask → PollMask
epoll_event_to_poll e = record {
  pollin = e.epollin;
  pollout = e.epollout;
  pollhup = e.epollhup;
  pollerr = e.epollerr;
  pollrdnorm = e.epollrdnorm;
  pollwrnorm = e.epollwrnorm;
  pollpri = false;
  pollnval = false;
}

-- A struct pollfd. The descriptor is the bit pattern of an int.
pub record PollFd : Type 0 where
  pub fd : ℕ
  pub events : PollMask
  pub revents : PollMask

-- `fd > -1`
abbrev pub is_open : ℕ → Bool
is_open fd = ltb fd (2 ^ 31)

-- The system: poll; epoll_ctl, with the errno of a failure; the time of GetTickMS; what fresh memory holds
-- at an index; and what comes in for the items of a poll, by their index, until its fiber is resumed
-- by an event or by its timer.
pub record Kernel (K : Type 0) : Type 0 where
  pub sys_poll : List PollFd → ℕ → K → (List PollFd × IoResult ℕ) × K
  pub epoll_add : ℕ → ℕ → EpollMask → K → Option ℕ × K
  pub epoll_del : ℕ → K → K
  pub now : K → ℕ
  pub fresh : K → ℕ → PollMask
  pub away : Item → Wheel → K → List (ℕ × EpollMask) × Wheel × K

abbrev pub eperm : ℕ
eperm = 1

abbrev pub einval : ℕ
einval = 22

-- The pollfd array of a StCoPoller, of which only `revents` is used, and its count.
pub record Poller : Type 0 where
  pub revents : ℕ → PollMask
  pub raise_cnt : ℕ

-- OnPollPrepare, of what it does to the poller.
pub on_poll_prepare : Poller → ℕ × EpollMask → Poller
on_poll_prepare p (i, e) = record {
  revents = λ j. if j == i then epoll_event_to_poll e else p.revents j;
  raise_cnt = p.raise_cnt + 1;
}

pub prepare_all : Poller → List (ℕ × EpollMask) → Poller
unfolding on_poll_prepare
prepare_all p [] = p
prepare_all p (a ∷ rest) = prepare_all (on_poll_prepare p a) rest

-- Whether epoll cannot watch the only descriptor, so that poll itself is called.
abbrev pub refuses : ℕ → Option ℕ → Bool
refuses nfds none = false
refuses nfds (some errno) = (errno == eperm) && (nfds == 1)

-- The loop `fds[i].revents = arg->fds[i].revents`.
pub copy_revents : (ℕ → PollMask) → ℕ → List PollFd → List PollFd
copy_revents f i [] = []
copy_revents f i (p ∷ ps) = record p { revents = f i } ∷ copy_revents f (i + 1) ps

-- RemoveFromLink on the lists of a wheel.
pub drop_item : ℕ → List Item → List Item
drop_item id [] = []
drop_item id (x ∷ xs) = do let rest = drop_item id xs; if x.id == id then rest else x ∷ rest

-- A positive int, as the bit pattern of an int.
abbrev pub is_positive : ℕ → Bool
is_positive timeout = ltb 0 timeout && ltb timeout (2 ^ 31)

abbrev pub expire_time : ℕ → ℕ → ℕ
expire_time now timeout = if is_positive timeout then (now + timeout) % 2 ^ 64 else 2 ^ 64 - 1

abbrev pub poll_item : ℕ → ℕ → ℕ → Item
poll_item id now timeout = record {
  id = id;
  expire_time = expire_time now timeout;
  is_delay_active = false;
  timed_out = false;
  linked = false;
}

module _ {K : Type 0} (sys : Kernel K) where
  -- The loop that adds the descriptors to epoll: none if poll is to be called instead.
  pub add_fds : ℕ → ℕ → List PollFd → K → Bool × K
  add_fds nfds i [] k = (true, k)
  add_fds nfds i (p ∷ ps) k =
      let r = sys.epoll_add p.fd i (poll_event_to_epoll p.events) k in
      let rest = add_fds nfds (i + 1) ps r.1 in
      let skipped = add_fds nfds (i + 1) ps k in
      if is_open p.fd then (if refuses nfds r.0 then (false, r.1) else rest) else skipped

  pub del_fds : List PollFd → K → K
  del_fds [] k = k
  del_fds (p ∷ ps) k =
      let gone = del_fds ps (sys.epoll_del p.fd k) in
      let skipped = del_fds ps k in if is_open p.fd then gone else skipped

  abbrev pub fresh_poller : K → Poller
  fresh_poller k = record { revents = sys.fresh k; raise_cnt = 0 }

  -- From AddTimeout on, with its result. `id` is the address of the poller.
  pub wait_for :
      List PollFd → Poller → Status × Wheel × Item → K → (List PollFd × IoResult ℕ) × Wheel × K
  wait_for fds p (rejected, w, x) k =
      ((copy_revents p.revents 0 fds, failed einval), w, del_fds fds k)
  wait_for fds p (ok, w, x) k =
      let r = sys.away x w k in
      let q = prepare_all p r.0 in
      (
        (copy_revents q.revents 0 fds, done q.raise_cnt),
        record r.1 { items = λ i. drop_item x.id (r.1.items i) },
        del_fds fds r.2,
      )

  -- co_poll_inner, with poll as the function that it is given. `timeout` is the bit pattern of an int.
  pub co_poll_inner : ℕ → List PollFd → ℕ → Wheel → K → (List PollFd × IoResult ℕ) × Wheel × K
  co_poll_inner id fds timeout w k =
      let polled = sys.sys_poll fds timeout k in
      let added = add_fds (length fds) 0 fds k in
      let polled' = sys.sys_poll fds timeout added.1 in
      if timeout == 0
      then (polled.0, w, polled.1)
      else if added.0
      then wait_for fds (fresh_poller k)
          (add_timeout w (poll_item id (sys.now added.1) timeout) (sys.now added.1)) added.1
      else (polled'.0, w, polled'.1)
