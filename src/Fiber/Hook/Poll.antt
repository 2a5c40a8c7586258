-- ===== src/Fiber/Hook/Poll.antt =====
-- poll of src/piorun/fiber/syshook.cc: duplicate descriptors are merged before the wait.
pub mod Quiet
pub mod Sound
pub mod Merge
use piorun.Prelude.{
  ℕ, zero, suc, ◌+◌, ◌-◌, ◌^◌, List, [], ◌∷◌, ◌++◌, Option, none, some, Bool, true, false, ◌&&◌,
  ◌||◌, not, ltb, ◌==◌, if◌then◌else◌, length, get_elem?,
}
use piorun.Http.Buffer.{IoResult, failed, done}
use piorun.Fiber.Poll.{PollMask, PollFd, no_events, co_poll_inner}
use piorun.Fiber.Hook.{State, System}

abbrev pub or_mask : PollMask → PollMask → PollMask
or_mask a b = record {
  pollin = a.pollin || b.pollin;
  pollout = a.pollout || b.pollout;
  pollhup = a.pollhup || b.pollhup;
  pollerr = a.pollerr || b.pollerr;
  pollrdnorm = a.pollrdnorm || b.pollrdnorm;
  pollwrnorm = a.pollwrnorm || b.pollwrnorm;
  pollpri = a.pollpri || b.pollpri;
  pollnval = a.pollnval || b.pollnval;
}

abbrev pub and_mask : PollMask → PollMask → PollMask
and_mask a b = record {
  pollin = a.pollin && b.pollin;
  pollout = a.pollout && b.pollout;
  pollhup = a.pollhup && b.pollhup;
  pollerr = a.pollerr && b.pollerr;
  pollrdnorm = a.pollrdnorm && b.pollrdnorm;
  pollwrnorm = a.pollwrnorm && b.pollwrnorm;
  pollpri = a.pollpri && b.pollpri;
  pollnval = a.pollnval && b.pollnval;
}

-- `m.find(fd)`, in the map from a descriptor to its index among the merged ones.
pub find : List (ℕ × ℕ) → ℕ → Option ℕ
find [] fd = none
find ((key, idx) ∷ m) fd = do let rest = find m fd; if key == fd then some idx else rest

-- `fds_merge[j].events |= events`
pub or_events : List PollFd → ℕ → PollMask → List PollFd
or_events [] j events = []
or_events (p ∷ ps) zero events = record p { events = or_mask p.events events } ∷ ps
or_events (p ∷ ps) (suc j) events = p ∷ or_events ps j events

-- The first loop: the merged descriptors so far and the map.
pub merge_fds : List PollFd → List (ℕ × ℕ) → List PollFd → List PollFd × List (ℕ × ℕ)
unfolding find or_events
merge_fds merged m [] = (merged, m)
merge_fds merged m (p ∷ ps) = elim (find m p.fd) [
  | none ↦ merge_fds (merged ++ (p ∷ [])) ((p.fd, length merged) ∷ m) ps
  | some j ↦ merge_fds (or_events merged j p.events) m ps
]

-- The body of the second loop, for one descriptor.
abbrev pub share_one : List PollFd → Option ℕ → PollFd → PollFd
share_one merged none p = p
share_one merged (some j) p = elim (get_elem? merged j) [
  | none ↦ p
  | some q ↦ record p { revents = and_mask q.revents p.events }
]

pub share_revents : List PollFd → List (ℕ × ℕ) → List PollFd → List PollFd
unfolding find
share_revents merged m [] = []
share_revents merged m (p ∷ ps) = share_one merged (find m p.fd) p ∷ share_revents merged m ps

-- `ret > 0`
abbrev pub is_some_ready : IoResult ℕ → Bool
is_some_ready (failed e) = false
is_some_ready (done n) = ltb 0 n

abbrev pub merged_fds : List PollFd → List PollFd × List (ℕ × ℕ)
merged_fds fds = if ltb 1 (length fds) then merge_fds [] [] fds else ([], [])

-- Whether the descriptors are passed on as they are.
abbrev pub is_plain : List PollFd → Bool
is_plain fds = (length (merged_fds fds).0 == length fds) || (length fds == 1)

module _ {K : Type 0} (sys : System K) where
  -- co_poll_inner on the state.
  abbrev pub wait : List PollFd → ℕ → State K → (List PollFd × IoResult ℕ) × State K
  wait fds timeout s =
      let r =
        co_poll_inner sys.poller (sys.new_id s.kernel) fds timeout s.wheel (s.contexts, s.kernel) in
      (r.0, record { contexts = r.2.0; wheel = r.1; kernel = r.2.1 })

  -- The poll of the system on the state.
  abbrev pub poll_func : List PollFd → ℕ → State K → (List PollFd × IoResult ℕ) × State K
  poll_func fds timeout s =
      let r = sys.poller.sys_poll fds timeout (s.contexts, s.kernel) in
      (r.0, record s { contexts = r.1.0; kernel = r.1.1 })

  -- poll, with whether the fiber is hooked.
  pub poll : Bool → List PollFd → ℕ → State K → (List PollFd × IoResult ℕ) × State K
  unfolding merge_fds share_revents
  poll hooked fds timeout s =
      let merged = merged_fds fds in
      let plain = wait fds timeout s in
      let shared = wait merged.0 timeout s in
      let answered =
        if is_some_ready shared.0.1 then share_revents shared.0.0 merged.1 fds else fds in
      if not hooked || (timeout == 0)
      then poll_func fds timeout s
      else if is_plain fds
      then plain
      else ((answered, shared.0.1), shared.1)
