-- ===== src/Fiber/Poll/Seen.antt =====
-- What is seen of a wait from outside, for the proof about co_poll_inner of src/piorun/fiber/fiber.cc: the
-- answers, the timers that are left in the wheel, and the descriptors that epoll watches.
use mathlib.Core.Option
use piorun.Prelude.{
  ℕ, zero, suc, ◌+◌, ◌^◌, ◌≡◌, refl, ap, ◌∙◌, List, [], ◌∷◌, some, Bool, false, if◌then◌else◌, ◌==◌,
  arith, ◌&&◌, ◌||◌, ltb, get_elem?,
}
use piorun.Fiber.Wheel.{Item}
use piorun.Fiber.Poll.{
  PollMask, EpollMask, PollFd, Kernel, copy_revents, del_fds, drop_item, no_events,
}

-- The events of epoll as poll names them: the flag of the same name, but for POLLPRI, which is not asked for,
-- and POLLNVAL, which epoll does not have.
abbrev pub as_poll : EpollMask → PollMask
as_poll e = record no_events {
  pollin = e.epollin;
  pollout = e.epollout;
  pollhup = e.epollhup;
  pollerr = e.epollerr;
  pollrdnorm = e.epollrdnorm;
  pollwrnorm = e.epollwrnorm;
}

-- The items of one timer, in order.
abbrev pub of_timer : ℕ → List Item → List Item
of_timer y [] = []
of_timer y (x ∷ xs) = do let rest = of_timer y xs; if x.id == y then x ∷ rest else rest

-- Whether a descriptor is among those of the call that are not negative.
abbrev pub asked : ℕ → List PollFd → Bool
asked fd [] = false
asked fd (p ∷ ps) = (ltb p.fd (2 ^ 31) && (p.fd == fd)) || asked fd ps

pub of_timer-drop_item :
    (y id : ℕ) (xs : List Item)
    → of_timer y (drop_item id xs) ≡ (if y == id then [] else of_timer y xs)
unfolding drop_item
of_timer-drop_item y id [] = ground arith
of_timer-drop_item y id (x ∷ xs) = ground (arith, of_timer-drop_item y id xs)

abbrev pub with_revents : PollMask → PollFd → PollFd
with_revents e p = record p { revents = e }

get_elem?-copy_from :
    (f : ℕ → PollMask) (j i : ℕ) (fds : List PollFd)
    → get_elem? (copy_revents f j fds) i ≡ Option.map (with_revents (f (j + i))) (get_elem? fds i)
unfolding copy_revents
get_elem?-copy_from f j i [] = refl
get_elem?-copy_from f j zero (p ∷ ps) =
    let same : j ≡ j + 0 = omega arith in ap (λ m. some (record p { revents = f m })) same
get_elem?-copy_from f j (suc i) (p ∷ ps) =
    let same : j + 1 + i ≡ j + suc i = omega arith in
    get_elem?-copy_from f (j + 1) i ps
    ∙ ap (λ m. Option.map (with_revents (f m)) (get_elem? ps i)) same

pub get_elem?-copy_revents :
    (f : ℕ → PollMask) (i : ℕ) (fds : List PollFd)
    → get_elem? (copy_revents f 0 fds) i ≡ Option.map (with_revents (f i)) (get_elem? fds i)
get_elem?-copy_revents f i fds =
    let same : 0 + i ≡ i = omega arith in
    get_elem?-copy_from f 0 i fds ∙ ap (λ m. Option.map (with_revents (f m)) (get_elem? fds i)) same

module _ {K : Type 0} (sys : Kernel K) (watching : K → ℕ → Bool)
    (forgets : (fd fd' : ℕ) (k : K)
      → watching (sys.epoll_del fd k) fd' ≡ (if fd' == fd then false else watching k fd')) where
  pub watching-del_fds :
      (fds : List PollFd) (k : K) (fd : ℕ)
      → watching (del_fds sys fds k) fd ≡ (if asked fd fds then false else watching k fd)
  unfolding del_fds
  watching-del_fds [] k fd = refl
  watching-del_fds (p ∷ ps) k fd = grind (
    arith,
    watching-del_fds ps (sys.epoll_del p.fd k) fd,
    watching-del_fds ps k fd,
    forgets p.fd fd k,
  )
