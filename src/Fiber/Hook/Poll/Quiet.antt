-- ===== src/Fiber/Hook/Poll/Quiet.antt =====
-- What poll leaves as it is, as co_poll_inner does.
use piorun.Prelude.{ℕ, ◌≡◌, List, Bool, ◌==◌, ◌||◌, not, inl, inr, Bool-cases}
use piorun.Fiber.Poll.{PollFd}
use piorun.Fiber.Poll.Quiet.{IsQuiet, seen-co_poll_inner}
use piorun.Fiber.Hook.{Contexts, State, System}
use piorun.Fiber.Hook.Poll.{poll, merged_fds, is_plain}

module _ {K B : Type 0} (sys : System K) {seen : Contexts × K → B}
    (q : IsQuiet sys.poller seen) where
  pub seen-poll :
      (hooked : Bool) (fds : List PollFd) (timeout : ℕ) (s : State K)
      → (let s' = (poll sys hooked fds timeout s).1 in seen (s'.contexts, s'.kernel))
        ≡ seen (s.contexts, s.kernel)
  unfolding poll
  seen-poll hooked fds timeout s = elim (Bool-cases (not hooked || (timeout == 0))) [
    | inl direct ↦ rw direct (q.of_poll fds timeout (s.contexts, s.kernel))
    | inr waits ↦ elim (Bool-cases (is_plain fds)) [
      | inl plain ↦
          rw (waits, plain)
            (seen-co_poll_inner q (sys.new_id s.kernel) fds timeout s.wheel (s.contexts, s.kernel))
      | inr merged ↦
          rw (waits, merged)
            (seen-co_poll_inner q (sys.new_id s.kernel) (merged_fds fds).0 timeout s.wheel
              (s.contexts, s.kernel))
    ]
  ]
