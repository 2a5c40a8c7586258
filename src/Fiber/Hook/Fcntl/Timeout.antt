-- ===== src/Fiber/Hook/Fcntl/Timeout.antt =====
-- setsockopt of src/piorun/fiber/syshook.cc, and the wait of receiving after it.
use piorun.Prelude.{ℕ, ◌<◌, ◌≡◌, refl, sym, ap, subst, ◌∙◌, Option, some, none, List, true, false}
use piorun.Fiber.Hook.{
  Context, Contexts, State, System, contexts_size, set_context, call, in_events, timeout_ms,
  is_nonblock,
}
use piorun.Fiber.Hook.Io.{receive, await_fd}
use piorun.Fiber.Hook.Io.Waits.{receive_waits}
use piorun.Fiber.Hook.Fcntl.{setsockopt, sol_socket, so_rcvtimeo}
use piorun.Fiber.Hook.Fcntl.Flags.{found_at, get_context_lem, found_at-set, found_at-used}

module _ {K : Type 0} (sys : System K) (fd : ℕ) (value : List ℕ) (s : State K)
    (small : fd < contexts_size)
    (blocks : is_nonblock (found_at s.contexts fd).user_flag ≡ false) where
  abbrev timed : Context
  timed = record (found_at s.contexts fd) { read_timeout = sys.timeval_of value }

  abbrev timed_contexts : Contexts
  timed_contexts = set_context (set_context s.contexts fd (found_at s.contexts fd)) fd timed

  setsockopt_sets :
      setsockopt sys true fd sol_socket so_rcvtimeo value s
      ≡ call
          (sys.sys_setsockopt fd sol_socket so_rcvtimeo value)
          (record s { contexts = timed_contexts })
  unfolding setsockopt
  setsockopt_sets =
      ap
        (λ (r : Option Context × Contexts).
          call (sys.sys_setsockopt fd sol_socket so_rcvtimeo value) (elim (r.0) as (λ _. State K) [
            | none ↦ record s { contexts = r.1 }
            | some lp ↦ record s {
              contexts = set_context r.1 fd (record lp { read_timeout = sys.timeval_of value });
            }
          ]))
        (get_context_lem s.contexts fd small)

  -- A hooked fiber sets SO_RCVTIMEO of a descriptor below 102400 that it left blocking, and then receives with a
  -- call `f` of the system (read, readv, recv or recvfrom): it waits for input with the timeout that was
  -- set, in milliseconds, and then calls `f` once.
  pub setsockopt-receive :
      {A : Type 0} (f : K → A × K)
      → let s' = (setsockopt sys true fd sol_socket so_rcvtimeo value s).1 in
        let c = set_context s'.contexts fd (found_at s'.contexts fd) in
        receive sys true f fd s'
        ≡ call f (
            await_fd sys true fd in_events
              (timeout_ms (sys.timeval_of value))
              (record s' { contexts = c }))
  setsockopt-receive f =
      subst
        (λ (r : State K).
          receive sys true f fd r
          ≡ call f (
              await_fd sys true fd in_events (timeout_ms (sys.timeval_of value))
                (record r { contexts = set_context r.contexts fd (found_at r.contexts fd) })))
        (sym (ap (λ r. r.1) setsockopt_sets))
        (receive_waits sys f fd
          (record s {
            contexts = timed_contexts;
            kernel = (sys.sys_setsockopt fd sol_socket so_rcvtimeo value s.kernel).1;
          })
          timed (set_context timed_contexts fd (found_at timed_contexts fd))
          (get_context_lem timed_contexts fd small
            ∙ ap (λ h. (some h, set_context timed_contexts fd (found_at timed_contexts fd)))
                (found_at-set (set_context s.contexts fd (found_at s.contexts fd)) fd timed
                  (found_at-used s.contexts fd)))
          (rw blocks refl))
