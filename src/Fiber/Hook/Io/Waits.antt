-- ===== src/Fiber/Hook/Io/Waits.antt =====
-- How long the receiving hooks of src/piorun/fiber/syshook.cc wait.
use piorun.Prelude.{ℕ, ◌≡◌, refl, ap, ◌∙◌, Option, some, none, true}
use piorun.Fiber.Hook.{
  Context, Contexts, State, System, get_context_by_fd, call, in_events, timeout_ms,
}
use piorun.Fiber.Hook.Io.{receive, await_fd, blocking}

pub receive_waits :
    {K A : Type 0} (sys : System K) (f : K → A × K) (fd : ℕ) (s : State K) (lp : Context)
    (c : Contexts)
    → get_context_by_fd s.contexts fd ≡ (some lp, c)
    → blocking (some lp) ≡ some lp
    → receive sys true f fd s
      ≡ call f
          (await_fd sys true fd in_events (timeout_ms lp.read_timeout) (record s { contexts = c }))
unfolding receive
receive_waits {K} {A} sys f fd s lp c found waits =
    ap
      (λ (r : Option Context × Contexts). elim (blocking r.0) as (λ _. A × State K) [
        | none ↦ call f (record s { contexts = r.1 })
        | some h ↦ call f (
            await_fd sys true fd in_events (timeout_ms h.read_timeout)
              (record s { contexts = r.1 }))
      ])
      found
    ∙ rw waits refl
