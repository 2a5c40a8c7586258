-- ===== src/Fiber/Hook/Fcntl/Reuse.antt =====
-- A descriptor of src/piorun/fiber/syshook.cc that is closed and made again.
use piorun.Prelude.{
  ℕ, ◌<◌, ◌≡◌, refl, ap, ◌∙◌, Option, some, none, true, false, ◌==◌, ==_refl, lt→ltb,
}
use piorun.Http.Buffer.{IoResult, done}
use piorun.Fiber.Hook.{
  Context, Contexts, State, System, f_getfl, f_setfl, with_nonblock, contexts_size,
  del_context_by_fd, fresh_context, int_minus_one, set_context,
}
use piorun.Fiber.Hook.Fcntl.{close, socket, copy_flags}
use piorun.Fiber.Hook.Fcntl.Flags.{found_at, get_context_lem, found_at-set, fcntl-f_setfl}

module _ (c : Contexts) (fd : ℕ) (small : fd < contexts_size) where
  found_at-del : found_at (del_context_by_fd c fd) fd ≡ fresh_context
  unfolding del_context_by_fd
  found_at-del = rw (lt→ltb fd contexts_size small, ==_refl fd) refl

set_here : (c : Contexts) (fd : ℕ) (h : Context) → set_context c fd h fd ≡ h
set_here c fd h = rw (==_refl fd) refl

module _ {K : Type 0} (sys : System K) (fd domain type protocol : ℕ) (small : fd < contexts_size)
    (known : (domain == int_minus_one) ≡ false) where
  -- The state of socket before it sets the flags.
  abbrev named : State K → State K
  named s = record s {
    contexts =
        set_context (set_context s.contexts fd (found_at s.contexts fd)) fd
          (record (found_at s.contexts fd) { domain = domain });
    kernel = (sys.sys_socket domain type protocol s.kernel).1;
  }

  socket_made :
      (s : State K)
      → (sys.sys_socket domain type protocol s.kernel).0 ≡ done fd
      → socket sys true domain type protocol s ≡ some (done fd, copy_flags sys true fd (named s))
  unfolding socket
  socket_made s made = rw made (
      ap
        (λ (r : Option Context × Contexts). elim r.0 as (λ _. Option (IoResult ℕ × State K)) [
          | none ↦ none
          | some lp ↦ some (
            done fd,
            copy_flags sys true fd (record s {
              contexts = set_context r.1 fd (record lp { domain = domain });
              kernel = (sys.sys_socket domain type protocol s.kernel).1;
            }),
          )
        ])
        (get_context_lem s.contexts fd small))

  copied :
      (s : State K)
      → (let (g, k) = sys.sys_fcntl fd f_getfl s.kernel in
          (sys.sys_fcntl fd (f_setfl (with_nonblock g)) k).0 ≡ 0)
      → (copy_flags sys true fd s).contexts fd
        ≡ record (found_at s.contexts fd) { user_flag = (sys.sys_fcntl fd f_getfl s.kernel).0 }
  copied s set =
      let (g, k) = sys.sys_fcntl fd f_getfl s.kernel in
      ap (λ r. r.1.contexts fd) (fcntl-f_setfl sys fd small (record s { kernel = k }) g set)
      ∙ set_here (set_context s.contexts fd (found_at s.contexts fd)) fd
          (record (found_at s.contexts fd) { user_flag = g })

  -- The context that socket leaves when its descriptor had none.
  socket-context :
      (s : State K)
      → found_at s.contexts fd ≡ fresh_context
      → (sys.sys_socket domain type protocol s.kernel).0 ≡ done fd
      → let k = (sys.sys_socket domain type protocol s.kernel).1 in
        let (g, k') = sys.sys_fcntl fd f_getfl k in
        (sys.sys_fcntl fd (f_setfl (with_nonblock g)) k').0 ≡ 0
        → (s' : State K) × (socket sys true domain type protocol s ≡ some (done fd, s'))
          × (s'.contexts fd ≡ record fresh_context {
            domain = domain;
            user_flag =
                (sys.sys_fcntl fd f_getfl (sys.sys_socket domain type protocol s.kernel).1).0;
          })
  socket-context s fresh made set = (
    copy_flags sys true fd (named s),
    socket_made s made,
    copied (named s) set
        ∙ ap
            (λ (h : Context). record h {
              user_flag = (sys.sys_fcntl fd f_getfl (named s).kernel).0;
            })
            (found_at-set (set_context s.contexts fd (found_at s.contexts fd)) fd
                (record (found_at s.contexts fd) { domain = domain }) known
              ∙ ap (λ (h : Context). record h { domain = domain }) fresh),
  )

  -- A hooked fiber closes a descriptor below 102400, and socket, of a domain that is not -1, then gives it again,
  -- and the kernel accepts the flags that socket sets (F_SETFL returns 0): whatever timeouts and flags the
  -- descriptor had, its context is a new one, with the socket's domain, no timeouts, and as the user's flags
  -- those that the kernel reported; socket returns the descriptor.
  pub close-socket :
      (s : State K)
      → let k = (sys.sys_close fd s.kernel).1 in
        let (made, k') = sys.sys_socket domain type protocol k in
        let (g, k'') = sys.sys_fcntl fd f_getfl k' in
        made ≡ done fd
        → (sys.sys_fcntl fd (f_setfl (with_nonblock g)) k'').0 ≡ 0
        → (s' : State K) × (socket sys true domain type protocol (close sys true fd s).1
            ≡ some (done fd, s'))
          × (s'.contexts fd ≡ record fresh_context { domain = domain; user_flag = g })
  unfolding close
  close-socket s made set =
      socket-context (close sys true fd s).1 (found_at-del s.contexts fd small) made set
