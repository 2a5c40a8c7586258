-- ===== src/Fiber/Hook/Fcntl.antt =====
-- The hooks of src/piorun/fiber/syshook.cc that make, close and set up a descriptor.
pub mod Flags
pub mod Reuse
pub mod Timeout
use piorun.Prelude.{
  ℕ, zero, suc, ◌+◌, ◌-◌, ◌^◌, List, [], ◌∷◌, ◌++◌, Option, none, some, Bool, true, false, not,
  ◌&&◌, ◌||◌, ltb, leb, ◌==◌, if◌then◌else◌, length, drop,
}
use piorun.Http.Buffer.{IoResult, failed, done}
use piorun.Fiber.Poll.{PollMask, PollFd, no_events, is_open}
use piorun.Fiber.Hook.{
  Context, Contexts, State, System, Timeval, FcntlCmd, f_getfd, f_getfl, f_getown, f_dupfd, f_setfd,
  f_setfl, f_setown, f_getlk, f_setlk, f_setlkw, f_other, get_context_by_fd, del_context_by_fd,
  set_context, timeout_ms, is_nonblock, with_nonblock, without_nonblock, call, in_events,
  out_events, dest_size, int_minus_one, einprogress, etimedout,
}
use piorun.Fiber.Hook.Poll.{poll}
use piorun.Fiber.Hook.Io.{blocking, look_up, receive}

-- The value of __LINE__ that fcntl returns for a negative descriptor.
abbrev pub fcntl_line : ℕ
fcntl_line = 712

-- `lp->user_flag = param`, if there is a context.
abbrev pub set_user_flag : {K : Type 0} → Option Context → ℕ → ℕ → State K → State K
set_user_flag none fd param s = s
set_user_flag (some lp) fd param s = record s {
  contexts = set_context s.contexts fd (record lp { user_flag = param });
}

-- What F_GETFL returns of what the kernel returned.
abbrev pub shown_flags : Option Context → ℕ → ℕ
shown_flags none ret = ret
shown_flags (some lp) ret = if is_nonblock lp.user_flag then ret else without_nonblock ret

-- What F_SETFL gives to the kernel.
abbrev pub kernel_flags : Bool → Option Context → ℕ → ℕ
kernel_flags hooked none param = param
kernel_flags hooked (some lp) param = if hooked then with_nonblock param else param

abbrev pub sol_socket : ℕ
sol_socket = 1

abbrev pub so_rcvtimeo : ℕ
so_rcvtimeo = 20

abbrev pub so_sndtimeo : ℕ
so_sndtimeo = 21

-- The bytes of an address over those that were there.
abbrev pub copy_dest : List ℕ → List ℕ → List ℕ
copy_dest addr dest = if leb (length addr) dest_size then addr ++ drop (length addr) dest else dest

abbrev pub revents_of : List PollFd → PollMask
revents_of [] = no_events
revents_of (p ∷ ps) = p.revents

-- `1 == pollret`
abbrev pub is_one : IoResult ℕ → Bool
is_one (failed e) = false
is_one (done n) = n == 1

-- `ret < 0 && errno == EINPROGRESS`
abbrev pub is_in_progress : IoResult ℕ → Bool
is_in_progress (failed e) = e == einprogress
is_in_progress (done n) = false

module _ {K : Type 0} (sys : System K) (hooked : Bool) where
  -- fcntl; the result is the bit pattern of an int.
  pub fcntl : ℕ → FcntlCmd → State K → ℕ × State K
  fcntl fildes f_getfl s =
      let found = look_up fildes s in
      let r = call (sys.sys_fcntl fildes f_getfl) found.1 in
      if is_open fildes then (shown_flags found.0 r.0, r.1) else (fcntl_line, s)
  fcntl fildes (f_setfl param) s =
      let found = look_up fildes s in
      let r = call (sys.sys_fcntl fildes (f_setfl (kernel_flags hooked found.0 param))) found.1 in
      let set = set_user_flag found.0 fildes param r.1 in
      if is_open fildes then (r.0, if r.0 == 0 then set else r.1) else (fcntl_line, s)
  fcntl fildes (f_other cmd) s =
      if is_open fildes then (int_minus_one, (look_up fildes s).1) else (fcntl_line, s)
  fcntl fildes cmd s =
      if is_open fildes
      then call (sys.sys_fcntl fildes cmd) (look_up fildes s).1
      else (fcntl_line, s)

  -- `fcntl(fd, F_SETFL, g_sys_fcntl_func(fd, F_GETFL))`
  abbrev pub copy_flags : ℕ → State K → State K
  copy_flags fd s = let r = call (sys.sys_fcntl fd f_getfl) s in (fcntl fd (f_setfl r.0) r.1).1

  -- socket; `none` is the write through a null context of a descriptor that has none.
  pub socket : ℕ → ℕ → ℕ → State K → Option (IoResult ℕ × State K)
  unfolding fcntl
  socket domain type protocol s =
      let (r, s') = call (sys.sys_socket domain type protocol) s in
      if hooked
      then elim r [
        | failed e ↦ some (failed e, s')
        | done fd ↦
            let found = look_up fd s' in
            elim found.0 [
              | none ↦ none
              | some lp ↦
                  let set = set_context found.1.contexts fd (record lp { domain = domain }) in
                  some (done fd, copy_flags fd (record found.1 { contexts = set }))
            ]
      ]
      else some (r, s')

  -- `if (cli >= 0) fcntl(cli, …)` of accept.
  abbrev pub accepted : IoResult ℕ × State K → IoResult ℕ × State K
  accepted (failed e, s) = (failed e, s)
  accepted (done cli, s) = (done cli, copy_flags cli s)

  -- `isaccept = true` is left out: it runs only if dlsym has found no accept.
  pub accept : ℕ → State K → IoResult ℕ × State K
  unfolding fcntl
  accept fd s =
      if hooked
      then accepted (receive sys hooked (sys.sys_accept fd) fd s)
      else call (sys.sys_accept fd) s

  pub close : ℕ → State K → IoResult ℕ × State K
  close fd s =
      let s' = if hooked then record s { contexts = del_context_by_fd s.contexts fd } else s in
      call (sys.sys_close fd) s'

  -- The context as setsockopt leaves it.
  abbrev pub set_timeout : ℕ → ℕ → Timeval → Context → Context
  set_timeout level name val lp =
      if not (level == sol_socket)
      then lp
      else if name == so_rcvtimeo
      then record lp { read_timeout = val }
      else if name == so_sndtimeo
      then record lp { write_timeout = val }
      else lp

  pub setsockopt : ℕ → ℕ → ℕ → List ℕ → State K → IoResult ℕ × State K
  setsockopt fd level name value s =
      let found = look_up fd s in
      let kept : State K = elim found.0 [
        | none ↦ found.1
        | some lp ↦ record found.1 {
          contexts =
              set_context found.1.contexts fd (set_timeout level name (sys.timeval_of value) lp);
        }
      ] in
      call (sys.sys_setsockopt fd level name value) (if hooked then kept else s)

  -- The loop of at most `n` polls of 25 s; the `revents` of the last.
  pub connect_wait : ℕ → ℕ → PollMask → State K → PollMask × State K
  connect_wait zero fd revents s = (revents, s)
  connect_wait (suc n) fd revents s =
      let r =
        poll sys hooked (record { fd = fd; events = out_events; revents = no_events } ∷ []) 25000
          s in
      let rest = connect_wait n fd (revents_of r.0.0) r.1 in
      if is_one r.0.1 then (revents_of r.0.0, r.1) else rest

  -- The result of getsockopt, as connect returns it.
  abbrev pub connect_result : IoResult ℕ → IoResult ℕ
  connect_result (failed e) = failed e
  connect_result (done err) = if err == 0 then done 0 else failed err

  -- What follows a connect that is in progress.
  pub connect_finish : ℕ → State K → IoResult ℕ × State K
  unfolding connect_wait
  connect_finish fd s =
      let (revents, s') = connect_wait 3 fd no_events s in
      let (r, s'') = call (sys.so_error fd) s' in
      if revents.pollout then (connect_result r, s'') else (failed etimedout, s')

  pub connect : ℕ → List ℕ → State K → IoResult ℕ × State K
  unfolding connect_finish
  connect fd addr s =
      let r = call (sys.sys_connect fd addr) s in
      let found = look_up fd r.1 in
      if hooked
      then elim found.0 [
        | none ↦ (r.0, found.1)
        | some lp ↦
            let kept = record lp { dest = copy_dest addr lp.dest } in
            let s' = record found.1 { contexts = set_context found.1.contexts fd kept } in
            let waited = connect_finish fd s' in
            if is_nonblock lp.user_flag || not (is_in_progress r.0) then (r.0, s') else waited
      ]
      else r
