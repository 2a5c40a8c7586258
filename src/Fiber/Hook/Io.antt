-- ===== src/Fiber/Hook/Io.antt =====
-- The hooks of src/piorun/fiber/syshook.cc that read and write: a descriptor that the program left
-- blocking is waited for with poll.
pub mod Rest
pub mod Sends
pub mod Waits
use piorun.Prelude.{
  ℕ, zero, suc, ◌+◌, ◌-◌, List, [], ◌∷◌, ◌++◌, Option, none, some, Bool, true, false, ◌&&◌, ltb,
  ◌==◌, if◌then◌else◌, length, drop,
}
use piorun.Http.Buffer.{IoResult, failed, done}
use piorun.Fiber.Poll.{PollMask, no_events}
use piorun.Fiber.Hook.{
  Context, Contexts, State, System, get_context_by_fd, timeout_ms, is_nonblock, call, in_events,
  out_events, eagain,
}
use piorun.Fiber.Hook.Poll.{poll}

-- The context if it is there and its flags do not have O_NONBLOCK.
abbrev pub blocking : Option Context → Option Context
blocking none = none
blocking (some lp) = if is_nonblock lp.user_flag then none else some lp

abbrev pub look_up : {K : Type 0} → ℕ → State K → Option Context × State K
look_up fd s = let r = get_context_by_fd s.contexts fd in (r.0, record s { contexts = r.1 })

-- `wrotelen` after one more result of the call; none if the loop ends.
abbrev pub wrote : IoResult ℕ → Option ℕ
wrote (failed e) = none
wrote (done zero) = none
wrote (done (suc n)) = some (suc n)

-- `wrotelen` after the first result.
abbrev pub wrote_len : IoResult ℕ → ℕ
wrote_len (failed e) = 0
wrote_len (done n) = n

abbrev pub is_zero : IoResult ℕ → Bool
is_zero (failed e) = false
is_zero (done n) = n == 0

abbrev pub is_eagain : IoResult ℕ → Bool
is_eagain (failed e) = e == eagain
is_eagain (done n) = false

-- `if (writeret <= 0 && wrotelen == 0) return writeret; return wrotelen;`
abbrev pub write_result : IoResult ℕ → ℕ → IoResult ℕ
write_result last wrotelen = elim (wrote last) [
  | none ↦ if wrotelen == 0 then last else done wrotelen
  | some n ↦ done wrotelen
]

module _ {K : Type 0} (sys : System K) (hooked : Bool) where
  -- `poll(&pf, 1, timeout)` on one descriptor, whose result is not used.
  abbrev pub await_fd : ℕ → PollMask → ℕ → State K → State K
  await_fd fd events timeout s =
      (poll sys hooked (record { fd = fd; events = events; revents = no_events } ∷ []) timeout s).1

  -- What the hooks that receive have in common; `f` is the call of the system.
  pub receive : {A : Type 0} → (K → A × K) → ℕ → State K → A × State K
  receive f fd s =
      let found = look_up fd s in
      let waited = λ (lp : Context). await_fd fd in_events (timeout_ms lp.read_timeout) found.1 in
      if hooked
      then elim (blocking found.0) [ none ↦ call f found.1 | some lp ↦ call f (waited lp) ]
      else call f s

  pub read : ℕ → ℕ → State K → IoResult (List ℕ) × State K
  unfolding receive
  read fd nbyte s = receive (sys.sys_read fd nbyte) fd s

  pub readv1 : ℕ → List ℕ → State K → IoResult (List ℕ) × State K
  unfolding receive
  readv1 fd iovec s = receive (sys.sys_readv fd iovec) fd s

  pub recv : ℕ → ℕ → ℕ → State K → IoResult (List ℕ) × State K
  unfolding receive
  recv fd len flags s = receive (sys.sys_recv fd len flags) fd s

  pub recvfrom : ℕ → ℕ → ℕ → State K → IoResult (List ℕ × List ℕ) × State K
  unfolding receive
  recvfrom fd len flags s = receive (sys.sys_recvfrom fd len flags) fd s

  -- The loop while bytes are left, from `wrotelen` on, with the result of the last call: each round
  -- waits and calls once. `none` stands for fuel that has run out.
  pub send_rest :
      ℕ
      → (List ℕ → K → IoResult ℕ × K)
      → ℕ
      → ℕ
      → List ℕ
      → IoResult ℕ
      → ℕ
      → State K
      → Option (IoResult ℕ × ℕ × State K)
  send_rest zero f fd timeout buf last wrotelen s =
      if ltb wrotelen (length buf) then none else some (last, wrotelen, s)
  send_rest (suc fuel) f fd timeout buf last wrotelen s =
      let (now, s') = call (f (drop wrotelen buf)) (await_fd fd out_events timeout s) in
      let round : Option (IoResult ℕ × ℕ × State K) = elim (wrote now) [
        | none ↦ some (now, wrotelen, s')
        | some n ↦ send_rest fuel f fd timeout buf now (wrotelen + n) s'
      ] in
      if ltb wrotelen (length buf) then round else some (last, wrotelen, s)

  -- From the first call of the system on.
  pub send_blocking :
      ℕ → (List ℕ → K → IoResult ℕ × K) → ℕ → ℕ → List ℕ → State K → Option (IoResult ℕ × State K)
  unfolding send_rest
  send_blocking fuel f fd timeout buf s =
      let (first, s') = call (f buf) s in
      let loop = send_rest fuel f fd timeout buf first (wrote_len first) s' in
      if is_zero first then some (first, s') else elim loop [
        | none ↦ none
        | some (last, wrotelen, s'') ↦ some (write_result last wrotelen, s'')
      ]

  -- What write and send have in common; `f` is the call of the system.
  pub send_all :
      ℕ → (List ℕ → K → IoResult ℕ × K) → ℕ → List ℕ → State K → Option (IoResult ℕ × State K)
  unfolding send_blocking
  send_all fuel f fd buf s =
      let found = look_up fd s in
      if hooked
      then elim (blocking found.0) [
        | none ↦ some (call (f buf) found.1)
        | some lp ↦ send_blocking fuel f fd (timeout_ms lp.write_timeout) buf found.1
      ]
      else some (call (f buf) s)

  pub write : ℕ → ℕ → List ℕ → State K → Option (IoResult ℕ × State K)
  unfolding send_all
  write fuel fd buf s = send_all fuel (sys.sys_write fd) fd buf s

  pub send : ℕ → ℕ → List ℕ → ℕ → State K → Option (IoResult ℕ × State K)
  unfolding send_all
  send fuel fd buf flags s = send_all fuel (λ bytes. sys.sys_send fd bytes flags) fd buf s

  -- writev1 looks the context up, and calls once.
  pub writev1 : ℕ → List (List ℕ) → State K → IoResult ℕ × State K
  writev1 fd iovec s =
      if hooked
      then call (sys.sys_writev fd iovec) (look_up fd s).1
      else call (sys.sys_writev fd iovec) s

  -- sendto waits only when the first call fails with EAGAIN.
  pub sendto : ℕ → List ℕ → ℕ → List ℕ → State K → IoResult ℕ × State K
  sendto fd message flags addr s =
      let f = sys.sys_sendto fd message flags addr in
      let found = look_up fd s in
      let first = call f found.1 in
      if hooked
      then elim (blocking found.0) [
        | none ↦ first
        | some lp ↦
            let again = call f (await_fd fd out_events (timeout_ms lp.write_timeout) first.1) in
            if is_eagain first.0 then again else first
      ]
      else call f s
