-- ===== src/Fiber/Hook/Io/Sends.antt =====
-- What write and send of src/piorun/fiber/syshook.cc give to the kernel.
use piorun.Prelude.{
  ℕ, ◌≤◌, ◌<◌, ◌≡◌, ap, ◌∙◌, List, ◌++◌, some, Bool, true, length, take, take_all, arith,
}
use piorun.Http.Buffer.{IoResult}
use piorun.Fiber.Poll.Quiet.{IsQuiet}
use piorun.Fiber.Hook.{Context, Contexts, State, System, timeout_ms}
use piorun.Fiber.Hook.Io.{send, wrote_len, write, look_up, blocking}
use piorun.Fiber.Hook.Io.Rest.{IsSending, send_blocking_lem, waiting, send_all_lem, whole}

module _ {K : Type 0} (sys : System K) (hooked : Bool) (fuel fd : ℕ) (buf : List ℕ)
    (sent : K → List ℕ) (q : IsQuiet sys.poller (λ (o : Contexts × K). sent o.1))
    (enough : length buf ≤ fuel) where
  -- write, with fuel for the bytes of its buffer, on a kernel whose write takes a front of the bytes as long as
  -- its result says, while neither the wait nor the fibers that run meanwhile write to the descriptor: it
  -- returns, hooked or not; what it returns is at most the length of the buffer, and that many bytes
  -- from the start of the buffer have been taken by the kernel, once each and in order; after an error none.
  pub write_delivers :
      (s : State K)
      → IsSending (sys.sys_write fd) sent
      → (r : IoResult ℕ) × (s' : State K) × (write sys hooked fuel fd buf s ≡ some (r, s'))
        × (wrote_len r ≤ length buf)
        × (sent s'.kernel ≡ sent s.kernel ++ take (wrote_len r) buf)
  unfolding write
  write_delivers s h = send_all_lem sys hooked (sys.sys_write fd) sent q h fuel fd buf s enough

  -- The same of send, whose system call is send with the given flags.
  pub send_delivers :
      (flags : ℕ) (s : State K)
      → IsSending (λ bytes. sys.sys_send fd bytes flags) sent
      → (r : IoResult ℕ) × (s' : State K) × (send sys hooked fuel fd buf flags s ≡ some (r, s'))
        × (wrote_len r ≤ length buf)
        × (sent s'.kernel ≡ sent s.kernel ++ take (wrote_len r) buf)
  unfolding send
  send_delivers flags s h =
      send_all_lem sys hooked (λ bytes. sys.sys_send fd bytes flags) sent q h fuel fd buf s enough

  -- The write of a hooked fiber to a descriptor that has a context and that the program left blocking, on such
  -- a kernel whose write moreover always takes at least one byte of a buffer that is not empty: all bytes of the
  -- buffer are taken, in order, and their number is returned, however few each call takes.
  pub write_completes :
      (s : State K) (lp : Context)
      → IsSending (sys.sys_write fd) sent
      → hooked ≡ true
      → blocking (look_up fd s).0 ≡ some lp
      → ((bytes : List ℕ) (k : K) → 0 < length bytes → 0 < wrote_len (sys.sys_write fd bytes k).0)
      → (r : IoResult ℕ) × (s' : State K) × (write sys hooked fuel fd buf s ≡ some (r, s'))
        × (wrote_len r ≡ length buf)
        × (sent s'.kernel ≡ sent s.kernel ++ buf)
  unfolding write
  write_completes s lp h on waits takes =
      let (r, s', made, _, given, why) =
        send_blocking_lem sys hooked (sys.sys_write fd) sent q h fuel fd
          (timeout_ms lp.write_timeout) buf (look_up fd s).1 enough in
      let all = whole sys hooked (sys.sys_write fd) sent q h takes why in
      (
        r,
        s',
        waiting sys hooked (sys.sys_write fd) sent q h fuel fd buf s lp on waits ∙ made,
        all,
        given
            ∙ ap (λ l. sent s.kernel ++ l)
                (ap (λ n. take n buf) all ∙ take_all buf (length buf) (omega arith)),
      )
