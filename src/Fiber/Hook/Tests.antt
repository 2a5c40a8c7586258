-- ===== src/Fiber/Hook/Tests.antt =====
-- Hooks on a concrete system, and the theorems at it.
use piorun.Prelude.{
  ℕ, ◌≤◌, ◌≡◌, refl, List, [], ◌∷◌, ◌++◌, none, some, true, false, arith, min, length, take, ◌⊎◌,
}
use piorun.Http.Buffer.{IoResult, done}
use piorun.Fiber.Wheel.{init}
use piorun.Fiber.Poll.{PollMask, PollFd, Kernel, no_events}
use piorun.Fiber.Poll.Quiet.{IsQuiet}
use piorun.Fiber.Hook.{
  Contexts, State, System, Outside, get_context_by_fd, FcntlCmd, f_getfl, f_setfl, fresh_context,
  without_nonblock, is_nonblock, call, in_events, timeout_ms, set_context,
}
use piorun.Fiber.Hook.Poll.{merge_fds}
use piorun.Fiber.Hook.Poll.Merge.{IsAbsent, IsMerged, merge_fds_lem}
use piorun.Fiber.Hook.Io.{wrote_len, write, receive, await_fd}
use piorun.Fiber.Hook.Io.Rest.{IsSending}
use piorun.Fiber.Hook.Io.Sends.{write_delivers, write_completes}
use piorun.Fiber.Hook.Fcntl.{fcntl, close, socket, setsockopt, sol_socket, so_rcvtimeo}
use piorun.Fiber.Hook.Fcntl.Flags.{found_at, fcntl_hides_nonblock}
use piorun.Fiber.Hook.Fcntl.Reuse.{close-socket}
use piorun.Fiber.Hook.Fcntl.Timeout.{setsockopt-receive}

-- The kernel: the bytes that descriptor 5 has taken, and its flags.
abbrev Taken : Type 0
Taken = List ℕ × ℕ

abbrev flags_call : FcntlCmd → Taken → ℕ × Taken
flags_call f_getfl k = (k.1, k)
flags_call (f_setfl p) k = (0, (k.0, p))
flags_call cmd k = (0, k)

-- A write that takes at most two bytes.
abbrev take_two : List ℕ → Taken → IoResult ℕ × Taken
take_two buf k = (done (min 2 (length buf)), (k.0 ++ take (min 2 (length buf)) buf, k.1))

abbrev plain_poller : Kernel (Outside Taken)
plain_poller = record {
  sys_poll = λ fds timeout o. ((fds, done 1), o);
  epoll_add = λ fd i mask o. (none, o);
  epoll_del = λ fd o. o;
  now = λ o. 100;
  fresh = λ o i. no_events;
  away = λ x w o. ([], w, o);
}

abbrev system : System Taken
system = record {
  sys_socket = λ d t p k. (done 5, k);
  sys_accept = λ fd k. (done 6, k);
  sys_connect = λ fd addr k. (done 0, k);
  sys_close = λ fd k. (done 0, k);
  sys_read = λ fd n k. (done k.0, k);
  sys_readv = λ fd v k. (done k.0, k);
  sys_write = λ fd buf k. take_two buf k;
  sys_writev = λ fd v k. (done 0, k);
  sys_sendto = λ fd m flags addr k. take_two m k;
  sys_recvfrom = λ fd n flags k. (done (k.0, []), k);
  sys_send = λ fd buf flags k. take_two buf k;
  sys_recv = λ fd n flags k. (done k.0, k);
  sys_setsockopt = λ fd level name value k. (done 0, k);
  sys_fcntl = λ fd cmd k. flags_call cmd k;
  timeval_of = λ bytes. record { tv_sec = 2; tv_usec = 500000 };
  so_error = λ fd k. (done 0, k);
  new_id = λ k. 1;
  poller = plain_poller;
}

abbrev start : State Taken
start = record { contexts = λ fd. fresh_context; wheel = init 4 100; kernel = ([], 2) }

quiet : IsQuiet plain_poller (λ (o : Contexts × Taken). o.1.0)
quiet = record {
  of_poll = λ fds timeout o. refl;
  of_add = λ fd i mask o. refl;
  of_del = λ fd o. refl;
  of_away = λ x w o. refl;
}

sending : IsSending take_two (λ (k : Taken). k.0)
sending = record { len-le = λ buf k. omega arith; front = λ buf k. refl }

abbrev five : List ℕ
five = 10 ∷ 11 ∷ 12 ∷ 13 ∷ 14 ∷ []

write_delivers_example :
    (r : IoResult ℕ) × (s' : State Taken) × (write system true 5 5 five start ≡ some (r, s'))
    × (wrote_len r ≤ 5)
    × (s'.kernel.0 ≡ take (wrote_len r) five)
write_delivers_example =
    write_delivers system true 5 5 five (λ k. k.0) quiet (omega arith) start sending

write_completes_example :
    (r : IoResult ℕ) × (s' : State Taken) × (write system true 5 5 five start ≡ some (r, s'))
    × (wrote_len r ≡ 5)
    × (s'.kernel.0 ≡ five)
unfolding get_context_by_fd
write_completes_example =
    write_completes system true 5 5 five (λ k. k.0) quiet (omega arith) start fresh_context sending
      refl refl (λ bytes k h. omega arith)

fcntl_hides_nonblock_example :
    let (set, s') = fcntl system true 5 (f_setfl 2) start in
    let shown = (fcntl system true 5 f_getfl s').0 in
    (set ≡ 0)
    × (s'.kernel ≡ ([], 2050))
    × (is_nonblock 2050 ≡ true)
    × (is_nonblock shown ≡ false)
    × (without_nonblock shown ≡ 2)
fcntl_hides_nonblock_example =
    fcntl_hides_nonblock system 5 (omega arith) start 2 2050 refl refl refl

close-socket_example :
    (s' : State Taken) × (socket system true 2 1 0 (close system true 5 start).1
      ≡ some (done 5, s'))
    × (s'.contexts 5 ≡ record fresh_context { domain = 2; user_flag = 2 })
close-socket_example = close-socket system 5 2 1 0 (omega arith) refl start refl refl

setsockopt-receive_example :
    let s' = (setsockopt system true 5 sol_socket so_rcvtimeo [] start).1 in
    let c = set_context s'.contexts 5 (found_at s'.contexts 5) in
    receive system true (system.sys_read 5 100) 5 s'
    ≡ call
        (system.sys_read 5 100)
        (await_fd system true 5 in_events 2500 (record s' { contexts = c }))
unfolding timeout_ms
setsockopt-receive_example =
    setsockopt-receive system 5 [] start (omega arith) refl (system.sys_read 5 100)

abbrev asks : ℕ → PollMask → PollFd
asks fd events = record { fd = fd; events = events; revents = no_events }

abbrev input : PollMask
input = record no_events { pollin = true }

abbrev output : PollMask
output = record no_events { pollout = true }

abbrev duplicate : List PollFd
duplicate = asks 7 input ∷ asks 8 input ∷ asks 7 output ∷ []

merge_fds_lem_example :
    let (merged, m) = merge_fds [] [] duplicate in
    IsAbsent 7 duplicate merged m ⊎ IsMerged 7 duplicate merged m
merge_fds_lem_example = merge_fds_lem duplicate 7
