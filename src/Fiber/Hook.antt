-- ===== src/Fiber/Hook.antt =====
-- src/piorun/fiber/syshook.cc: the system calls as a fiber sees them. The state: the context of each
-- descriptor, the thread's time wheel, and the kernel with the rest of the program. Lengths, ids and
-- flags are numbers; an int is its bit pattern.
pub mod Poll
pub mod Io
pub mod Fcntl
pub mod Tests
use piorun.Prelude.{
  ℕ, ◌+◌, ◌-◌, ◌*◌, ◌/◌, ◌%◌, ◌^◌, List, [], ◌∷◌, ◌++◌, Option, none, some, Bool, true, false, not,
  ◌&&◌, ◌||◌, ltb, leb, ◌==◌, if◌then◌else◌, length, drop, get_elem?,
}
use piorun.Http.Buffer.{IoResult, failed, done}
use piorun.Fiber.Wheel.{Wheel}
use piorun.Fiber.Poll.{PollMask, PollFd, Kernel, no_events, co_poll_inner}

-- A struct timeval: both numbers are bit patterns of a long.
pub record Timeval : Type 0 where
  pub tv_sec : ℕ
  pub tv_usec : ℕ

abbrev pub long_minus_one : ℕ
long_minus_one = 2 ^ 64 - 1

abbrev pub int_minus_one : ℕ
int_minus_one = 2 ^ 32 - 1

-- rpchook_t. `dest` is the bytes of the address.
pub record Context : Type 0 where
  pub user_flag : ℕ
  pub dest : List ℕ
  pub domain : ℕ
  pub read_timeout : Timeval
  pub write_timeout : Timeval

abbrev pub dest_size : ℕ
dest_size = 16

-- How many descriptors have a context.
abbrev pub contexts_size : ℕ
contexts_size = 102400

abbrev pub Contexts : Type 0
Contexts = ℕ → Context

abbrev pub set_context : Contexts → ℕ → Context → Contexts
set_context c fd h i = if i == fd then h else c i

-- The context after memset and the two assignments.
abbrev pub fresh_context : Context
fresh_context = record {
  user_flag = 0;
  dest = 0 ∷ 0 ∷ 0 ∷ 0 ∷ 0 ∷ 0 ∷ 0 ∷ 0 ∷ 0 ∷ 0 ∷ 0 ∷ 0 ∷ 0 ∷ 0 ∷ 0 ∷ 0 ∷ [];
  domain = 0;
  read_timeout = record { tv_sec = long_minus_one; tv_usec = 0 };
  write_timeout = record { tv_sec = long_minus_one; tv_usec = 0 };
}

-- GetContextByFd: whether there is one, and the contexts after the call.
pub get_context_by_fd : Contexts → ℕ → Option Context × Contexts
get_context_by_fd c fd =
    let found = if (c fd).domain == int_minus_one then fresh_context else c fd in
    if ltb fd contexts_size then (some found, set_context c fd found) else (none, c)

pub del_context_by_fd : Contexts → ℕ → Contexts
del_context_by_fd c fd =
    if ltb fd contexts_size then set_context c fd (record (c fd) { domain = int_minus_one }) else c

-- Division of a long by 1000, which cuts towards 0.
abbrev pub div_1000 : ℕ → ℕ
div_1000 n = if ltb n (2 ^ 63) then n / 1000 else 2 ^ 64 - (2 ^ 64 - n) / 1000

-- A timeout in milliseconds as the int that poll takes.
pub timeout_ms : Timeval → ℕ
timeout_ms tv =
    if tv.tv_sec == long_minus_one
    then int_minus_one
    else (tv.tv_sec * 1000 + div_1000 tv.tv_usec) % 2 ^ 32

-- O_NONBLOCK in the bits of an int.
abbrev pub o_nonblock : ℕ
o_nonblock = 2048

abbrev pub is_nonblock : ℕ → Bool
is_nonblock flags = (flags / o_nonblock) % 2 == 1

abbrev pub with_nonblock : ℕ → ℕ
with_nonblock flags = if is_nonblock flags then flags else flags + o_nonblock

abbrev pub without_nonblock : ℕ → ℕ
without_nonblock flags = if is_nonblock flags then flags - o_nonblock else flags

pub record State (K : Type 0) : Type 0 where
  pub contexts : Contexts
  pub wheel : Wheel
  pub kernel : K

-- What co_poll_inner sees of the state besides the wheel: other fibers may change the contexts.
abbrev pub Outside : Type 0 → Type 0
Outside K = Contexts × K

-- The commands of fcntl; a lock is the number of its pointer.
pub data FcntlCmd : Type 0 where
  f_getfd f_getfl f_getown : FcntlCmd
  f_dupfd f_setfd f_setfl f_setown f_getlk f_setlk f_setlkw f_other : ℕ → FcntlCmd

abbrev pub einprogress : ℕ
einprogress = 115

abbrev pub etimedout : ℕ
etimedout = 110

abbrev pub eagain : ℕ
eagain = 11

-- The calls of the system. The result of fcntl is the bit pattern of an int. `timeval_of` is how the
-- memory of an option's value reads as a struct timeval, `so_error` is getsockopt of SO_ERROR, and `new_id`
-- is the address of the next poller.
pub record System (K : Type 0) : Type 0 where
  pub sys_socket : ℕ → ℕ → ℕ → K → IoResult ℕ × K
  pub sys_accept : ℕ → K → IoResult ℕ × K
  pub sys_connect : ℕ → List ℕ → K → IoResult ℕ × K
  pub sys_close : ℕ → K → IoResult ℕ × K
  pub sys_read : ℕ → ℕ → K → IoResult (List ℕ) × K
  pub sys_readv : ℕ → List ℕ → K → IoResult (List ℕ) × K
  pub sys_write : ℕ → List ℕ → K → IoResult ℕ × K
  pub sys_writev : ℕ → List (List ℕ) → K → IoResult ℕ × K
  pub sys_sendto : ℕ → List ℕ → ℕ → List ℕ → K → IoResult ℕ × K
  pub sys_recvfrom : ℕ → ℕ → ℕ → K → IoResult (List ℕ × List ℕ) × K
  pub sys_send : ℕ → List ℕ → ℕ → K → IoResult ℕ × K
  pub sys_recv : ℕ → ℕ → ℕ → K → IoResult (List ℕ) × K
  pub sys_setsockopt : ℕ → ℕ → ℕ → List ℕ → K → IoResult ℕ × K
  pub sys_fcntl : ℕ → FcntlCmd → K → ℕ × K
  pub timeval_of : List ℕ → Timeval
  pub so_error : ℕ → K → IoResult ℕ × K
  pub new_id : K → ℕ
  pub poller : Kernel (Outside K)

-- A call of the system, which leaves the contexts and the wheel.
abbrev pub call : {K A : Type 0} → (K → A × K) → State K → A × State K
call f s = let r = f s.kernel in (r.0, record s { kernel = r.1 })

-- The two sets of events that the hooks wait for.
abbrev pub in_events : PollMask
in_events = record no_events { pollin = true; pollerr = true; pollhup = true }

abbrev pub out_events : PollMask
out_events = record no_events { pollout = true; pollerr = true; pollhup = true }
