-- ===== src/Fiber/Quit.antt =====
-- How the threads of src/piorun/fiber/fiber.cc take tasks and quit: MultiThreadFiberScheduler, and the part of
-- threadRoutine under its lock. A task is a number.
pub mod Counted
pub mod Safe
pub mod Tests
use piorun.Prelude.{
  ℕ, zero, suc, ◌+◌, ◌-◌, ◌<◌, ◌≡◌, List, [], ◌∷◌, ◌++◌, Bool, true, false, not, ◌&&◌, ◌==◌,
  if◌then◌else◌,
}

-- The variables of a thread: `at_top` says that it is at the start of its loop.
pub record Thread : Type 0 where
  pub wanna_quit : Bool
  pub current_fiber_count : ℕ
  pub stealed_tasks : List ℕ
  pub isaccept : Bool
  pub has_quit : Bool
  pub at_top : Bool

pub record Scheduler : Type 0 where
  pub comm_tasks : List ℕ
  pub wanna_quit_thread_count : ℕ

abbrev pub is_empty : List ℕ → Bool
is_empty [] = true
is_empty (x ∷ xs) = false

-- `stealedTasks.empty() && env->currentFiberCount_ == 0`
abbrev pub is_idle : Thread → Bool
is_idle t = is_empty t.stealed_tasks && (t.current_fiber_count == 0)

-- The three parts under the lock. The count is positive where it is decreased.
pub steal : Scheduler × Thread → Scheduler × Thread
steal (sc, t) =
    let count = sc.wanna_quit_thread_count in
    if not t.isaccept && not (is_empty sc.comm_tasks)
    then (
      record {
        comm_tasks = t.stealed_tasks;
        wanna_quit_thread_count = if t.wanna_quit then count - 1 else count;
      },
      record t { stealed_tasks = sc.comm_tasks; wanna_quit = false },
    )
    else (sc, t)

pub want_quit : Scheduler × Thread → Scheduler × Thread
want_quit (sc, t) =
    if not t.wanna_quit && is_idle t
    then (
      record sc { wanna_quit_thread_count = sc.wanna_quit_thread_count + 1 },
      record t { wanna_quit = true },
    )
    else (sc, t)

pub check_break : ℕ → Scheduler × Thread → Scheduler × Thread
check_break thread_num (sc, t) =
    if (sc.wanna_quit_thread_count == thread_num) && is_idle t
    then (sc, record t { has_quit = true })
    else (sc, t)

pub locked_part : ℕ → Scheduler × Thread → Scheduler × Thread
unfolding steal want_quit check_break
locked_part thread_num r = check_break thread_num (want_quit (steal r))

pub record Threads : Type 0 where
  pub sc : Scheduler
  pub thread : ℕ → Thread

abbrev pub set_thread : (ℕ → Thread) → ℕ → Thread → ℕ → Thread
set_thread f i t j = if j == i then t else f j

-- The locked part of thread `i`.
pub turn : ℕ → ℕ → Threads → Threads
unfolding locked_part
turn n i s =
    let r = locked_part n (s.sc, s.thread i) in
    record { sc = r.0; thread = set_thread s.thread i (record r.1 { at_top = false }) }

-- The rest of the loop, after which `m` fibers of the thread have begun and not ended.
abbrev pub rest : ℕ → ℕ → Threads → Threads
rest i m s = record s {
  thread =
      set_thread s.thread i
        (record (s.thread i) { stealed_tasks = []; current_fiber_count = m; at_top = true });
}

-- TryLock fails.
abbrev pub skip : ℕ → Threads → Threads
skip i s = record s { thread = set_thread s.thread i (record (s.thread i) { at_top = false }) }

-- Schedule.
abbrev pub schedule : ℕ → Threads → Threads
schedule task s = record s { sc = record s.sc { comm_tasks = s.sc.comm_tasks ++ (task ∷ []) } }

-- `fibers` are those that each thread has begun before its loop.
abbrev pub start : (ℕ → Bool) → (ℕ → ℕ) → Threads
start accepts fibers = record {
  sc = record { comm_tasks = []; wanna_quit_thread_count = 0 };
  thread = λ i. record {
    wanna_quit = false;
    current_fiber_count = fibers i;
    stealed_tasks = [];
    isaccept = accepts i;
    has_quit = false;
    at_top = true;
  };
}

-- A step of one of `n` threads that has not quit, or a call of Schedule. In the rest of its loop a thread
-- begins a fiber for each task that it took; fibers begin others and end at will, but a thread without
-- a task and a fiber gets none.
pub data Step (n : ℕ) : Threads → Threads → Type 0 where
  turns :
      {s : Threads} (i : ℕ)
      → i < n
      → (s.thread i).has_quit ≡ false
      → (s.thread i).at_top ≡ true
      → Step n s (turn n i s)
  skips :
      {s : Threads} (i : ℕ)
      → i < n
      → (s.thread i).has_quit ≡ false
      → (s.thread i).at_top ≡ true
      → Step n s (skip i s)
  rests :
      {s : Threads} (i m : ℕ)
      → i < n
      → (s.thread i).has_quit ≡ false
      → (s.thread i).at_top ≡ false
      → (is_idle (s.thread i) ≡ true → m ≡ 0)
      → Step n s (rest i m s)
  schedules : {s : Threads} (task : ℕ) → Step n s (schedule task s)

pub data Reach (n : ℕ) (s : Threads) : Threads → Type 0 where
  here : Reach n s s
  next : {u v : Threads} → Reach n s u → Step n u v → Reach n s v
