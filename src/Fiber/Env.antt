-- ===== src/Fiber/Env.antt =====
-- The fibers of a thread in src/piorun/fiber/fiber.cc: the call stack and the pool of FiberEnvironment, the
-- functions of Fiber, and GoRoutine. A fiber and a task are numbers.
pub mod Pool
pub mod Task
pub mod Begins
pub mod Safe
pub mod Tests
use piorun.Prelude.{
  ℕ, zero, suc, ◌+◌, ◌-◌, ◌≡◌, List, [], ◌∷◌, ◌++◌, Option, none, some, Bool, true, false, not,
  ◌&&◌, ◌||◌, leb, ltb, ◌==◌, if◌then◌else◌, length,
}

pub record Fiber : Type 0 where
  pub pfn : Option ℕ
  pub c_start : Bool
  pub c_end : Bool
  pub c_is_main : Bool
  pub c_enable_sys_hook : Bool
  pub c_create_by_env : Bool

-- FiberEnvironment: `next` is the address of the next new fiber, and `call_stack` begins with its top.
pub record FiberEnvironment : Type 0 where
  pub fiber : ℕ → Fiber
  pub call_stack : List ℕ
  pub fiber_pool : List ℕ
  pub current_fiber_count : ℕ
  pub next : ℕ

abbrev pub call_stack_max : ℕ
call_stack_max = 128

abbrev pub pool_size : ℕ
pool_size = 64

abbrev pub set_fiber : (ℕ → Fiber) → ℕ → Fiber → ℕ → Fiber
set_fiber f i x j = if j == i then x else f j

-- Fiber(nullptr), with cCreateByEnv set.
abbrev pub pool_fiber : Fiber
pool_fiber = record {
  pfn = none;
  c_start = false;
  c_end = false;
  c_is_main = false;
  c_enable_sys_hook = true;
  c_create_by_env = true;
}

abbrev pub main_fiber : Fiber
main_fiber = record {
  pfn = none;
  c_start = false;
  c_end = false;
  c_is_main = true;
  c_enable_sys_hook = false;
  c_create_by_env = false;
}

-- The constructor: the main fiber is 0.
abbrev pub fresh : FiberEnvironment
fresh = record {
  fiber = λ i. main_fiber;
  call_stack = 0 ∷ [];
  fiber_pool = [];
  current_fiber_count = 0;
  next = 1;
}

-- The loop of GetFiberFromPool that makes `n` fibers.
abbrev pub addresses : ℕ → ℕ → List ℕ
addresses from zero = []
addresses from (suc n) = from ∷ addresses (from + 1) n

pub fill_pool : FiberEnvironment → FiberEnvironment
fill_pool env = elim env.fiber_pool [
  | x ∷ xs ↦ env
  | [] ↦ record env {
    fiber = λ i. if leb env.next i && ltb i (env.next + pool_size) then pool_fiber else env.fiber i;
    fiber_pool = addresses env.next pool_size;
    next = env.next + pool_size;
  }
]

pub get_fiber_from_pool : FiberEnvironment → Option (ℕ × FiberEnvironment)
unfolding fill_pool
get_fiber_from_pool env = elim (fill_pool env).fiber_pool [
  | [] ↦ none
  | x ∷ xs ↦ some (x, record (fill_pool env) { fiber_pool = xs })
]

-- Whether a fiber has begun and not ended.
abbrev pub is_live : Fiber → Bool
is_live x = x.c_start && not x.c_end

abbrev pub reset_fiber : Option ℕ → Fiber → Fiber
reset_fiber pfn x =
    if x.c_is_main || is_live x then x else record x { c_start = false; c_end = false; pfn = pfn }

-- Reset
pub reset : ℕ → Option ℕ → FiberEnvironment → FiberEnvironment
reset i pfn env = record env { fiber = set_fiber env.fiber i (reset_fiber pfn (env.fiber i)) }

-- Resume up to the swap, with the start of GoRoutine; `none` is a write behind the array of the call stack.
pub resume : ℕ → FiberEnvironment → Option FiberEnvironment
resume i env =
    let x = env.fiber i in
    let begun = if x.c_start then env.current_fiber_count else env.current_fiber_count + 1 in
    if ltb (length env.call_stack) call_stack_max
    then some (record env {
      fiber = set_fiber env.fiber i (record x { c_start = true });
      call_stack = i ∷ env.call_stack;
      current_fiber_count = begun;
    })
    else none

-- Yield; `none` is a read before the array.
pub yield : FiberEnvironment → Option FiberEnvironment
yield env = elim env.call_stack [
  | [] ↦ none
  | x ∷ below ↦ elim below [ [] ↦ none | y ∷ rest ↦ some (record env { call_stack = y ∷ rest }) ]
]

-- The end of GoRoutine, in the fiber on the top.
pub finish : ℕ → FiberEnvironment → Option FiberEnvironment
unfolding yield
finish i env =
    let x = env.fiber i in
    yield (record env {
      fiber = set_fiber env.fiber i (record x { c_end = true });
      fiber_pool = if x.c_create_by_env then env.fiber_pool ++ (i ∷ []) else env.fiber_pool;
      current_fiber_count = env.current_fiber_count - 1;
    })

-- threadRoutine's body for one task.
pub run_task : ℕ → FiberEnvironment → Option FiberEnvironment
unfolding get_fiber_from_pool reset resume
run_task task env = elim (get_fiber_from_pool env) [
  | none ↦ none
  | some (i, env') ↦ resume i (reset i (some task) env')
]

-- What a thread does with its fibers: it begins a task, resumes a fiber that has begun and not ended,
-- yields, or ends the fiber on the top.
pub data Step (e : FiberEnvironment) : FiberEnvironment → Type 0 where
  begins : {e' : FiberEnvironment} (task : ℕ) → run_task task e ≡ some e' → Step e e'
  resumes :
      {e' : FiberEnvironment} (i : ℕ)
      → is_live (e.fiber i) ≡ true
      → resume i e ≡ some e'
      → Step e e'
  yields : {e' : FiberEnvironment} → yield e ≡ some e' → Step e e'
  ends :
      {e' : FiberEnvironment} (i : ℕ) (below : List ℕ)
      → e.call_stack ≡ i ∷ below
      → is_live (e.fiber i) ≡ true
      → (e.fiber i).c_is_main ≡ false
      → finish i e ≡ some e'
      → Step e e'

pub data Reach (e : FiberEnvironment) : FiberEnvironment → Type 0 where
  here : Reach e e
  next_step : {u v : FiberEnvironment} → Reach e u → Step u v → Reach e v
