-- ===== src/Fiber/Env/Safe.antt =====
-- The start of a task in a reached state of a thread's fibers (src/piorun/fiber/fiber.cc).
use piorun.Prelude.{
  ◌⊎◌, ℕ, ◌+◌, ◌-◌, ◌<◌, ◌≡◌, refl, sym, ap, ◌∙◌, subst, [], ◌∷◌, ◌++◌, some, Bool, true, false,
  ltb, ◌==◌, if◌then◌else◌, length, inl, inr, Bool-cases, arith, ==_iff, ltb→lt, some_inj,
  guarded_some,
}
use piorun.Fiber.Env.{
  Fiber, FiberEnvironment, call_stack_max, set_fiber, fresh, fill_pool, is_live, resume, yield,
  finish, run_task, Step, begins, resumes, yields, ends, Reach, here, next_step,
}
use piorun.Fiber.Env.Pool.{
  count, IsSound, fill_pool-IsSound, fill_pool-fiber, fill_pool-nonempty, fill_pool-call_stack,
}
use piorun.Fiber.Env.Begins.{
  replaced-IsSound, IsSound-stack, begun-IsSound, live_out, returned-IsSound, yield_lem,
}
use piorun.Fiber.Env.Task.{
  set_up, begun, set_fiber-here, set_fiber-there, run_task_lem, run_task_full,
}

resume-IsSound :
    (e : FiberEnvironment) {e' : FiberEnvironment} (i : ℕ)
    → IsSound e
    → is_live (e.fiber i) ≡ true
    → resume i e ≡ some e'
    → IsSound e'
unfolding resume
resume-IsSound e {e'} i v live h =
    let (out, small) = live_out e i v live in
    let x : Fiber = record (e.fiber i) { c_start = true } in
    let stack = i ∷ e.call_stack in
    let n = if (e.fiber i).c_start then e.current_fiber_count else e.current_fiber_count + 1 in
    let made = guarded_some (ltb (length e.call_stack) call_stack_max) _ e' h in
    subst IsSound made.1 (
      IsSound-stack (record e { fiber = set_fiber e.fiber i x }) stack n
        (replaced-IsSound e i x e.fiber_pool v small (λ y. omega arith) out))

ended_idle : (x : Fiber) → is_live (record x { c_end = true }) ≡ false
ended_idle x = elim (Bool-cases x.c_start) [ inl e ↦ rw e refl | inr e ↦ rw e refl ]

-- The environment of finish before it yields.
abbrev ended : ℕ → FiberEnvironment → FiberEnvironment
ended i e = record e {
  fiber = set_fiber e.fiber i (record (e.fiber i) { c_end = true });
  fiber_pool = if (e.fiber i).c_create_by_env then e.fiber_pool ++ (i ∷ []) else e.fiber_pool;
  current_fiber_count = e.current_fiber_count - 1;
}

ended-IsSound :
    (e : FiberEnvironment) (i : ℕ)
    → IsSound e
    → is_live (e.fiber i) ≡ true
    → (e.fiber i).c_is_main ≡ false
    → IsSound (ended i e)
ended-IsSound e i v live plain =
    let (out, small) = live_out e i v live in
    let x : Fiber = record (e.fiber i) { c_end = true } in
    let w = replaced-IsSound e i x e.fiber_pool v small (λ y. omega arith) out in
    let is_x = set_fiber-here e.fiber i x in
    let back =
      returned-IsSound (record e { fiber = set_fiber e.fiber i x }) i w out
        (ap is_live is_x ∙ ended_idle (e.fiber i)) (ap (λ (y : Fiber). y.c_is_main) is_x ∙ plain)
        small in
    choose (e.fiber i).c_create_by_env w back
  where
    choose :
        (b : Bool)
        → IsSound (record e { fiber = set_fiber e.fiber i (record (e.fiber i) { c_end = true }) })
        → IsSound (record e {
          fiber = set_fiber e.fiber i (record (e.fiber i) { c_end = true });
          fiber_pool = e.fiber_pool ++ (i ∷ []);
        })
        → IsSound (record e {
          fiber = set_fiber e.fiber i (record (e.fiber i) { c_end = true });
          fiber_pool = if b then e.fiber_pool ++ (i ∷ []) else e.fiber_pool;
          current_fiber_count = e.current_fiber_count - 1;
        })
    choose true w back = IsSound-stack _ e.call_stack (e.current_fiber_count - 1) back
    choose false w back = IsSound-stack _ e.call_stack (e.current_fiber_count - 1) w

yield-IsSound :
    (u : FiberEnvironment) {e' : FiberEnvironment} → IsSound u → yield u ≡ some e' → IsSound e'
yield-IsSound u v h =
    let (s, made) = yield_lem u h in subst IsSound made (IsSound-stack u s u.current_fiber_count v)

run_task-IsSound :
    (task : ℕ) (e : FiberEnvironment) {e' : FiberEnvironment}
    → IsSound e
    → run_task task e ≡ some e'
    → IsSound e'
run_task-IsSound task e {e'} v h =
    let (i, rest, front) = fill_pool-nonempty e in
    elim (Bool-cases (ltb (length e.call_stack) call_stack_max)) [
      | inl room ↦
          let made =
            run_task_lem task e i rest v front (ltb→lt (length e.call_stack) call_stack_max room) in
          subst IsSound (some_inj (begun task i rest (fill_pool e)) e' (sym made ∙ h))
            (begun-IsSound task i rest (fill_pool e) (fill_pool-IsSound e v) front)
      | inr full ↦ let fault = run_task_full task e i rest v front full in cc
    ]

Step-IsSound : {e e' : FiberEnvironment} → IsSound e → Step e e' → IsSound e'
unfolding finish
Step-IsSound {e} v (begins task h) = run_task-IsSound task e v h
Step-IsSound {e} v (resumes i live h) = resume-IsSound e i v live h
Step-IsSound {e} v (yields h) = yield-IsSound e v h
Step-IsSound {e} v (ends i below top live plain h) =
    yield-IsSound (ended i e) (ended-IsSound e i v live plain) h

Reach-IsSound : {e e' : FiberEnvironment} → IsSound e → Reach e e' → IsSound e'
Reach-IsSound v here = v
Reach-IsSound v (next_step r st) = Step-IsSound (Reach-IsSound v r) st

fresh-IsSound : IsSound fresh
fresh-IsSound = record {
  once = λ y. omega arith;
  free = λ y h. absurd (omega arith);
  not_main = λ y h. absurd (omega arith);
  made = λ y h. absurd (omega arith);
  below = λ y h. refl;
}

was_idle :
    (e : FiberEnvironment) (i : ℕ)
    → IsSound e
    → is_live ((fill_pool e).fiber i) ≡ false
    → is_live (e.fiber i) ≡ false
was_idle e i v idle = elim (Bool-cases (is_live (e.fiber i))) [
  | inr old ↦ old
  | inl live ↦ let same = ap is_live (fill_pool-fiber e i v live) in cc
]

distinct :
    (e : FiberEnvironment) (y i : ℕ)
    → is_live (e.fiber y) ≡ true
    → is_live (e.fiber i) ≡ false
    → (y == i) ≡ false
distinct e y i live idle = elim (Bool-cases (y == i)) [
  | inr apart ↦ apart
  | inl same ↦ let both = ap (λ j. is_live (e.fiber j)) ((==_iff y i).0 same) in cc
]

-- From a new environment, in every state reached by beginning tasks, resuming, yielding and ending fibers, with
-- fewer than 128 fibers on the call stack: a task is begun. Its fiber had not begun or had ended, so none that
-- runs or waits is taken; it is on top of the call stack, has the task, and has begun and not ended; and each
-- fiber `y` either had not begun or had ended before, or is as it was, with its task.
pub run_task_begins :
    {e : FiberEnvironment} (task y : ℕ)
    → Reach fresh e
    → length e.call_stack < call_stack_max
    → (i : ℕ) × (e' : FiberEnvironment) × (run_task task e ≡ some e')
      × (is_live (e.fiber i) ≡ false)
      × (e'.call_stack ≡ i ∷ e.call_stack)
      × (is_live (e'.fiber i) ≡ true)
      × ((e'.fiber i).pfn ≡ some task)
      × ((is_live (e.fiber y) ≡ false) ⊎ (e'.fiber y ≡ e.fiber y))
run_task_begins {e} task y r room =
    let v = Reach-IsSound fresh-IsSound r in
    let (i, rest, front) = fill_pool-nonempty e in
    let w = fill_pool-IsSound e v in
    let at_front : 0 < count i (fill_pool e).fiber_pool =
      subst (λ l. 0 < count i l) (sym front) (ground arith) in
    let idle = w.free i at_front in
    let f = set_fiber (fill_pool e).fiber i (set_up task ((fill_pool e).fiber i)) in
    let x : Fiber = record (set_up task ((fill_pool e).fiber i)) { c_start = true } in
    let at_i = set_fiber-here f i x in
    let old = was_idle e i v idle in
    (
      i,
      begun task i rest (fill_pool e),
      run_task_lem task e i rest v front room,
      old,
      ap (λ l. i ∷ l) (fill_pool-call_stack e),
      ap is_live at_i,
      ap (λ (z : Fiber). z.pfn) at_i,
      elim (Bool-cases (is_live (e.fiber y))) [
        | inr idle_y ↦ inl idle_y
        | inl live ↦
            let apart = distinct e y i live old in
            inr (
              set_fiber-there f i y x apart
              ∙ set_fiber-there (fill_pool e).fiber i y (set_up task ((fill_pool e).fiber i)) apart
              ∙ fill_pool-fiber e y v live)
      ],
    )
