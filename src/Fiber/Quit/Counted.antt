-- ===== src/Fiber/Quit/Counted.antt =====
-- The threads of src/piorun/fiber/fiber.cc that want to quit, and their count under the lock.
use piorun.Prelude.{
  ℕ, zero, suc, ◌+◌, ◌≤◌, ◌<◌, ◌≡◌, refl, sym, ap, ◌∙◌, subst, [], Bool, true, false, ◌==◌,
  if◌then◌else◌, inl, inr, Bool-cases, arith, ==_iff,
}
use piorun.Fiber.Quit.{
  Thread, Scheduler, is_idle, steal, want_quit, check_break, locked_part, Threads, set_thread, turn,
  start, Step, turns, skips, rests, schedules, Reach, here, next,
}

abbrev pub wants : Thread → ℕ
wants t = if t.wanna_quit then 1 else 0

-- How many of the first `n` threads want to quit.
pub count_wanting : (ℕ → Thread) → ℕ → ℕ
count_wanting f zero = 0
count_wanting f (suc k) = count_wanting f k + wants (f k)

count_wanting-le : (f : ℕ → Thread) (n : ℕ) → count_wanting f n ≤ n
unfolding count_wanting
count_wanting-le f zero = omega arith
count_wanting-le f (suc k) = ground (arith, count_wanting-le f k)

pub count_wanting-full :
    (f : ℕ → Thread) (n i : ℕ) → count_wanting f n ≡ n → i < n → (f i).wanna_quit ≡ true
unfolding count_wanting
count_wanting-full f zero i e h = absurd (omega arith)
count_wanting-full f (suc k) i e h = elim (Bool-cases (i == k)) [
  | inl last ↦
      let same : k ≡ i = ground arith in
      subst (λ j. (f j).wanna_quit ≡ true) same (ground (arith, count_wanting-le f k))
  | inr other ↦ count_wanting-full f k i (ground (arith, count_wanting-le f k)) (ground arith)
]

count_wanting-outside :
    (f : ℕ → Thread) (i : ℕ) (t : Thread) (n : ℕ)
    → n ≤ i
    → count_wanting (set_thread f i t) n ≡ count_wanting f n
unfolding count_wanting
count_wanting-outside f i t zero h = refl
count_wanting-outside f i t (suc k) h =
    let far : (k == i) ≡ false = ground arith in
    rw far (ap (λ n. n + wants (f k)) (count_wanting-outside f i t k (omega arith)))

count_wanting-set_thread :
    (f : ℕ → Thread) (i : ℕ) (t : Thread) (n : ℕ)
    → i < n
    → count_wanting (set_thread f i t) n + wants (f i) ≡ count_wanting f n + wants t
unfolding count_wanting
count_wanting-set_thread f i t zero h = absurd (omega arith)
count_wanting-set_thread f i t (suc k) h = elim (Bool-cases (k == i)) [
  | inl last ↦
      let same : k ≡ i = (==_iff k i).0 last in
      rw last
        (omega (arith, count_wanting-outside f i t k (omega arith), ap (λ j. wants (f j)) same))
  | inr other ↦ rw other (omega (arith, count_wanting-set_thread f i t k (ground arith)))
]

-- What holds in every reached state: the count is that of the threads that want to quit, and these have no task
-- and no fiber.
pub record IsCounted (n : ℕ) (s : Threads) : Type 0 where
  pub counted : s.sc.wanna_quit_thread_count ≡ count_wanting s.thread n
  pub idle : (i : ℕ) → i < n → (s.thread i).wanna_quit ≡ true → is_idle (s.thread i) ≡ true

-- The parts under the lock keep the count in step with the thread, and let only an idle thread want to quit.
record IsKept (r r' : Scheduler × Thread) : Type 0 where
  pub in_step : r'.0.wanna_quit_thread_count + wants r.1 ≡ r.0.wanna_quit_thread_count + wants r'.1
  pub only_idle : r'.1.wanna_quit ≡ true → is_idle r'.1 ≡ true

steal-IsKept :
    (sc : Scheduler) (t : Thread)
    → wants t ≤ sc.wanna_quit_thread_count
    → (t.wanna_quit ≡ true → is_idle t ≡ true)
    → IsKept (sc, t) (steal (sc, t))
unfolding steal
steal-IsKept sc t enough idle = record {
  in_step = ground arith;
  only_idle = λ h. ground (arith, idle);
}

want_quit-IsKept :
    (sc : Scheduler) (t : Thread)
    → (t.wanna_quit ≡ true → is_idle t ≡ true)
    → IsKept (sc, t) (want_quit (sc, t))
unfolding want_quit
want_quit-IsKept sc t idle = record {
  in_step = ground arith;
  only_idle = λ h. ground (arith, idle);
}

check_break-IsKept :
    (n : ℕ) (sc : Scheduler) (t : Thread)
    → (t.wanna_quit ≡ true → is_idle t ≡ true)
    → IsKept (sc, t) (check_break n (sc, t))
unfolding check_break
check_break-IsKept n sc t idle = record {
  in_step = ground arith;
  only_idle = λ h. ground (arith, idle);
}

IsKept-trans : {a b c : Scheduler × Thread} → IsKept a b → IsKept b c → IsKept a c
IsKept-trans {a} {b} {c} p q = record {
  in_step = omega (arith, p.in_step, q.in_step);
  only_idle = q.only_idle;
}

locked_part-IsKept :
    (n : ℕ) (sc : Scheduler) (t : Thread)
    → wants t ≤ sc.wanna_quit_thread_count
    → (t.wanna_quit ≡ true → is_idle t ≡ true)
    → IsKept (sc, t) (locked_part n (sc, t))
unfolding locked_part
locked_part-IsKept n sc t enough idle =
    let stolen = steal-IsKept sc t enough idle in
    let wanted = want_quit-IsKept (steal (sc, t)).0 (steal (sc, t)).1 stolen.only_idle in
    IsKept-trans stolen (
      IsKept-trans wanted (
        check_break-IsKept n (want_quit (steal (sc, t))).0 (want_quit (steal (sc, t))).1
          wanted.only_idle))

wants-count_wanting : (f : ℕ → Thread) (n i : ℕ) → i < n → wants (f i) ≤ count_wanting f n
wants-count_wanting f n i h =
    omega (arith, count_wanting-set_thread f i (record (f i) { wanna_quit = false }) n h)

pub set_thread-here :
    (f : ℕ → Thread) (i j : ℕ) (t : Thread) → (j == i) ≡ true → set_thread f i t j ≡ t
set_thread-here f i j t e = rw e refl

set_thread-there :
    (f : ℕ → Thread) (i j : ℕ) (t : Thread) → (j == i) ≡ false → set_thread f i t j ≡ f j
set_thread-there f i j t e = rw e refl

-- A thread is replaced by one that wants to quit only when it is idle.
replaced :
    (n i : ℕ) (s : Threads) (sc : Scheduler) (t : Thread)
    → i < n
    → IsCounted n s
    → sc.wanna_quit_thread_count + wants (s.thread i) ≡ s.sc.wanna_quit_thread_count + wants t
    → (t.wanna_quit ≡ true → is_idle t ≡ true)
    → IsCounted n (record { sc = sc; thread = set_thread s.thread i t })
replaced n i s sc t h v e idle = record {
  counted = omega (arith, count_wanting-set_thread s.thread i t n h, v.counted, e);
  idle = λ j k w. elim (Bool-cases (j == i)) [
    | inl same ↦
        let here = set_thread-here s.thread i j t same in
        ap is_idle here ∙ idle (sym (ap (λ (u : Thread). u.wanna_quit) here) ∙ w)
    | inr other ↦
        let there = set_thread-there s.thread i j t other in
        ap is_idle there ∙ v.idle j k (sym (ap (λ (u : Thread). u.wanna_quit) there) ∙ w)
  ];
}

count_wanting-start :
    (accepts : ℕ → Bool) (fibers : ℕ → ℕ) (n : ℕ)
    → count_wanting (start accepts fibers).thread n ≡ 0
unfolding count_wanting
count_wanting-start accepts fibers zero = refl
count_wanting-start accepts fibers (suc k) = omega (arith, count_wanting-start accepts fibers k)

pub Step-IsCounted : (n : ℕ) {s s' : Threads} → IsCounted n s → Step n s s' → IsCounted n s'
unfolding turn
Step-IsCounted n {s} v (turns i h _ _) =
    let t = s.thread i in
    let enough : wants t ≤ s.sc.wanna_quit_thread_count =
      omega (arith, wants-count_wanting s.thread n i h, v.counted) in
    let kept = locked_part-IsKept n s.sc t enough (v.idle i h) in
    replaced n i s (locked_part n (s.sc, t)).0
      (record (locked_part n (s.sc, t)).1 { at_top = false }) h v kept.in_step kept.only_idle
Step-IsCounted n {s} v (skips i h _ _) =
    replaced n i s s.sc (record (s.thread i) { at_top = false }) h v refl (v.idle i h)
Step-IsCounted n {s} v (rests i m h _ _ few) =
    replaced n i s s.sc
      (record (s.thread i) { stealed_tasks = []; current_fiber_count = m; at_top = true }) h v refl
      (λ w. ap (λ c. c == 0) (few (v.idle i h w)))
Step-IsCounted n {s} v (schedules task) = record { counted = v.counted; idle = v.idle }

pub start-IsCounted :
    (n : ℕ) (accepts : ℕ → Bool) (fibers : ℕ → ℕ) → IsCounted n (start accepts fibers)
start-IsCounted n accepts fibers = record {
  counted = sym (count_wanting-start accepts fibers n);
  idle = λ i h w. cc;
}

pub Reach-IsCounted : (n : ℕ) {s s' : Threads} → IsCounted n s → Reach n s s' → IsCounted n s'
Reach-IsCounted n v here = v
Reach-IsCounted n v (next r st) = Step-IsCounted n (Reach-IsCounted n v r) st
