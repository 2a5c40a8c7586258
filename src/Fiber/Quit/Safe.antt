-- ===== src/Fiber/Quit/Safe.antt =====
-- What a thread of src/piorun/fiber/fiber.cc finds when it quits.
use piorun.Prelude.{
  ℕ, ◌<◌, ◌≡◌, refl, sym, ap, ◌∙◌, List, [], ◌∷◌, Bool, true, false, not, ◌&&◌, ◌==◌, inl, inr, ◌⊎◌,
  Bool-cases, arith, ==_refl,
}
use piorun.Fiber.Quit.{
  Thread, Scheduler, is_empty, is_idle, steal, want_quit, check_break, locked_part, Threads, turn,
  start, turns, Reach,
}
use piorun.Fiber.Quit.Counted.{
  Reach-IsCounted, Step-IsCounted, count_wanting-full, set_thread-here, start-IsCounted, wants,
}

check_break-quits :
    (n : ℕ) (sc : Scheduler) (t : Thread)
    → t.has_quit ≡ false
    → (check_break n (sc, t)).1.has_quit ≡ true
    → (sc.wanna_quit_thread_count ≡ n)
      × (is_idle t ≡ true)
      × (check_break n (sc, t) ≡ (sc, record t { has_quit = true }))
unfolding check_break
check_break-quits n sc t new q =
    elim (Bool-cases ((sc.wanna_quit_thread_count == n) && is_idle t)) [
      | inl quits ↦ (ground (arith, quits), ground (arith, quits), rw quits refl)
      | inr stays ↦ absurd (ground (arith, rw stays at q))
    ]

want_quit-keeps :
    (sc : Scheduler) (t : Thread)
    → ((want_quit (sc, t)).0.comm_tasks ≡ sc.comm_tasks)
      × (is_idle (want_quit (sc, t)).1 ≡ is_idle t)
      × ((want_quit (sc, t)).1.has_quit ≡ t.has_quit)
unfolding want_quit
want_quit-keeps sc t = elim (Bool-cases (not t.wanna_quit && is_idle t)) [
  | inl wants ↦ rw wants (refl, refl, refl)
  | inr stays ↦ rw stays (refl, refl, refl)
]

is_empty→nil : (l : List ℕ) → is_empty l ≡ true → l ≡ []
is_empty→nil [] e = refl
is_empty→nil (x ∷ xs) e = cc

steal-leaves :
    (sc : Scheduler) (t : Thread)
    → is_idle (steal (sc, t)).1 ≡ true
    → ((steal (sc, t)).0.comm_tasks ≡ []) ⊎ (t.isaccept ≡ true)
unfolding steal
steal-leaves sc t i = elim (Bool-cases t.isaccept) [
  | inl accepts ↦ inr accepts
  | inr takes ↦ elim (Bool-cases (is_empty sc.comm_tasks)) [
    | inl empty ↦ inl (rw (takes, empty) (is_empty→nil sc.comm_tasks empty))
    | inr full ↦
        let no_task : is_idle (steal (sc, t)).1 ≡ false =
          rw (takes, full) (ap (λ b. b && (t.current_fiber_count == 0)) full) in
        cc
  ]
]

steal-has_quit : (sc : Scheduler) (t : Thread) → (steal (sc, t)).1.has_quit ≡ t.has_quit
unfolding steal
steal-has_quit sc t = elim (Bool-cases (not t.isaccept && not (is_empty sc.comm_tasks))) [
  | inl takes ↦ rw takes refl
  | inr stays ↦ rw stays refl
]

-- What a thread that quits has found under the lock.
locked_part-quits :
    (n : ℕ) (sc : Scheduler) (t : Thread)
    → t.has_quit ≡ false
    → (locked_part n (sc, t)).1.has_quit ≡ true
    → ((locked_part n (sc, t)).0.wanna_quit_thread_count ≡ n)
      × (((locked_part n (sc, t)).0.comm_tasks ≡ []) ⊎ (t.isaccept ≡ true))
unfolding locked_part
locked_part-quits n sc t new q =
    let after = want_quit (steal (sc, t)) in
    let (comm, same, quit) = want_quit-keeps (steal (sc, t)).0 (steal (sc, t)).1 in
    let (count, idle, out) =
      check_break-quits n after.0 after.1 (quit ∙ steal-has_quit sc t ∙ new) q in
    (
      ap (λ r. r.0.wanna_quit_thread_count) out ∙ count,
      elim (steal-leaves sc t (sym same ∙ idle)) [
        | inl nothing ↦ inl (ap (λ r. r.0.comm_tasks) out ∙ comm ∙ nothing)
        | inr accepts ↦ inr accepts
      ],
    )

-- In every state that `n` threads reach, from a start where each has begun any number of fibers, by any interleaving of their loops and of calls of
-- Schedule: if a thread quits in its turn, then no thread `j` has a task that it took or a fiber that has not
-- ended, and no task is left in the common queue, unless the thread that quits is one that does not take tasks.
pub quits_when_done :
    (n : ℕ) (accepts : ℕ → Bool) (fibers : ℕ → ℕ) {s : Threads} (i j : ℕ)
    → Reach n (start accepts fibers) s
    → i < n
    → j < n
    → (s.thread i).has_quit ≡ false
    → (s.thread i).at_top ≡ true
    → ((turn n i s).thread i).has_quit ≡ true
    → (is_idle ((turn n i s).thread j) ≡ true)
      × (((turn n i s).sc.comm_tasks ≡ []) ⊎ ((s.thread i).isaccept ≡ true))
unfolding turn
quits_when_done n accepts fibers {s} i j r h k new top q =
    let v =
      Step-IsCounted n (Reach-IsCounted n (start-IsCounted n accepts fibers) r)
        (turns i h new top) in
    let made =
      set_thread-here s.thread i i (record (locked_part n (s.sc, s.thread i)).1 { at_top = false })
        (==_refl i) in
    let (count, left) =
      locked_part-quits n s.sc (s.thread i) new (sym (ap (λ (t : Thread). t.has_quit) made) ∙ q) in
    (v.idle j k (count_wanting-full (turn n i s).thread n j (sym v.counted ∙ count) k), left)
