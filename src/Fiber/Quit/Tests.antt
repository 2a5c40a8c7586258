-- ===== src/Fiber/Quit/Tests.antt =====
-- Two threads that find nothing to do, and the theorem at their run.
use piorun.Prelude.{ℕ, ◌≡◌, refl, [], Bool, true, false, ◌⊎◌, arith}
use piorun.Fiber.Quit.{
  Threads, is_idle, turn, rest, schedule, start, turns, rests, schedules, Reach, here, next,
}
use piorun.Fiber.Quit.Safe.{quits_when_done}

abbrev none_accepts : ℕ → Bool
none_accepts i = false

abbrev no_fiber : ℕ → ℕ
no_fiber i = 0

-- A task is scheduled; thread 0 takes it and runs it to its end; thread 1 and then thread 0 want to quit.
abbrev scheduled : Threads
scheduled = schedule 7 (start none_accepts no_fiber)

took : Reach 2 (start none_accepts no_fiber) (rest 0 0 (turn 2 0 scheduled))
unfolding turn
took =
    next (next (next here (schedules 7)) (turns 0 (omega arith) refl refl))
      (rests 0 0 (omega arith) refl refl (λ i. refl))

abbrev ran : Threads
ran = rest 0 0 (turn 2 0 scheduled)

to_last : Reach 2 (start none_accepts no_fiber) (turn 2 1 ran)
unfolding turn
to_last = next took (turns 1 (omega arith) refl refl)

quits_when_done_example :
    (is_idle ((turn 2 0 (turn 2 1 ran)).thread 1) ≡ true)
    × (((turn 2 0 (turn 2 1 ran)).sc.comm_tasks ≡ []) ⊎ (false ≡ true))
unfolding turn
quits_when_done_example =
    quits_when_done 2 none_accepts no_fiber {s = turn 2 1 ran} 0 1 to_last (omega arith)
      (omega arith) refl refl refl
