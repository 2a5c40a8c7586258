-- ===== src/Fiber/Wheel/Tests.antt =====
-- Runs of the wheel, and the theorems at concrete wheels.
use piorun.Prelude.{
  ℕ, zero, suc, map, ◌+◌, ◌^◌, ◌<◌, ◌≡◌, refl, List, [], ◌∷◌, ◌++◌, arith, true, false, some, none,
  All,
}
use native.Mathlib.Nat.{dvd_of_mod-eq-zero}
use piorun.Fiber.Wheel.{
  Item, Wheel, init, add_timeout, take_all_timeout, timer_round, run_active, mark_timeout,
}
use piorun.Fiber.Wheel.Valid.{IsValid, IsHome, init-IsValid}
use piorun.Fiber.Wheel.Expire.{Taken, take_all_timeout-Taken, take_all_timeout_jump}
use piorun.Fiber.Wheel.Round.{Keeps, add_again}
use piorun.Fiber.Wheel.Round.Due.{unlink}
use piorun.Fiber.Wheel.Round.Exact.{Adds, Rounded, keys_in-again, set_by, timer_round-Rounded}

abbrev timer : ℕ → ℕ → Item
timer id time = record {
  id = id;
  expire_time = time;
  is_delay_active = false;
  timed_out = false;
  linked = false;
}

abbrev held : Item → Item
held x = record x { linked = true }

-- Four slots, started at 100: a timer for 102, one for 107 (a turn later), and one for 103.
abbrev busy_slots : ℕ → List Item
busy_slots zero = []
busy_slots (suc zero) = []
busy_slots (suc (suc zero)) = held (timer 1 102) ∷ []
busy_slots (suc (suc (suc zero))) =
    record (held (timer 2 107)) { is_delay_active = true } ∷ held (timer 3 103) ∷ []
busy_slots (suc (suc (suc (suc n)))) = []

abbrev pub busy : Wheel
busy = record { items = busy_slots; item_size = 4; start = 100; start_idx = 0 }

busy-IsHome : (j : ℕ) → j < 4 → All (IsHome busy j) (busy_slots j)
busy-IsHome zero h = tt
busy-IsHome (suc zero) h = tt
busy-IsHome (suc (suc zero)) h =
    (record { in_list = refl; not_past = omega arith; small = omega arith; slot = refl }, tt)
busy-IsHome (suc (suc (suc zero))) h = (
  record { in_list = refl; not_past = omega arith; small = omega arith; slot = refl },
  (record { in_list = refl; not_past = omega arith; small = omega arith; slot = refl }, tt),
)
busy-IsHome (suc (suc (suc (suc n)))) h = absurd (omega arith)

pub busy-IsValid : IsValid busy
busy-IsValid = record {
  started = omega arith;
  start_small = omega arith;
  size_pos = omega arith;
  size_int = omega arith;
  size_dvd = dvd_of_mod-eq-zero 4 refl;
  idx-le = omega arith;
  home = busy-IsHome;
}

-- The wheel as fiber.cc creates it, with 2 << 15 slots.
init-IsValid_example : IsValid (init (2 ^ 16) 1700000000000)
init-IsValid_example =
    init-IsValid (2 ^ 16) 1700000000000 (omega arith) (omega arith) (omega arith) (omega arith)
      (dvd_of_mod-eq-zero (2 ^ 16) refl)

abbrev idle : Item → Wheel → Wheel
idle x w = w

-- At 103 the timers 1 and 3 run; timer 2, taken a turn early, goes back.
round_103 :
    elim (timer_round idle busy 103 []) as (λ _. List ℕ × List ℕ × List Item) [
      | none ↦ ([], [], [])
      | some (w, out) ↦ (map (λ x. x.id) out, map (λ x. x.id) (w.items 3), w.items 2)
    ]
    ≡ (1 ∷ 3 ∷ [], 2 ∷ [], [])
unfolding timer_round take_all_timeout run_active mark_timeout add_timeout
round_103 = refl

take_all_timeout_jump_example : take_all_timeout busy (100 + 2 ^ 31) [] ≡ some (busy, [])
take_all_timeout_jump_example =
    take_all_timeout_jump busy (100 + 2 ^ 31) [] (omega arith) (omega arith) (omega arith)
      (omega arith)

take_all_timeout-Taken_example :
    (w' : Wheel) × (out : List Item) × (take_all_timeout busy 103 [] ≡ some (w', out))
    × Taken busy 103 [] w' out
take_all_timeout-Taken_example =
    take_all_timeout-Taken {w = busy} 103 [] busy-IsValid (omega arith) (omega arith) (omega arith)
      tt

-- A callback that sets timer 7 for 600 in a round at 103.
abbrev set_again : Item
set_again = record (timer 7 600) { timed_out = true }

abbrev again : Item → Wheel → Wheel
again x w = (add_timeout w (timer 7 600) 103).1

again-Keeps : Keeps again 103
again-Keeps x w a = (add_again {w = w} set_again 103 a (omega arith) refl).1

again-Adds : Adds again 103 (λ x. (7, 600) ∷ [])
again-Adds x w a = keys_in-again {w = w} set_again 103 a (omega arith) refl

timer_round-Rounded_example :
    (w' : Wheel) × (ran : List Item) × (timer_round again busy 103 (timer 9 500 ∷ [])
      ≡ some (w', unlink (timer 9 500 ∷ []) ++ ran))
    × Rounded 103 busy w' ran (set_by (λ x. (7, 600) ∷ []) (unlink (timer 9 500 ∷ []) ++ ran))
timer_round-Rounded_example =
    timer_round-Rounded again 103 (λ x. (7, 600) ∷ []) {w = busy} (timer 9 500 ∷ []) again-Keeps
      again-Adds busy-IsValid (omega arith) (omega arith) (omega arith) (refl, tt) (omega arith)
