-- ===== src/Fiber/Wheel/Round/Due.antt =====
-- The timers that run in a round: those that are due.
use mathlib.Core.List.{map-append}
use mathlib.Core.List.Perm
use piorun.Prelude.{
  ℕ, ◌+◌, ◌-◌, ◌^◌, ◌≤◌, ◌<◌, ◌≡◌, refl, ap, ◌∙◌, inl, inr, List, [], ◌∷◌, ◌++◌, Perm, map,
  append_assoc, arith, if◌then◌else◌, Bool-cases, false, All, All-append, ltb, ltb→lt, some,
  ltb_false→le,
}
use piorun.Fiber.Wheel.{Item, Wheel, mark_timeout, run_active, timer_round}
use piorun.Fiber.Wheel.Take.{stored, IsSmall, perm_swap_front}
use piorun.Fiber.Wheel.Valid.{IsValid}
use piorun.Fiber.Wheel.Expire.{Taken, take_all_timeout-Taken}
use piorun.Fiber.Wheel.Round.{IsAt, Keeps, fired, run_active-fired}

-- What a callback and a user see of an item: which one it is, and its time.
abbrev pub key : Item → ℕ × ℕ
key x = (x.id, x.expire_time)

abbrev pub keys : List Item → List (ℕ × ℕ)
keys = map key

abbrev pub keys_in : Wheel → List (ℕ × ℕ)
keys_in w = keys (stored w.items w.item_size)

abbrev pub unlink : List Item → List Item
unlink = map {A = Item} (λ x. record x { linked = false })

late : ℕ → List Item → List Item
late now [] = []
late now (x ∷ xs) = if ltb now x.expire_time then x ∷ late now xs else late now xs

fired-append : (now : ℕ) (xs ys : List Item) → fired now (xs ++ ys) ≡ fired now xs ++ fired now ys
unfolding fired
fired-append now [] ys = refl
fired-append now (x ∷ xs) ys = ground (arith, fired-append now xs ys)

fired_arrived :
    (now : ℕ) (xs : List Item) → All (λ x. x.timed_out ≡ false) xs → fired now xs ≡ unlink xs
unfolding fired
fired_arrived now [] h = refl
fired_arrived now (x ∷ xs) h = ground (arith, fired_arrived now xs h.1)

fired-mark_due :
    (now : ℕ) (xs : List Item) → All (λ x. x.expire_time ≤ now) (fired now (mark_timeout xs))
unfolding fired mark_timeout
fired-mark_due now [] = tt
fired-mark_due now (x ∷ xs) = elim (Bool-cases (ltb now x.expire_time)) [
  | inl e ↦ rw e (fired-mark_due now xs)
  | inr e ↦ rw e (ltb_false→le _ _ e, fired-mark_due now xs)
]

late_future : (now : ℕ) (xs : List Item) → All (λ k. now < k.1) (keys (late now xs))
unfolding late
late_future now [] = tt
late_future now (x ∷ xs) = elim (Bool-cases (ltb now x.expire_time)) [
  | inl e ↦ rw e (ltb→lt _ _ e, late_future now xs)
  | inr e ↦ rw e (late_future now xs)
]

split_due :
    (now : ℕ) (xs : List Item)
    → Perm (keys xs) (keys (fired now (mark_timeout xs)) ++ keys (late now xs))
unfolding fired mark_timeout late
split_due now [] = Perm.refl []
split_due now (x ∷ xs) = elim (Bool-cases (ltb now x.expire_time)) [
  | inl e ↦ rw e (
      Perm.trans (Perm.cons (key x) (split_due now xs))
        (perm_swap_front (key x ∷ []) (keys (fired now (mark_timeout xs))) (keys (late now xs))))
  | inr e ↦ rw e (Perm.cons (key x) (split_due now xs))
]

pub mark_timeout-IsSmall : (xs : List Item) → All IsSmall xs → All IsSmall (mark_timeout xs)
unfolding mark_timeout
mark_timeout-IsSmall [] h = tt
mark_timeout-IsSmall (x ∷ xs) h = (h.0, mark_timeout-IsSmall xs h.1)

All-keys :
    (now : ℕ) (xs : List Item) → All (λ x. now < x.expire_time) xs → All (λ k. now < k.1) (keys xs)
All-keys now [] h = tt
All-keys now (x ∷ xs) h = (h.0, All-keys now xs h.1)

-- The timers of a wheel before a round, in those that run and those that do not.
pub record Halved (now : ℕ) (w w' : Wheel) (ran : List Item) : Type 0 where
  pub at_now : IsAt now w'
  pub due : All (λ x. x.expire_time ≤ now) ran
  pub waiting : List (ℕ × ℕ)
  pub future : All (λ k. now < k.1) waiting
  pub split : Perm (keys_in w) (keys ran ++ waiting)

module _ (now : ℕ) {w : Wheel} where
  Halved-Taken :
      {w' : Wheel} (w'' : Wheel) {expired : List Item}
      → Taken w now [] w' expired
      → IsAt now w''
      → Halved now w w'' (fired now (mark_timeout expired))
  Halved-Taken {w'} w'' {expired} t a = record {
    at_now = a;
    due = fired-mark_due now expired;
    waiting = keys (late now expired) ++ keys (stored w'.items w.item_size);
    future =
        All-append _ (keys (late now expired)) (keys (stored w'.items w.item_size))
          (late_future now expired) (All-keys now (stored w'.items w.item_size) t.future);
    split = Perm.trans (Perm.map key t.moved) (
        rw (map-append key expired (stored w'.items w.item_size)) (
          rw
            (← append_assoc (keys (fired now (mark_timeout expired))) (keys (late now expired))
              (keys (stored w'.items w.item_size)))
            (Perm.append_right _ (split_due now expired))));
  }

-- A round whose callbacks keep the wheel valid returns, and runs the arrived items and then timers that are due.
pub timer_round-Halved :
    (process : Item → Wheel → Wheel) (now : ℕ) {w : Wheel} (active : List Item)
    → Keeps process now
    → IsValid w
    → w.start ≤ now
    → now < 2 ^ 63
    → now - w.start + 1 < 2 ^ 31
    → All (λ x. x.timed_out ≡ false) active
    → All IsSmall active
    → (w' : Wheel) × (ran : List Item) × (timer_round process w now active
        ≡ some (w', unlink active ++ ran))
      × Halved now w w' ran
unfolding timer_round
timer_round-Halved process now {w} active keep v begun small jump fresh s =
    let (w', expired, e, t) = take_all_timeout-Taken {w = w} now [] v begun small jump tt in
    let (a, f) =
      run_active-fired process now (active ++ mark_timeout expired) w' keep
        (record { valid = t.valid; at_now = t.at_now })
        (All-append IsSmall active (mark_timeout expired) s
          (mark_timeout-IsSmall expired (t.small))) in
    let outcome = run_active process w' now (active ++ mark_timeout expired) in
    (
      outcome.0,
      fired now (mark_timeout expired),
      rw (e, timer_round)
          (ap {B = _} (λ o. some (outcome.0, o))
            (f
              ∙ fired-append now active (mark_timeout expired)
              ∙ ap (λ l. l ++ fired now (mark_timeout expired)) (fired_arrived now active fresh))),
      Halved-Taken now {w = w} outcome.0 t a,
    )
