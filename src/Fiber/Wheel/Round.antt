-- ===== src/Fiber/Wheel/Round.antt =====
-- A round of the event loop of threadRoutine: which timers run, and which go back to the wheel.
pub mod Exact
pub mod Due
use mathlib.Core.List.{map-append, perm_middle}
use mathlib.Core.List.Perm
use piorun.Prelude.{
  ℕ, ◌+◌, ◌-◌, ◌^◌, ◌≤◌, ◌<◌, ◌≡◌, refl, sym, ap, ◌∙◌, ◌⊎◌, inl, inr, List, [], ◌∷◌, ◌++◌, Perm,
  map, append-nil, append_assoc, arith, if◌then◌else◌, Bool-cases, Bool, ◌&&◌, true, false, All,
  All-append, All-map, ltb, ltb→lt, some, subst,
}
use piorun.Fiber.Wheel.{
  Item, Wheel, ok, u64_mod, add_timeout, take_all_timeout, mark_timeout, run_active, timer_round,
}
use piorun.Fiber.Wheel.Take.{stored, IsSmall}
use piorun.Fiber.Wheel.Valid.{IsValid, IsHome}
use piorun.Fiber.Wheel.Add.{marked, add_timeout_ok}
use piorun.Fiber.Wheel.Expire.{Taken, take_all_timeout-Taken}

-- The wheel as a round leaves it for the callbacks: valid, and started at the round's time.
pub record IsAt (now : ℕ) (w : Wheel) : Type 0 where
  pub valid : IsValid w
  pub at_now : w.start ≡ now

abbrev retries : ℕ → Item → Bool
retries now x = x.timed_out && ltb now x.expire_time

-- The items whose callback runs.
pub fired : ℕ → List Item → List Item
fired now [] = []
fired now (x ∷ xs) =
    if retries now x then fired now xs else record x { linked = false } ∷ fired now xs

abbrev retry_item : Item → Item
retry_item x = record x { linked = false; timed_out = false }

retries-lt : (now : ℕ) (x : Item) → retries now x ≡ true → now < x.expire_time
retries-lt now x h = ground arith

pub add_again :
    {w : Wheel} (x : Item) (now : ℕ)
    → IsAt now w
    → IsSmall x
    → retries now x ≡ true
    → let (status, w', x') = add_timeout w (retry_item x) now in
      (status ≡ ok)
      × IsAt now w'
      × (w'.item_size ≡ w.item_size)
      × (x' ≡ marked w (retry_item x))
      × Perm (x' ∷ stored w.items w.item_size) (stored w'.items w.item_size)
add_again {w} x now a small r =
    let (e, v, s, z, m, p) =
      add_timeout_ok {w = w} (retry_item x) now a.valid refl (let e = a.at_now in omega arith)
        (omega (arith, retries-lt now x r)) small in
    (e, record { valid = v; at_now = s ∙ a.at_now }, z, m, p)

module _ (process : Item → Wheel → Wheel) (now : ℕ) where
  run_active-retry :
      (w : Wheel) (x : Item) (xs : List Item)
      → retries now x ≡ true
      → (add_timeout w (retry_item x) now).0 ≡ ok
      → run_active process w now (x ∷ xs)
        ≡ run_active process (add_timeout w (retry_item x) now).1 now xs
  unfolding run_active
  run_active-retry w x xs r e = rw (r, e) refl

  run_active-fire :
      (w : Wheel) (x : Item) (xs : List Item)
      → retries now x ≡ false
      → let lp = record x { linked = false } in
        let rest = run_active process (process lp w) now xs in
        run_active process w now (x ∷ xs) ≡ (rest.0, lp ∷ rest.1)
  unfolding run_active
  run_active-fire w x xs r = rw r refl

  abbrev pub Keeps : Type 0
  Keeps = (x : Item) (w : Wheel) → IsAt now w → IsAt now (process x w)

  run_active-fired :
      (xs : List Item) (w : Wheel)
      → Keeps
      → IsAt now w
      → All IsSmall xs
      → IsAt now (run_active process w now xs).0 × ((run_active process w now xs).1 ≡ fired now xs)
  unfolding fired
  run_active-fired [] w keep a s = unfold run_active in (a, refl)
  run_active-fired (x ∷ xs) w keep a s = elim (Bool-cases (retries now x)) [
    | inl r ↦
        let (e, a', _, _, _) = add_again {w = w} x now a s.0 r in
        rw (run_active-retry w x xs r e, r) (run_active-fired xs _ keep a' s.1)
    | inr r ↦
        let (a', e) =
          run_active-fired xs (process (record x { linked = false }) w) keep (keep _ w a) s.1 in
        rw (run_active-fire w x xs r, r) (a', ap (λ l. record x { linked = false } ∷ l) e)
  ]
