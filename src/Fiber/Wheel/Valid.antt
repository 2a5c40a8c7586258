-- ===== src/Fiber/Wheel/Valid.antt =====
-- The well-formedness of a wheel: every item stands in the slot of its time.
use piorun.Prelude.{ℕ, ◌+◌, ◌-◌, ◌%◌, ◌^◌, ◌≤◌, ◌<◌, ◌∣◌, ◌≡◌, arith, All, true, ◌∙◌, ap}
use native.Mathlib.Nat.{mod-mod_of_dvd}
use piorun.Fiber.Wheel.{Item, Wheel, u64_mod, init, ensure_started, slot_of, elapsed}

-- What holds of an item in slot `j`.
pub record IsHome (w : Wheel) (j : ℕ) (x : Item) : Type 0 where
  pub in_list : x.linked ≡ true
  pub not_past : w.start ≤ x.expire_time
  pub small : x.expire_time < u64_mod
  pub slot : (w.start_idx + (x.expire_time - w.start)) % w.item_size ≡ j

-- The slot count divides 2^64, as 2 << 15 does: the wrap-around of the index is harmless.
-- The index never passes the clock, so with a clock below 2^63 it stays a positive int64_t.
pub record IsValid (w : Wheel) : Type 0 where
  pub started : 0 < w.start
  pub start_small : w.start < 2 ^ 63
  pub size_pos : 0 < w.item_size
  pub size_int : w.item_size < 2 ^ 31
  pub size_dvd : w.item_size ∣ u64_mod
  pub idx-le : w.start_idx ≤ w.start
  pub home : (j : ℕ) → j < w.item_size → All (IsHome w j) (w.items j)

pub elapsed_lem :
    (w : Wheel) (time : ℕ) → w.start ≤ time → time < u64_mod → elapsed w time ≡ time - w.start
elapsed_lem w time h k = omega arith

-- The slot of an item: the 64-bit wrap-around does not change it.
pub slot-elapsed :
    {w : Wheel} (time : ℕ)
    → IsValid w
    → w.start ≤ time
    → time < u64_mod
    → slot_of w (elapsed w time) ≡ (w.start_idx + (time - w.start)) % w.item_size
slot-elapsed {w} time v h small =
    mod-mod_of_dvd w.item_size (w.start_idx + elapsed w time) v.size_dvd
    ∙ ap (λ k. (w.start_idx + k) % w.item_size) (elapsed_lem w time h small)

pub init-IsValid :
    (size now : ℕ)
    → 0 < now
    → now < 2 ^ 63
    → 0 < size
    → size < 2 ^ 31
    → size ∣ u64_mod
    → IsValid (init size now)
unfolding init
init-IsValid size now h k p q d = record {
  started = h;
  start_small = k;
  size_pos = p;
  size_int = q;
  size_dvd = d;
  idx-le = omega arith;
  home = λ j _. tt;
}

pub ensure_started_lem : {w : Wheel} (now : ℕ) → 0 < w.start → ensure_started w now ≡ w
unfolding ensure_started
ensure_started_lem {w} now h = ground arith
