-- ===== src/Fiber/Wheel/Add.antt =====
-- AddTimeout on a valid wheel.
use mathlib.Core.List.{perm-append_left_iff}
use native.Mathlib.Nat.{mod-lt}
use piorun.Prelude.{
  ℕ, ◌≤◌, ◌<◌, ◌≡◌, refl, sym, ap, ◌⊎◌, inl, inr, [], ◌∷◌, ◌++◌, Perm, append_assoc, arith, ◌==◌,
  Bool-cases, true, false, All, All-append, All-map, subst, leb, le→ltb_false, ==_iff,
}
use piorun.Fiber.Wheel.{
  Item, Wheel, ok, rejected, u64_mod, update, insert_timeout, add_timeout, elapsed, slot_of,
}
use piorun.Fiber.Wheel.Take.{stored, stored-update_perm}
use piorun.Fiber.Wheel.Valid.{IsValid, IsHome, slot-elapsed, ensure_started_lem}

-- The item as AddTimeout leaves it.
abbrev pub marked : Wheel → Item → Item
marked w x = record x { is_delay_active = leb w.item_size (elapsed w x.expire_time); linked = true }

module _ {w : Wheel} (x : Item) (now : ℕ) (v : IsValid w) (free : x.linked ≡ false)
    (begun : w.start ≤ now) (ahead : now ≤ x.expire_time) (small : x.expire_time < u64_mod) where
  abbrev target : ℕ
  target = slot_of w (elapsed w x.expire_time)

  abbrev added : Wheel
  added = record w { items = update w.items target (w.items target ++ (marked w x ∷ [])) }

  insert_timeout_ok : insert_timeout w x now ≡ (ok, added, marked w x)
  unfolding insert_timeout
  insert_timeout_ok =
      rw (le→ltb_false now w.start begun, le→ltb_false x.expire_time now ahead, free) refl

  IsHome-added : (j : ℕ) (y : Item) → IsHome w j y → IsHome added j y
  IsHome-added j y h = record {
    in_list = h.in_list;
    not_past = h.not_past;
    small = h.small;
    slot = h.slot;
  }

  IsHome-kept : (j : ℕ) → j < w.item_size → All (IsHome added j) (w.items j)
  IsHome-kept j lt =
      All-map (IsHome w j) (IsHome added j) (IsHome-added j) (w.items j) (v.home j lt)

  IsHome-marked : IsHome added target (marked w x)
  IsHome-marked = record {
    in_list = refl;
    not_past = omega arith;
    small = small;
    slot = sym (slot-elapsed {w = w} x.expire_time v (omega arith) small);
  }

  IsHome-joined : (j : ℕ) → j < w.item_size → All (IsHome added j) (added.items j)
  IsHome-joined j lt = elim (Bool-cases (j == target)) [
    | inr e ↦ rw e (IsHome-kept j lt)
    | inl e ↦
        let same : j ≡ target = (==_iff j target).0 e in
        rw e (
          subst (λ k. All (IsHome added k) (w.items target ++ (marked w x ∷ []))) (sym same)
            (All-append (IsHome added target) (w.items target) (marked w x ∷ [])
              (IsHome-kept target (mod-lt _ v.size_pos)) (IsHome-marked, tt)))
  ]

  IsValid-added : IsValid added
  IsValid-added = record {
    started = v.started;
    start_small = v.start_small;
    size_pos = v.size_pos;
    size_int = v.size_int;
    size_dvd = v.size_dvd;
    idx-le = v.idx-le;
    home = IsHome-joined;
  }

  stored-added : Perm (marked w x ∷ stored w.items w.item_size) (stored added.items w.item_size)
  stored-added = (perm-append_left_iff (w.items target)).0 (
      rw (append_assoc (w.items target) (marked w x ∷ []) (stored w.items w.item_size)) at (
        stored-update_perm w.items target w.item_size (mod-lt _ v.size_pos)
          (w.items target ++ (marked w x ∷ []))))

insert_timeout_past :
    (w : Wheel) (x : Item) (now : ℕ)
    → (now < w.start) ⊎ (x.expire_time < now)
    → insert_timeout w x now
      ≡ (rejected, w, record x { is_delay_active = leb w.item_size (elapsed w x.expire_time) })
unfolding insert_timeout
insert_timeout_past w x now past = ground arith

add_timeout-started :
    (w : Wheel) (x : Item) (now : ℕ) → 0 < w.start → add_timeout w x now ≡ insert_timeout w x now
unfolding add_timeout
add_timeout-started w x now h = ap (λ u. insert_timeout u x now) (ensure_started_lem {w = w} now h)

-- An item that is in no list, at a time that is not before the last call, and due then or later, is
-- added: the wheel stays valid, and its items are those before and the new one. The item
-- comes back marked as linked, and as delayed if it is due a full turn or more after the start.
pub add_timeout_ok :
    {w : Wheel} (x : Item) (now : ℕ)
    → IsValid w
    → x.linked ≡ false
    → w.start ≤ now
    → now ≤ x.expire_time
    → x.expire_time < u64_mod
    → let (status, w', x') = add_timeout w x now in
      (status ≡ ok)
      × IsValid w'
      × (w'.start ≡ w.start)
      × (w'.item_size ≡ w.item_size)
      × (x' ≡ marked w x)
      × Perm (x' ∷ stored w.items w.item_size) (stored w'.items w.item_size)
add_timeout_ok {w} x now v free begun ahead small =
    rw (add_timeout-started w x now v.started, insert_timeout_ok x now v free begun ahead small)
      (
        refl,
        IsValid-added x now v free begun ahead small,
        refl,
        refl,
        refl,
        stored-added x now v free begun ahead small,
      )

-- A call at a time before the last TakeAllTimeout, or with an item that is already past, is
-- rejected: the wheel does not change, and of the item only the delay mark.
pub add_timeout_rejected :
    (w : Wheel) (x : Item) (now : ℕ)
    → 0 < w.start
    → (now < w.start) ⊎ (x.expire_time < now)
    → add_timeout w x now
      ≡ (rejected, w, record x { is_delay_active = leb w.item_size (elapsed w x.expire_time) })
add_timeout_rejected w x now h past =
    rw (add_timeout-started w x now h) (insert_timeout_past w x now past)
