-- ===== src/Fiber/Wheel/Expire.antt =====
-- TakeAllTimeout on a valid wheel: it takes every item that is due, keeps the rest, and loses none.
use piorun.Prelude.{
  ℕ, ◌+◌, ◌-◌, ◌%◌, ◌^◌, ◌≤◌, ◌<◌, ◌≡◌, refl, sym, ap, ◌∙◌, ◌⊎◌, inl, inr, List, [], ◌++◌, Perm,
  some, arith, Bool-cases, min, leb, All-or, ltb→lt, le→ltb_false, true, All, All-map, ltb,
}
use piorun.Fiber.Wheel.{Item, Wheel, u64_mod, slot_count, take_expired, take_all_timeout}
use piorun.Fiber.Wheel.Take.{stored-All, IsSmall, stored, Joined, join_slots-Joined, turn_reaches}
use piorun.Fiber.Wheel.Valid.{IsValid, IsHome, ensure_started_lem}

abbrev pub due_slots : Wheel → ℕ → ℕ
due_slots w now = min (now - w.start + 1) w.item_size

slot_count_lem :
    {w : Wheel} (now : ℕ)
    → IsValid w
    → w.start ≤ now
    → now < 2 ^ 63
    → now - w.start + 1 < 2 ^ 31
    → slot_count w now ≡ some (due_slots w now)
unfolding slot_count
slot_count_lem {w} now v h k small = ground arith

-- What a call at time `now` gives.
pub record Taken (w : Wheel) (now : ℕ) (res : List Item) (w' : Wheel) (out : List Item)
    : Type 0 where
  pub valid : IsValid w'
  pub at_now : w'.start ≡ now
  pub same_size : w'.item_size ≡ w.item_size
  pub future : All (λ x. now < x.expire_time) (stored w'.items w.item_size)
  pub moved : Perm (res ++ stored w.items w.item_size) (out ++ stored w'.items w.item_size)
  pub small : All IsSmall out

module _ {w : Wheel} (now : ℕ) (v : IsValid w) (h : w.start ≤ now) (small : now < 2 ^ 63)
    {slots' : ℕ → List Item} {res out : List Item}
    (j : Joined w.item_size (due_slots w now) w.start_idx w.items res slots' out) where
  abbrev taken : Wheel
  taken = record w {
    items = slots';
    start = now;
    start_idx = (w.start_idx + due_slots w now + u64_mod - 1) % u64_mod;
  }

  all_cleared : w.item_size ≤ now - w.start + 1 → (k : ℕ) → k < w.item_size → slots' k ≡ []
  all_cleared full k lt =
      let (i, less, e) = turn_reaches w.item_size w.start_idx k v.size_pos lt in
      ap slots' (sym e) ∙ j.cleared i (omega arith)

  -- An item that is due stands in a slot that was emptied.
  due_cleared :
      (k : ℕ) (x : Item) → k < w.item_size → IsHome w k x → x.expire_time ≤ now → slots' k ≡ []
  due_cleared k x lt home due = elim (Bool-cases (leb w.item_size (now - w.start + 1))) [
    | inl e ↦ all_cleared (ground arith) k lt
    | inr e ↦ ap slots' (sym home.slot) ∙ j.cleared (x.expire_time - w.start) (ground arith)
  ]

  idx_taken : now - w.start + 1 < w.item_size → taken.start_idx ≡ w.start_idx + (now - w.start)
  idx_taken e = let a = v.idx-le in let b = v.start_small in omega arith

  rebase :
      (x : Item) {k : ℕ}
      → ltb now x.expire_time ≡ true
      → ltb (now - w.start + 1) w.item_size ≡ true
      → IsHome w k x
      → taken.start_idx + (x.expire_time - now) ≡ w.start_idx + (x.expire_time - w.start)
  rebase x e e' home = omega (arith, ltb→lt _ _ e, idx_taken (ltb→lt _ _ e'))

  IsHome-taken :
      (k : ℕ) (x : Item)
      → k < w.item_size
      → IsHome w k x
      → ((now < x.expire_time) × IsHome taken k x) ⊎ (slots' k ≡ [])
  IsHome-taken k x lt home = elim (Bool-cases (ltb now x.expire_time)) [
    | inr e ↦ inr (due_cleared k x lt home (ground arith))
    | inl e ↦ elim (Bool-cases (ltb (now - w.start + 1) w.item_size)) [
      | inr e' ↦ inr (all_cleared (ground arith) k lt)
      | inl e' ↦ inl (
        ground arith,
        record {
          in_list = home.in_list;
          not_past = ground arith;
          small = home.small;
          slot = ap (λ i. i % w.item_size) (rebase x e e' home) ∙ home.slot;
        },
      )
    ]
  ]

  left_in :
      (k : ℕ) → k < w.item_size → All (λ x. (now < x.expire_time) × IsHome taken k x) (slots' k)
  left_in k lt = elim (j.kept k) [
    | inr e ↦ rw e tt
    | inl e ↦
        elim (All-or (IsHome w k) (λ x. (now < x.expire_time) × IsHome taken k x) (slots' k ≡ [])
          (λ x home. IsHome-taken k x lt home) (w.items k) (v.home k lt)) [
            | inl all ↦ rw e all
            | inr e' ↦ rw e' tt
          ]
  ]

  taken-IsValid : IsValid taken
  taken-IsValid = record {
    started = ground arith;
    start_small = small;
    size_pos = v.size_pos;
    size_int = v.size_int;
    size_dvd = v.size_dvd;
    idx-le = let a = v.idx-le in let b = v.start_small in let c = v.size_pos in omega arith;
    home = λ k lt. All-map _ (IsHome taken k) (λ x p. p.1) (slots' k) (left_in k lt);
  }

take_expired-Taken :
    {w : Wheel} (now : ℕ) (res : List Item)
    → IsValid w
    → w.start ≤ now
    → now < 2 ^ 63
    → now - w.start + 1 < 2 ^ 31
    → All IsSmall res
    → (w' : Wheel) × (out : List Item) × (take_expired w now res ≡ some (w', out))
      × Taken w now res w' out
unfolding take_expired
take_expired-Taken {w} now res v h small jump fits =
    let (slots', out, e, j) =
      join_slots-Joined w.item_size (due_slots w now) w.start_idx w.items res v.size_pos
        (let a = v.idx-le in omega arith) in
    (
      taken now v h small j,
      out,
      rw (le→ltb_false now w.start h, slot_count_lem now v h small jump, e) refl,
      record {
        valid = taken-IsValid now v h small j;
        at_now = refl;
        same_size = refl;
        future =
            stored-All _ slots' w.item_size
              (λ k lt. All-map _ _ (λ x p. p.0) (slots' k) (left_in now v h small j k lt));
        moved = j.moved;
        small =
            j.small
              (λ k lt.
                All-map (IsHome w k) IsSmall (λ x home. home.small) (w.items k) (v.home k lt))
              fits;
      },
    )

take_all_timeout-started :
    (w : Wheel) (now : ℕ) (res : List Item)
    → 0 < w.start
    → take_all_timeout w now res ≡ take_expired w now res
unfolding take_all_timeout
take_all_timeout-started w now res h =
    ap (λ u. take_expired u now res) (ensure_started_lem {w = w} now h)

-- On a valid wheel, at a time that is not before the last call, below 2^63 and less than 2^31 - 1
-- milliseconds after it, with 64-bit times in the list that it is given, TakeAllTimeout returns without a fault; the wheel is valid again and starts
-- at that time; the times in the result are 64-bit; every item left in it is due later; and the result with the items left is, up to
-- order, the list that was given with the items that were there.
pub take_all_timeout-Taken :
    {w : Wheel} (now : ℕ) (res : List Item)
    → IsValid w
    → w.start ≤ now
    → now < 2 ^ 63
    → now - w.start + 1 < 2 ^ 31
    → All IsSmall res
    → (w' : Wheel) × (out : List Item) × (take_all_timeout w now res ≡ some (w', out))
      × Taken w now res w' out
take_all_timeout-Taken {w} now res v h small jump fits =
    rw (take_all_timeout-started w now res v.started)
      (take_expired-Taken now res v h small jump fits)

take_expired_jump :
    (w : Wheel) (now : ℕ) (res : List Item)
    → w.start ≤ now
    → now < u64_mod
    → 2 ^ 31 ≤ now - w.start + 1
    → now - w.start + 1 < 2 ^ 32
    → take_expired w now res ≡ some (w, res)
unfolding take_expired
take_expired_jump w now res h small low high = ground arith

-- Between 2^31 - 1 and 2^32 - 2 milliseconds after the last call the count of slots is negative as
-- an int: TakeAllTimeout takes no item, also none that is due, and does not advance the wheel.
pub take_all_timeout_jump :
    (w : Wheel) (now : ℕ) (res : List Item)
    → 0 < w.start
    → now < u64_mod
    → 2 ^ 31 ≤ now - w.start + 1
    → now - w.start + 1 < 2 ^ 32
    → take_all_timeout w now res ≡ some (w, res)
take_all_timeout_jump w now res started small low high =
    take_all_timeout-started w now res started
    ∙ take_expired_jump w now res (omega arith) small low high
