-- ===== src/Fiber/Wheel.antt =====
-- The time wheel of src/piorun/fiber/fiber.cc: StTimeout and the part of threadRoutine that takes
-- the expired items and runs them. A slot's linked list is the list of its items, in order.
pub mod Take
pub mod Valid
pub mod Add
pub mod Expire
pub mod Round
pub mod Tests
use piorun.Prelude.{
  ℕ, zero, suc, ◌+◌, ◌-◌, ◌*◌, ◌%◌, ◌^◌, List, [], ◌∷◌, ◌++◌, Option, none, some, Bool, true, false,
  ◌&&◌, ◌||◌, ltb, leb, ◌==◌, if◌then◌else◌,
}

abbrev pub u64_mod : ℕ
u64_mod = 2 ^ 64

-- StTimeoutItem, without its list pointers: `linked` says that `pLink` is set.
pub record Item : Type 0 where
  pub id : ℕ
  pub expire_time : ℕ
  pub is_delay_active : Bool
  pub timed_out : Bool
  pub linked : Bool

-- StTimeout. The slots are a function of the index; only indices below `item_size` are used.
-- `start_idx` is the bit pattern of the int64_t.
pub record Wheel : Type 0 where
  pub items : ℕ → List Item
  pub item_size : ℕ
  pub start : ℕ
  pub start_idx : ℕ

-- StTimeoutItemLink::AddTail on the list of items: an item that is in a list already is left there.
abbrev pub add_tail : Item → List Item → List Item
add_tail x l = if x.linked then l else l ++ (record x { linked = true } ∷ [])

abbrev pub update : (ℕ → List Item) → ℕ → List Item → ℕ → List Item
update slots idx l k = if k == idx then l else slots k

-- The constructor, with the time that GetTickMS returns.
pub init : ℕ → ℕ → Wheel
init size now = record { items = λ _. []; item_size = size; start = now; start_idx = 0 }

-- `if (ullStart_ == 0) { ullStart_ = allNow; llStartIdx_ = 0; }`
pub ensure_started : Wheel → ℕ → Wheel
ensure_started w now = if w.start == 0 then record w { start = now; start_idx = 0 } else w

pub data Status : Type 0 where
  ok rejected : Status

-- The slot of a time: the sum of the int64_t index and the uint64_t difference is a uint64_t.
abbrev pub slot_of : Wheel → ℕ → ℕ
slot_of w diff = (w.start_idx + diff) % u64_mod % w.item_size

abbrev pub elapsed : Wheel → ℕ → ℕ
elapsed w time = (time + u64_mod - w.start) % u64_mod

-- AddTimeout after the start is set. The item comes back, since it is marked on every path.
pub insert_timeout : Wheel → Item → ℕ → Status × Wheel × Item
insert_timeout w x now =
    let diff = elapsed w x.expire_time in
    let x' = record x { is_delay_active = leb w.item_size diff } in
    if ltb now w.start || ltb x.expire_time now then (rejected, w, x') else (
      ok,
      record w { items = update w.items (slot_of w diff) (add_tail x' (w.items (slot_of w diff))) },
      record x' { linked = true },
    )

pub add_timeout : Wheel → Item → ℕ → Status × Wheel × Item
unfolding insert_timeout ensure_started
add_timeout w x now = insert_timeout (ensure_started w now) x now

-- `int cnt = allNow - ullStart_ + 1`, a 64-bit number cut to a signed 32-bit one and limited to the
-- size. `none` stands for a negative count.
pub slot_count : Wheel → ℕ → Option ℕ
slot_count w now =
    let cnt = (elapsed w now + 1) % 2 ^ 32 in
    if ltb cnt (2 ^ 31) then some (if ltb w.item_size cnt then w.item_size else cnt) else none

-- `(llStartIdx_ + i) % iItemSize_` in int64_t: of a negative sum the remainder is negative or 0,
-- and a negative index is a read outside the array, `none`.
pub take_index : ℕ → ℕ → Option ℕ
take_index sum size =
    if ltb sum (2 ^ 63)
    then some (sum % size)
    else if (u64_mod - sum) % size == 0
    then some 0
    else none

-- The loop `apResult->Join(&pItems_[idx])` over the next `n` slots from index sum `p` on.
pub join_slots : ℕ → ℕ → ℕ → (ℕ → List Item) → List Item → Option ((ℕ → List Item) × List Item)
join_slots size zero p slots res = some (slots, res)
join_slots size (suc n) p slots res = elim (take_index p size) [
  | none ↦ none
  | some idx ↦ join_slots size n ((p + 1) % u64_mod) (update slots idx []) (res ++ slots idx)
]

-- TakeAllTimeout after the start is set; `none` is a fault.
pub take_expired : Wheel → ℕ → List Item → Option (Wheel × List Item)
unfolding slot_count join_slots take_index
take_expired w now res = if ltb now w.start then some (w, res) else elim (slot_count w now) [
  | none ↦ some (w, res)
  | some cnt ↦ elim (join_slots w.item_size cnt w.start_idx w.items res) [
    | none ↦ none
    | some (slots, out) ↦ some (
      record w {
        items = slots;
        start = now;
        start_idx = (w.start_idx + cnt + u64_mod - 1) % u64_mod;
      },
      out,
    )
  ]
]

pub take_all_timeout : Wheel → ℕ → List Item → Option (Wheel × List Item)
unfolding take_expired ensure_started
take_all_timeout w now res = take_expired (ensure_started w now) now res

-- `while (lp) { lp->bTimeout = true; lp = lp->pNext; }`
pub mark_timeout : List Item → List Item
mark_timeout [] = []
mark_timeout (x ∷ xs) = record x { timed_out = true } ∷ mark_timeout xs

-- The loop over the active list. PopHead clears `pLink`. An item that was taken before its time
-- goes back to the wheel, unmarked (AddTimeout does not read the mark, so it is cleared first
-- here); of every other `pfnProcess` is called, in the order of the result. `process` is what that
-- call does to the wheel: the fibers that it resumes may set timers.
pub run_active : (Item → Wheel → Wheel) → Wheel → ℕ → List Item → Wheel × List Item
run_active process w now [] = (w, [])
run_active process w now (x ∷ xs) =
    let lp = record x { linked = false } in
    let due = run_active process (process lp w) now xs in
    let (status, w', lp') = add_timeout w (record lp { timed_out = false }) now in
    let again = run_active process w' now xs in
    let called = record lp' { timed_out = true } in
    let refused = run_active process (process called w') now xs in
    if lp.timed_out && ltb now lp.expire_time
    then elim status [ ok ↦ again | rejected ↦ (refused.0, called ∷ refused.1) ]
    else (due.0, lp ∷ due.1)

-- One round of the event loop: the arrived items `active`, then the expired ones behind them.
pub timer_round : (Item → Wheel → Wheel) → Wheel → ℕ → List Item → Option (Wheel × List Item)
timer_round process w now active = elim (take_all_timeout w now []) [
  | none ↦ none
  | some (w', expired) ↦ some (run_active process w' now (active ++ mark_timeout expired))
]
