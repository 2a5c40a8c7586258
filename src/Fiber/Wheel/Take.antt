-- ===== src/Fiber/Wheel/Take.antt =====
-- The loop of TakeAllTimeout over the slots: what it empties, what it leaves, and where the items go.
use mathlib.Core.List.{perm_append_comm}
use mathlib.Core.List.Perm
use native.Mathlib.Nat.{mod-lt, mod-eq_of_lt, add-mod-mod, mod-add-mod, add-mod_right}
use piorun.Prelude.{
  ℕ, zero, suc, ◌+◌, ◌-◌, ◌%◌, ◌^◌, ◌≤◌, ◌<◌, ◌≡◌, refl, sym, ap, ◌∙◌, ◌⊎◌, inl, inr, List, [],
  ◌++◌, Perm, append_assoc, some, arith, ◌==◌, Bool-cases, All, All-append, ==_iff, lt→ltb,
}
use piorun.Fiber.Wheel.{Item, u64_mod, update, take_index, join_slots}

-- The items of the slots below `n`.
unfoldable pub stored : (ℕ → List Item) → ℕ → List Item
stored slots zero = []
stored slots (suc n) = slots n ++ stored slots n

pub stored-All {κ} :
    (P : Item → Type κ) (slots : ℕ → List Item) (n : ℕ)
    → ((j : ℕ) → j < n → All P (slots j))
    → All P (stored slots n)
unfolding stored
stored-All P slots zero h = tt
stored-All P slots (suc n) h =
    All-append P (slots n) (stored slots n) (h n (omega arith))
      (stored-All P slots n (λ j lt. h j (omega arith)))

stored-update_ge :
    (slots : ℕ → List Item) (idx : ℕ) (l : List Item) (n : ℕ)
    → n ≤ idx
    → stored (update slots idx l) n ≡ stored slots n
unfolding stored
stored-update_ge slots idx l zero h = refl
stored-update_ge slots idx l (suc n) h =
    ground (arith, stored-update_ge slots idx l n (omega arith))

module _ {ℓ} {A : Type ℓ} where
  pub perm_swap_front : (xs ys zs : List A) → Perm (xs ++ (ys ++ zs)) (ys ++ (xs ++ zs))
  perm_swap_front xs ys zs =
      rw (← append_assoc xs ys zs, ← append_assoc ys xs zs)
        (Perm.append_right zs (perm_append_comm xs ys))

-- Emptying a slot takes its items out of the store, and nothing else.
pub stored-update_perm :
    (slots : ℕ → List Item) (idx n : ℕ)
    → idx < n
    → (l : List Item) → Perm (l ++ stored slots n) (slots idx ++ stored (update slots idx l) n)
unfolding stored
stored-update_perm slots idx zero h l = absurd (omega arith)
stored-update_perm slots idx (suc n) h l = elim (Bool-cases (n == idx)) [
  | inl e ↦
      let same : n ≡ idx = (==_iff n idx).0 e in
      rw (e, stored-update_ge slots idx l n (omega arith), ap slots same)
        (perm_swap_front l (slots idx) (stored slots n))
  | inr e ↦ rw e (
      Perm.trans (perm_swap_front l (slots n) (stored slots n)) (
        Perm.trans (Perm.append_left (slots n) (stored-update_perm slots idx n (ground arith) l))
          (perm_swap_front (slots n) (slots idx) (stored (update slots idx l) n))))
]

take_index_small : (p size : ℕ) → p < 2 ^ 63 → take_index p size ≡ some (p % size)
unfolding take_index
take_index_small p size h = rw (lt→ltb p (2 ^ 63) h)

-- The time of the item is a uint64_t.
abbrev pub IsSmall : Item → Type 0
IsSmall x = x.expire_time < u64_mod

-- What the loop over `n` slots from sum `p` on has done.
pub record Joined (size n p : ℕ) (slots : ℕ → List Item) (res : List Item) (slots' : ℕ → List Item)
    (out : List Item) : Type 0 where
  pub cleared : (i : ℕ) → i < n → slots' ((p + i) % size) ≡ []
  pub kept : (j : ℕ) → (slots' j ≡ slots j) ⊎ (slots' j ≡ [])
  pub moved : Perm (res ++ stored slots size) (out ++ stored slots' size)
  pub small : ((j : ℕ) → j < size → All IsSmall (slots j)) → All IsSmall res → All IsSmall out

join_slots-step :
    (size n p : ℕ) (slots : ℕ → List Item) (res : List Item)
    → p + 1 ≤ 2 ^ 63
    → join_slots size (suc n) p slots res
      ≡ join_slots size n (p + 1) (update slots (p % size) []) (res ++ slots (p % size))
unfolding join_slots
join_slots-step size n p slots res h =
    rw (take_index_small p size (omega arith), join_slots)
      (ap (λ k. join_slots size n k (update slots (p % size) []) (res ++ slots (p % size)))
        (omega arith))

module _ (size n p : ℕ) (slots : ℕ → List Item) (res : List Item) (slots' : ℕ → List Item)
    (out : List Item) (lt : 0 < size)
    (rest : Joined size n
      (p + 1)
      (update slots (p % size) [])
      (res ++ slots (p % size))
      slots'
      out) where
  cleared_here : slots' (p % size) ≡ []
  cleared_here = ground (arith, rest.kept (p % size))

  cleared-step : (i : ℕ) → i < suc n → slots' ((p + i) % size) ≡ []
  cleared-step zero h = ap (λ k. slots' (k % size)) (omega arith) ∙ cleared_here
  cleared-step (suc i) h = ap (λ k. slots' (k % size)) (omega arith) ∙ rest.cleared i (omega arith)

  kept-step : (j : ℕ) → (slots' j ≡ slots j) ⊎ (slots' j ≡ [])
  kept-step j = ground (arith, rest.kept j)

  moved-step : Perm (res ++ stored slots size) (out ++ stored slots' size)
  moved-step =
      Perm.trans (Perm.append_left res (stored-update_perm slots (p % size) size (mod-lt p lt) []))
        (rw (← append_assoc res (slots (p % size)) (stored (update slots (p % size) []) size))
          rest.moved)

  IsSmall-step : ((j : ℕ) → j < size → All IsSmall (slots j)) → All IsSmall res → All IsSmall out
  IsSmall-step h k =
      rest.small
        (λ j lt'. elim (Bool-cases (j == p % size)) [ inl e ↦ rw e tt | inr e ↦ rw e (h j lt') ])
        (All-append IsSmall res (slots (p % size)) k (h (p % size) (mod-lt p lt)))

  Joined-step : Joined size (suc n) p slots res slots' out
  Joined-step = record {
    cleared = cleared-step;
    kept = kept-step;
    moved = moved-step;
    small = IsSmall-step;
  }

-- The loop finishes without a fault, and empties exactly slots that it names.
pub join_slots-Joined :
    (size n p : ℕ) (slots : ℕ → List Item) (res : List Item)
    → 0 < size
    → p + n ≤ 2 ^ 63
    → (slots' : ℕ → List Item) × (out : List Item) × (join_slots size n p slots res
        ≡ some (slots', out))
      × Joined size n p slots res slots' out
join_slots-Joined size zero p slots res h k = (
  slots,
  res,
  unfold join_slots in refl,
  record {
    cleared = λ i lt. absurd (omega arith);
    kept = λ j. inl refl;
    moved = Perm.refl _;
    small = λ _ r. r;
  },
)
join_slots-Joined size (suc n) p slots res h k =
    let idx = p % size in
    let (slots', out, e, j) =
      join_slots-Joined size n (p + 1) (update slots idx []) (res ++ slots idx) h (omega arith) in
    (
      slots',
      out,
      join_slots-step size n p slots res (omega arith) ∙ e,
      Joined-step size n p slots res slots' out h j,
    )

-- Any slot is reached from any start within one turn of the wheel.
pub turn_reaches :
    (size p j : ℕ) → 0 < size → j < size → (i : ℕ) × (i < size) × ((p + i) % size ≡ j)
turn_reaches size p j h k = ((j + size - p % size) % size, mod-lt _ h, turn)
  where
    turn : (p + (j + size - p % size) % size) % size ≡ j
    turn =
        add-mod-mod p (j + size - p % size) size
        ∙ sym (mod-add-mod p size (j + size - p % size))
        ∙ ap (λ k. k % size) (omega (arith, mod-lt p h))
        ∙ add-mod_right j size
        ∙ mod-eq_of_lt k
