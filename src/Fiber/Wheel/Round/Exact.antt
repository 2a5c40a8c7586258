-- ===== src/Fiber/Wheel/Round/Exact.antt =====
-- A whole round: exactly the timers that are due run, and the others stay in the wheel.
use mathlib.Core.List.{map-append, perm-append_left_iff}
use mathlib.Core.List.Perm
use piorun.Prelude.{
  ℕ, ◌+◌, ◌-◌, ◌^◌, ◌≤◌, ◌<◌, ◌≡◌, refl, sym, ap, ◌∙◌, inl, inr, List, [], ◌∷◌, ◌++◌, Perm,
  append_assoc, Bool-cases, true, false, All, All-append, some, subst, some_inj,
}
use piorun.Fiber.Wheel.{
  Item, Wheel, add_timeout, take_all_timeout, mark_timeout, run_active, timer_round,
}
use piorun.Fiber.Wheel.Take.{stored, IsSmall, perm_swap_front}
use piorun.Fiber.Wheel.Valid.{IsValid}
use piorun.Fiber.Wheel.Expire.{Taken, take_all_timeout-Taken}
use piorun.Fiber.Wheel.Round.{
  IsAt, Keeps, retries, run_active-retry, run_active-fire, add_again, retry_item,
}
use piorun.Fiber.Wheel.Round.Due.{
  key, keys, keys_in, unlink, timer_round-Halved, mark_timeout-IsSmall,
}

pub keys_in-again :
    {w : Wheel} (x : Item) (now : ℕ)
    → IsAt now w
    → IsSmall x
    → retries now x ≡ true
    → Perm (key x ∷ keys_in w) (keys_in (add_timeout w (retry_item x) now).1)
keys_in-again {w} x now a small r =
    let (_, _, z, m, p) = add_again {w = w} x now a small r in
    let w' = (add_timeout w (retry_item x) now).1 in
    rw z (
      subst (λ k. Perm (k ∷ keys_in w) (keys (stored w'.items w.item_size))) (ap key m)
        (Perm.map key p))

-- The timers that the callbacks of some items set.
pub set_by : (Item → List (ℕ × ℕ)) → List Item → List (ℕ × ℕ)
set_by sets [] = []
set_by sets (x ∷ xs) = sets x ++ set_by sets xs

-- The callback of an item sets the timers that `sets` gives for it, and does nothing else to the wheel.
abbrev pub Adds : (Item → Wheel → Wheel) → ℕ → (Item → List (ℕ × ℕ)) → Type 0
Adds process now sets =
    (x : Item) (w : Wheel) → IsAt now w → Perm (sets x ++ keys_in w) (keys_in (process x w))

-- `a` is moved behind two lists, where it joins what is there.
perm_join {ℓ} :
    {A : Type ℓ} (a b c d : List A) {e : List A}
    → Perm (a ++ d) e
    → Perm ((a ++ b) ++ (c ++ d)) (b ++ (c ++ e))
perm_join a b c d {e} h = rw (append_assoc a b (c ++ d)) (
    Perm.trans (perm_swap_front a b (c ++ d))
      (Perm.append_left b (Perm.trans (perm_swap_front a c d) (Perm.append_left c h))))

module _ (process : Item → Wheel → Wheel) (now : ℕ) (sets : Item → List (ℕ × ℕ))
    (keep : Keeps process now) (adds : Adds process now sets) where
  run_active-balance :
      (xs : List Item) (w : Wheel)
      → IsAt now w
      → All IsSmall xs
      → let (w', out) = run_active process w now xs in
        Perm (set_by sets out ++ (keys xs ++ keys_in w)) (keys out ++ keys_in w')
  unfolding set_by
  run_active-balance [] w a s = unfold run_active in Perm.refl _
  run_active-balance (x ∷ xs) w a s = elim (Bool-cases (retries now x)) [
    | inl r ↦
        let (e, a', _, _, _) = add_again {w = w} x now a s.0 r in
        rw (run_active-retry process now w x xs r e) (
          Perm.trans
            (Perm.append_left _ (
              Perm.trans (perm_swap_front (key x ∷ []) (keys xs) (keys_in w))
                (Perm.append_left (keys xs) (keys_in-again {w = w} x now a s.0 r))))
            (run_active-balance xs (add_timeout w (retry_item x) now).1 a' s.1))
    | inr r ↦
        let lp = record x { linked = false } in
        rw (run_active-fire process now w x xs r) (
          Perm.trans
            (perm_swap_front (set_by sets (lp ∷ (run_active process (process lp w) now xs).1))
              (key x ∷ []) (keys xs ++ keys_in w))
            (Perm.cons (key x) (
              Perm.trans (perm_join (sets lp) _ (keys xs) (keys_in w) (adds lp w a))
                (run_active-balance xs (process lp w) (keep lp w a) s.1))))
  ]

keys-mark : (xs : List Item) → keys (mark_timeout xs) ≡ keys xs
unfolding mark_timeout
keys-mark [] = refl
keys-mark (x ∷ xs) = ap (λ l. key x ∷ l) (keys-mark xs)

keys-unlink : (xs : List Item) → keys (unlink xs) ≡ keys xs
keys-unlink [] = refl
keys-unlink (x ∷ xs) = ap (λ l. key x ∷ l) (keys-unlink xs)

keys_in-taken :
    {w w' : Wheel} {now : ℕ} {expired : List Item}
    → Taken w now [] w' expired
    → Perm (keys_in w) (keys (mark_timeout expired) ++ keys_in w')
keys_in-taken {w} {w'} {now} {expired} t =
    rw (t.same_size, keys-mark expired, ← map-append key expired (stored w'.items w.item_size))
      (Perm.map key t.moved)

without_ran :
    (out active ran w w' waiting : List (ℕ × ℕ))
    → Perm (out ++ (active ++ w)) (active ++ (ran ++ w'))
    → Perm w (ran ++ waiting)
    → Perm (out ++ waiting) w'
without_ran out active ran w w' waiting h split = (perm-append_left_iff ran).0 (
    Perm.trans (Perm.symm (perm_swap_front out ran waiting)) (
      Perm.trans (Perm.append_left out (Perm.symm split)) (
        (perm-append_left_iff active).0 (Perm.trans (Perm.symm (perm_swap_front out active w)) h))))

timer_round-taken :
    (process : Item → Wheel → Wheel) (now : ℕ) (w : Wheel) {w₁ : Wheel} (active : List Item)
    {expired : List Item}
    → take_all_timeout w now [] ≡ some (w₁, expired)
    → timer_round process w now active
      ≡ some (run_active process w₁ now (active ++ mark_timeout expired))
unfolding timer_round
timer_round-taken process now w active e = rw (e, timer_round) refl

-- What a round on the wheel `w` leaves: the timers that it ran, those that wait, and the wheel `w'` with
-- those that wait and those that were set.
pub record Rounded (now : ℕ) (w w' : Wheel) (ran : List Item) (set : List (ℕ × ℕ)) : Type 0 where
  pub at_now : IsAt now w'
  pub due : All (λ x. x.expire_time ≤ now) ran
  pub waiting : List (ℕ × ℕ)
  pub future : All (λ k. now < k.1) waiting
  pub split : Perm (keys_in w) (keys ran ++ waiting)
  pub held : Perm (set ++ waiting) (keys_in w')

module _ (process : Item → Wheel → Wheel) (now : ℕ) (sets : Item → List (ℕ × ℕ)) {w : Wheel}
    (active : List Item) (keep : Keeps process now) (adds : Adds process now sets) where
  -- A round only moves timers, but for those that the callbacks set.
  timer_round-balance :
      {w' w₁ : Wheel} {out expired : List Item}
      → Taken w now [] w₁ expired
      → All IsSmall active
      → run_active process w₁ now (active ++ mark_timeout expired) ≡ (w', out)
      → Perm (set_by sets out ++ (keys active ++ keys_in w)) (keys out ++ keys_in w')
  timer_round-balance {w'} {w₁} {out} {expired} t s e =
      let all = active ++ mark_timeout expired in
      let moved : Perm (keys active ++ keys_in w) (keys all ++ keys_in w₁) =
        rw
          (
            map-append key active (mark_timeout expired),
            append_assoc (keys active) (keys (mark_timeout expired)) (keys_in w₁),
          )
          (Perm.append_left (keys active) (keys_in-taken {w = w} {w' = w₁} t)) in
      Perm.trans (Perm.append_left (set_by sets out) moved) (
        subst
          (λ (o : Wheel × List Item).
            Perm (set_by sets o.1 ++ (keys all ++ keys_in w₁)) (keys o.1 ++ keys_in o.0))
          e
          (run_active-balance process now sets keep adds all w₁
            (record { valid = t.valid; at_now = t.at_now })
            (All-append IsSmall active (mark_timeout expired) s
              (mark_timeout-IsSmall expired (t.small)))))

  -- In a round at time `now` on a valid wheel (no earlier than its last call, below 2^63, and less than
  -- 2^31 - 1 milliseconds later), with arrived items that are not marked as timed out and have times below
  -- 2^64, and callbacks that keep the wheel valid and of which each sets the timers that `sets` gives and
  -- takes none out: the round returns; the callbacks of the arrived items run first, in order; then run
  -- timers that are due, and those and the timers that wait, each due later than `now`, are up to order
  -- the timers that were in the wheel; and the wheel then holds, up to order, the timers that wait and
  -- those that the callbacks set.
  pub timer_round-Rounded :
      IsValid w
      → w.start ≤ now
      → now < 2 ^ 63
      → now - w.start + 1 < 2 ^ 31
      → All (λ x. x.timed_out ≡ false) active
      → All IsSmall active
      → (w' : Wheel) × (ran : List Item) × (timer_round process w now active
          ≡ some (w', unlink active ++ ran))
        × Rounded now w w' ran (set_by sets (unlink active ++ ran))
  timer_round-Rounded v begun small jump fresh s =
      let (w₁, expired, e₁, t) = take_all_timeout-Taken {w = w} now [] v begun small jump tt in
      let (w', ran, e, r) =
        timer_round-Halved process now {w = w} active keep v begun small jump fresh s in
      let all =
        timer_round-balance {w' = w'} {w₁ = w₁} t s
          (some_inj _ _ (sym (timer_round-taken process now w active e₁) ∙ e)) in
      (
        w',
        ran,
        e,
        record {
          at_now = r.at_now;
          due = r.due;
          waiting = r.waiting;
          future = r.future;
          split = r.split;
          held =
              without_ran _ (keys active) (keys ran) (keys_in w) (keys_in w') r.waiting
                (rw
                  (
                    map-append key (unlink active) ran,
                    keys-unlink active,
                    append_assoc (keys active) (keys ran) (keys_in w'),
                  )
                  at all)
                r.split;
        },
      )
