-- ===== src/Fiber/Link/Join.antt =====
-- Join puts the items of one list behind those of another.
use piorun.Prelude.{
  ℕ, zero, suc, ◌<◌, ◌≡◌, refl, sym, ap, ◌∙◌, subst, inl, inr, List, [], ◌∷◌, ◌++◌, append-nil,
  Option, none, some, false, Bool-cases, arith, ◌==◌, length,
}
use piorun.Fiber.Link.{Ends, Memory, set_next, set_prev, set_link, relink, splice, join_from, join}
use piorun.Fiber.Link.Seg.{
  first, last, has, Seg, has-append, first-append, last-append, last-cases, frame, Apart, Seg-link,
  Seg-join,
}
use piorun.Fiber.Link.Keeps.{IsList, ends, set_end-Seg, set_begin-Seg, other_than, has-last}
use piorun.Fiber.Link.Cut.{ends_eq}

-- The loop, on items that stand in list `k`.
record Relinked (m m' : Memory) (l : ℕ) (p : Option ℕ) (ys : List ℕ) : Type 0 where
  lists : m'.list ≡ m.list
  items : Seg m'.item l p ys none
  others : (a : ℕ) → has a ys ≡ false → m'.item a ≡ m.item a

relink-Relinked :
    (fuel : ℕ) (m : Memory) (l k : ℕ) (p : Option ℕ) (ys : List ℕ)
    → length ys < fuel
    → Seg m.item k p ys none
    → (m' : Memory) × (relink fuel m l (first ys none) ≡ some m') × Relinked m m' l p ys
unfolding relink
relink-Relinked zero m l k p ys h s = absurd (omega arith)
relink-Relinked (suc fuel) m l k p [] h s =
    (m, refl, record { lists = refl; items = tt; others = λ a o. refl })
relink-Relinked (suc fuel) m l k p (y ∷ ys) h (i, o, s) =
    let m₁ = set_link m y (some l) in
    let next : (m₁.item y).next ≡ first ys none = ground (arith, i) in
    let (m', made, r) = relink-Relinked fuel m₁ l k (some y) ys (omega arith) (
      frame m.item m₁.item k (some y) ys none
        (λ a b. let off = other_than a y ys b o in ground arith) s) in
    (
      m',
      rw next made,
      record {
        lists = r.lists;
        items = (r.others y o ∙ ground (arith, i), o, r.items);
        others = λ a b. r.others a (ground arith) ∙ ground arith;
      },
    )

-- `m'` is `m` but for the items `xs` and the two lists.
pub record Within2 (l k : ℕ) (xs : List ℕ) (m m' : Memory) : Type 0 where
  pub items : (a : ℕ) → has a xs ≡ false → m'.item a ≡ m.item a
  pub lists : (j : ℕ) → (j == l) ≡ false → (j == k) ≡ false → m'.list j ≡ m.list j

abbrev Joined : Memory → Memory → ℕ → ℕ → List ℕ → Type 0
Joined m m' l k xs = IsList m' l xs × IsList m' k [] × Within2 l k xs m m'

splice-first :
    (m : Memory) (l k y : ℕ) (ys : List ℕ)
    → (k == l) ≡ false
    → m.list k ≡ ends (y ∷ ys)
    → Seg m.item l none (y ∷ ys) none
    → Joined m (splice m l k none y) l k (y ∷ ys)
unfolding splice
splice-first m l k y ys d e s = (
  (ground (arith, e), s),
  (ground arith, tt),
  record { items = λ a o. refl; lists = λ j a b. ground arith },
)

splice-behind :
    (m : Memory) (l k : ℕ) (zs : List ℕ) (t y : ℕ) (ys : List ℕ)
    → (k == l) ≡ false
    → m.list l ≡ ends (zs ++ (t ∷ []))
    → m.list k ≡ ends (y ∷ ys)
    → Seg m.item l none (zs ++ (t ∷ [])) none
    → Seg m.item l none (y ∷ ys) none
    → Apart (zs ++ (t ∷ [])) (y ∷ ys)
    → Joined m (splice m l k (some t) y) l k ((zs ++ (t ∷ [])) ++ (y ∷ ys))
unfolding splice
splice-behind m l k zs t y ys d el ek s₁ s₂ apart =
    let xs = zs ++ (t ∷ []) in
    let m₁ = set_next m t (some y) in
    let m₂ = set_prev m₁ y (some t) in
    let out = apart t (has-last zs t) in
    let heads : (m.list l).head ≡ first xs (some y) =
      ap (λ (r : Ends). r.head) el
      ∙ first-append zs (t ∷ []) none
      ∙ sym (first-append zs (t ∷ []) (some y)) in
    let list_l : (splice m l k (some t) y).list l
        ≡ record { head = (m.list l).head; tail = (m.list k).tail } =
      list_joined m l k t y d in
    let before = last-append none zs (t ∷ []) in
    let front : Seg m₁.item l none xs (some y) = set_end-Seg m.item l none zs t none (some y) s₁ in
    let back : Seg m₁.item l none (y ∷ ys) none =
      frame m.item m₁.item l none (y ∷ ys) none
        (λ a b. let off = other_than a t (y ∷ ys) b out in ground arith) s₂ in
    (
      (
        list_l
            ∙ ends_eq (heads ∙ sym (first-append xs (y ∷ ys) none))
                (ap (λ (r : Ends). r.tail) ek ∙ sym (last-append none xs (y ∷ ys) ∙ refl)),
        Seg-join m₂.item l none xs (y ∷ ys) none
            (frame m₁.item m₂.item l none xs (some y) (λ a b. let off = apart a b in ground arith)
              front)
            (subst (λ p. Seg m₂.item l p (y ∷ ys) none) (sym before)
              (set_begin-Seg m₁.item l none (some t) y ys none back))
            apart,
      ),
      (list_emptied m l k t y, tt),
      record {
        items = λ a o. spared m a zs t y ys o;
        lists = λ j a b. other_lists m l k t y j a b;
      },
    )
  where
    list_joined :
        (m : Memory) (l k t y : ℕ)
        → (k == l) ≡ false
        → (splice m l k (some t) y).list l
          ≡ record { head = (m.list l).head; tail = (m.list k).tail }
    list_joined m l k t y d = ground arith

    list_emptied : (m : Memory) (l k t y : ℕ) → (splice m l k (some t) y).list k ≡ ends []
    list_emptied m l k t y = ground arith

    other_lists :
        (m : Memory) (l k t y j : ℕ)
        → (j == l) ≡ false
        → (j == k) ≡ false
        → (splice m l k (some t) y).list j ≡ m.list j
    other_lists m l k t y j a b = ground arith

    spared :
        (m : Memory) (a : ℕ) (zs : List ℕ) (t y : ℕ) (ys : List ℕ)
        → has a ((zs ++ (t ∷ [])) ++ (y ∷ ys)) ≡ false
        → (set_prev (set_next m t (some y)) y (some t)).item a ≡ m.item a
    spared m a zs t y ys o =
        ground (arith, has-append a (zs ++ (t ∷ [])) (y ∷ ys), has-append a zs (t ∷ []))

splice-Joined :
    (m : Memory) (l k : ℕ) (xs : List ℕ) (y : ℕ) (ys : List ℕ)
    → (k == l) ≡ false
    → m.list l ≡ ends xs
    → m.list k ≡ ends (y ∷ ys)
    → Seg m.item l none xs none
    → Seg m.item l none (y ∷ ys) none
    → Apart xs (y ∷ ys)
    → Joined m (splice m l k (last none xs) y) l k (xs ++ (y ∷ ys))
splice-Joined m l k xs y ys d el ek s t apart = elim (last-cases xs) [
  | inl empty ↦
      subst (λ zs. Joined m (splice m l k (last none zs) y) l k (zs ++ (y ∷ ys))) (sym empty)
        (splice-first m l k y ys d ek t)
  | inr (zs, z, e) ↦
      subst (λ ws. Joined m (splice m l k (last none ws) y) l k (ws ++ (y ∷ ys))) (sym e)
        (subst (λ p. Joined m (splice m l k p y) l k ((zs ++ (z ∷ [])) ++ (y ∷ ys)))
          (sym (last-append none zs (z ∷ [])))
          (splice-behind m l k zs z y ys d (el ∙ ap ends e) ek
            (subst (λ ws. Seg m.item l none ws none) e s) t
            (subst (λ ws. Apart ws (y ∷ ys)) e apart)))
]

-- Lists that are not the same have no item in common.
pub lists-Apart :
    (m : Memory) (l k : ℕ) (xs ys : List ℕ)
    → (k == l) ≡ false
    → Seg m.item l none xs none
    → Seg m.item k none ys none
    → Apart xs ys
lists-Apart m l k xs ys d s t a i = elim (Bool-cases (has a ys)) [
  | inl h ↦
      let one = Seg-link m.item l none xs none a s i in
      let other = Seg-link m.item k none ys none a t h in
      let same : k ≡ l = ground arith in ground arith
  | inr h ↦ h
]

-- The items of list `k` go behind those of list `l`, which is another.
pub join-Joined :
    (fuel : ℕ) (m : Memory) (l k : ℕ) (xs ys : List ℕ)
    → length ys < fuel
    → (k == l) ≡ false
    → IsList m l xs
    → IsList m k ys
    → (m' : Memory) × (join fuel m l k ≡ some m')
      × IsList m' l (xs ++ ys)
      × IsList m' k []
      × Within2 l k (xs ++ ys) m m'
unfolding join join_from
join-Joined fuel m l k xs [] h d (el, s) (ek, t) = (
  m,
  rw ek refl,
  (
    el ∙ ap ends (sym (append-nil xs)),
    subst (λ zs. Seg m.item l none zs none) (sym (append-nil xs)) s,
  ),
  (ek, tt),
  record { items = λ a o. refl; lists = λ j a b. refl },
)
join-Joined fuel m l k xs (y ∷ ys) h d (el, s) (ek, t) =
    let apart = lists-Apart m l k xs (y ∷ ys) d s t in
    let (m₁, made, r) = relink-Relinked fuel m l k none (y ∷ ys) h t in
    let list_l = ap (λ f. f l) r.lists ∙ el in
    let list_k = ap (λ f. f k) r.lists ∙ ek in
    let (isl, isk, w) =
      splice-Joined m₁ l k xs y ys d list_l list_k
        (frame m.item m₁.item l none xs none (λ a i. r.others a (apart a i)) s) r.items apart in
    (
      splice m₁ l k (last none xs) y,
      rw (ek, made, list_l) refl,
      isl,
      isk,
      record {
        items = λ a o. w.items a o ∙ r.others a (ground (arith, has-append a xs (y ∷ ys)));
        lists = λ j a b. w.lists j a b ∙ ap (λ f. f j) r.lists;
      },
    )
