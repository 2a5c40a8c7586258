-- ===== src/Fiber/Link/Keeps.antt =====
-- What AddTail and PopHead do to the lists.
use piorun.Prelude.{
  ℕ, ◌≡◌, refl, sym, ap, ◌∙◌, subst, inl, inr, List, [], ◌∷◌, ◌++◌, Option, none, some, true, false,
  Bool-cases, arith, ◌==◌,
}
use piorun.Fiber.Link.{
  Node, Ends, Memory, node_at, set_next, set_prev, same_ptr, append_item, add_tail, pop_item,
  pop_head,
}
use piorun.Fiber.Link.Seg.{
  first, last, has, node, Seg, has-append, first-append, last-append, last-cases, frame, Seg-split,
  Seg-join,
}

abbrev pub ends : List ℕ → Ends
ends xs = record { head = first xs none; tail = last none xs }

-- List `l` holds the items `xs`, in order.
abbrev pub IsList : Memory → ℕ → List ℕ → Type 0
IsList m l xs = (m.list l ≡ ends xs) × Seg m.item l none xs none

-- `m'` is `m` but for the items `xs` and the list `l`.
pub record Within (l : ℕ) (xs : List ℕ) (m m' : Memory) : Type 0 where
  pub items : (a : ℕ) → has a xs ≡ false → m'.item a ≡ m.item a
  pub lists : (k : ℕ) → (k == l) ≡ false → m'.list k ≡ m.list k

pub set_end-Seg :
    (item : ℕ → Node) (l : ℕ) (p : Option ℕ) (zs : List ℕ) (t : ℕ) (n q : Option ℕ)
    → Seg item l p (zs ++ (t ∷ [])) n
    → Seg (node_at item t (record (item t) { next = q })) l p (zs ++ (t ∷ [])) q
set_end-Seg item l p zs t n q s =
    let (s₁, (e, _, _), apart) = Seg-split item l p zs (t ∷ []) n s in
    Seg-join (node_at item t (record (item t) { next = q })) l p zs (t ∷ []) q
      (frame item (node_at item t (record (item t) { next = q })) l p zs (some t)
        (λ a i. ground (arith, apart a i)) s₁)
      (ground arith, refl, tt) apart

pub set_begin-Seg :
    (item : ℕ → Node) (l : ℕ) (p q : Option ℕ) (x : ℕ) (xs : List ℕ) (n : Option ℕ)
    → Seg item l p (x ∷ xs) n
    → Seg (node_at item x (record (item x) { prev = q })) l q (x ∷ xs) n
set_begin-Seg item l p q x xs n (e, out, s) = (
  ground arith,
  out,
  frame item (node_at item x (record (item x) { prev = q })) l (some x) xs n (λ a i. ground arith)
      s,
)

pub other_than : (a x : ℕ) (xs : List ℕ) → has a xs ≡ true → has x xs ≡ false → (a == x) ≡ false
other_than a x xs i out = elim (Bool-cases (a == x)) [
  | inl q ↦ let same : a ≡ x = ground arith in let moved = ap (λ y. has y xs) same in ground arith
  | inr q ↦ q
]

pub has-last : (zs : List ℕ) (t : ℕ) → has t (zs ++ (t ∷ [])) ≡ true
has-last zs t = ground (arith, has-append t zs (t ∷ []))

-- An item behind a segment.
extend :
    (item other : ℕ → Node) (l : ℕ) (xs : List ℕ) (x : ℕ)
    → Seg item l none xs (some x)
    → has x xs ≡ false
    → other x ≡ node (last none xs) none l
    → ((a : ℕ) → (a == x) ≡ false → other a ≡ item a)
    → Seg other l none (xs ++ (x ∷ [])) none
extend item other l xs x s out e same =
    Seg-join other l none xs (x ∷ []) none
      (frame item other l none xs (some x) (λ a i. same a (other_than a x xs i out)) s)
      (e, refl, tt) (λ a i. let differs = other_than a x xs i out in ground arith)

abbrev Added : Memory → ℕ → List ℕ → Memory → Type 0
Added m l ys m' = IsList m' l ys × Within l ys m m'

append_item-first : (m : Memory) (l x : ℕ) → Added m l (x ∷ []) (append_item m l x none)
unfolding append_item
append_item-first m l x = (
  (ground arith, (ground arith, refl, tt)),
  record { items = λ a o. ground arith; lists = λ k o. ground arith },
)

append_item-behind :
    (m : Memory) (l x : ℕ) (zs : List ℕ) (t : ℕ)
    → IsList m l (zs ++ (t ∷ []))
    → has x (zs ++ (t ∷ [])) ≡ false
    → Added m l ((zs ++ (t ∷ [])) ++ (x ∷ [])) (append_item m l x (some t))
unfolding append_item
append_item-behind m l x zs t (e, s) out =
    let there : last none (zs ++ (t ∷ [])) ≡ some t = last-append none zs (t ∷ []) in
    let differs = other_than t x (zs ++ (t ∷ [])) (has-last zs t) out in
    (
      (
        ground (
          arith,
          e,
          first-append (zs ++ (t ∷ [])) (x ∷ []) none,
          first-append zs (t ∷ []) none,
          first-append zs (t ∷ []) (some x),
          last-append none (zs ++ (t ∷ [])) (x ∷ []),
        ),
        extend (set_next m t (some x)).item (append_item m l x (some t)).item l (zs ++ (t ∷ [])) x
            (set_end-Seg m.item l none zs t none (some x) s) out (ground (arith, there))
            (λ a o. ground arith),
      ),
      record {
        items =
            λ a o. ground (arith, has-append a (zs ++ (t ∷ [])) (x ∷ []), has-append a zs (t ∷ []));
        lists = λ k o. ground arith;
      },
    )

append_tail :
    (m : Memory) (l x : ℕ) (xs : List ℕ)
    → IsList m l xs
    → has x xs ≡ false
    → Added m l (xs ++ (x ∷ [])) (append_item m l x (last none xs))
append_tail m l x xs s out = elim (last-cases xs) [
  | inl empty ↦
      subst (λ ys. Added m l (ys ++ (x ∷ [])) (append_item m l x (last none ys))) (sym empty)
        (append_item-first m l x)
  | inr (zs, t, e) ↦
      subst (λ ys. Added m l (ys ++ (x ∷ [])) (append_item m l x (last none ys))) (sym e)
        (rw (last-append none zs (t ∷ []))
          (append_item-behind m l x zs t (subst (IsList m l) e s) (sym (ap (has x) e) ∙ out)))
]

-- An item that is in no list goes to the end.
pub add_tail-IsList :
    (m : Memory) (l x : ℕ) (xs : List ℕ)
    → IsList m l xs
    → has x xs ≡ false
    → (m.item x).link ≡ none
    → Added m l (xs ++ (x ∷ [])) (add_tail m l x)
unfolding add_tail
add_tail-IsList m l x xs (e, s) out free = rw (free, e) (append_tail m l x xs (e, s) out)

pub other_last :
    (x y : ℕ) (ys : List ℕ) → has x (y ∷ ys) ≡ false → same_ptr (some x) (last (some y) ys) ≡ false
other_last x y [] o = ground arith
other_last x y (z ∷ ys) o = other_last x z ys (ground arith)

abbrev pub cleared : Node
cleared = record { prev = none; next = none; link = none }

-- The item at the head leaves the list.
pub pop_head-IsList :
    (m : Memory) (l x : ℕ) (xs : List ℕ)
    → IsList m l (x ∷ xs)
    → IsList (pop_head m l) l xs
      × Within l (x ∷ xs) m (pop_head m l)
      × ((pop_head m l).item x ≡ cleared)
unfolding pop_head pop_item
pop_head-IsList m l x [] (e, (i, o, s)) = (
  (ground (arith, e), tt),
  record { items = λ a o. ground (arith, e); lists = λ k o. ground (arith, e) },
  ground (arith, e),
)
pop_head-IsList m l x (y ∷ ys) (e, (i, o, s)) =
    let m₁ : Memory = record { item = node_at m.item x cleared; list = m.list } in
    let m₂ = set_prev m₁ y none in
    let inner = other_last x y ys o in
    (
      (
        ground (arith, e, i, inner),
        frame m₂.item (pop_head m l).item l none (y ∷ ys) none (λ a h. ground (arith, e, i, inner))
            (set_begin-Seg m₁.item l (some x) none y ys none (
              frame m.item m₁.item l (some x) (y ∷ ys) none
                (λ a h. let differs = other_than a x (y ∷ ys) h o in ground arith) s)),
      ),
      record {
        items = λ a h. ground (arith, e, i, inner);
        lists = λ k h. ground (arith, e, i, inner);
      },
      ground (arith, e, i, inner, o),
    )
