-- ===== src/Fiber/Link/Unlink.antt =====
-- RemoveFromLink of src/piorun/fiber/fiber.cc on a list, for an item anywhere in it.
use piorun.Prelude.{
  ℕ, ◌≡◌, refl, sym, ap, ◌∙◌, subst, inl, inr, List, [], ◌∷◌, ◌++◌, Option, none, some, false,
  arith, ◌==◌,
}
use piorun.Fiber.Link.{
  Memory, set_next, set_prev, set_node, set_tail, is_null, unlink_prev, unlink_next, remove_in,
  remove_from_link,
}
use piorun.Fiber.Link.Seg.{
  first, last, has, Seg, has-append, first-append, last-append, last-cases, frame, Seg-split,
  Seg-join,
}
use piorun.Fiber.Link.Keeps.{
  IsList, Within, set_end-Seg, set_begin-Seg, other_than, other_last, cleared,
}
use piorun.Fiber.Link.Cut.{Apart3, Cut, apart3, ends_eq, unlink_behind, unlink_first}

-- The list without `x`, whose own pointers are still to be cleared.
record Closed (m m' : Memory) (l : ℕ) (xs : List ℕ) (x : ℕ) (ys : List ℕ) : Type 0 where
  ends : m'.list l ≡ record { head = first xs (first ys none); tail = last (last none xs) ys }
  front : Seg m'.item l none xs (first ys none)
  back : Seg m'.item l (last none xs) ys none
  within : Within l (xs ++ (x ∷ ys)) m m'

close_last :
    (m : Memory) (l : ℕ) (xs : List ℕ) (x : ℕ) (q : Option ℕ)
    → Cut m l xs x [] (some x) q
    → (m' : Memory) × (unlink_next m x l ≡ some m') × Closed m m' l xs x []
unfolding unlink_next
close_last m l xs x q c = elim (last-cases xs) [
  | inl empty ↦ (
    set_tail m l none,
    ground (arith, c.ends, c.self, empty),
    record {
      ends = ground (arith, c.ends, empty);
      front = subst (λ zs. Seg m.item l none zs none) (refl) c.front;
      back = tt;
      within = record { items = λ a h. refl; lists = λ k h. ground arith };
    },
  )
  | inr (zs, t, e) ↦ (
    set_next (set_tail m l (some t)) t none,
    ground (arith, c.ends, c.self, ap (last none) e, last-append none zs (t ∷ [])),
    record {
      ends = ground (arith, c.ends, ap (last none) e, last-append none zs (t ∷ []));
      front =
          subst (λ zs. Seg (set_next m t none).item l none zs none) (sym e)
            (set_end-Seg m.item l none zs t none none
              (subst (λ zs. Seg m.item l none zs none) e c.front));
      back = tt;
      within = record {
        items =
            λ a h. ground (arith, ap (has a) e, has-append a xs (x ∷ []), has-append a zs (t ∷ []));
        lists = λ k h. ground arith;
      };
    },
  )
]

close_inner :
    (m : Memory) (l : ℕ) (xs : List ℕ) (x y : ℕ) (ys : List ℕ) (q : Option ℕ)
    → Apart3 xs x (y ∷ ys)
    → Cut m l xs x (y ∷ ys) (last (some y) ys) q
    → (m' : Memory) × (unlink_next m x l ≡ some m') × Closed m m' l xs x (y ∷ ys)
unfolding unlink_next
close_inner m l xs x y ys q a c = (
  set_prev m y (last none xs),
  ground (arith, c.ends, c.self, other_last x y ys a.back),
  record {
    ends = c.ends;
    front =
        frame m.item (set_prev m y (last none xs)).item l none xs (some y)
          (λ b h. let off = a.apart b h in ground arith) c.front;
    back = set_begin-Seg m.item l q (last none xs) y ys none c.back;
    within = record {
      items = λ b h. ground (arith, has-append b xs (x ∷ y ∷ ys));
      lists = λ k h. refl;
    };
  },
)

unlink_prev-Cut :
    (m : Memory) (l : ℕ) (xs : List ℕ) (x : ℕ) (ys : List ℕ)
    → IsList m l (xs ++ (x ∷ ys))
    → (q : Option ℕ) × (Cut (unlink_prev m x l) l xs x ys (last (some x) ys) q
        × Within l (xs ++ (x ∷ ys)) m (unlink_prev m x l))
unlink_prev-Cut m l xs x ys s = elim (last-cases xs) [
  | inl empty ↦ (
    none,
    cut_eq (sym empty) none
        (unlink_first m l x ys (subst (λ zs. IsList m l (zs ++ (x ∷ ys))) empty s)),
  )
  | inr (zs, t, e) ↦ (
    some x,
    cut_eq (sym e) (some x)
        (unlink_behind m l x zs t ys (subst (λ zs. IsList m l (zs ++ (x ∷ ys))) e s)),
  )
]
  where
    cut_eq :
        {zs ws : List ℕ}
        → zs ≡ ws
        → (q : Option ℕ)
        → Cut (unlink_prev m x l) l zs x ys (last (some x) ys) q
          × Within l (zs ++ (x ∷ ys)) m (unlink_prev m x l)
        → Cut (unlink_prev m x l) l ws x ys (last (some x) ys) q
          × Within l (ws ++ (x ∷ ys)) m (unlink_prev m x l)
    cut_eq e q c =
        subst
          (λ zs.
            Cut (unlink_prev m x l) l zs x ys (last (some x) ys) q
            × Within l (zs ++ (x ∷ ys)) m (unlink_prev m x l))
          e c

close :
    (m : Memory) (l : ℕ) (xs : List ℕ) (x : ℕ) (ys : List ℕ) (q : Option ℕ)
    → Apart3 xs x ys
    → Cut m l xs x ys (last (some x) ys) q
    → (m' : Memory) × (unlink_next m x l ≡ some m') × Closed m m' l xs x ys
close m l xs x [] q a c = close_last m l xs x q c
close m l xs x (y ∷ ys) q a c = close_inner m l xs x y ys q a c

some_ends :
    (xs : List ℕ) (x : ℕ) (ys : List ℕ)
    → (is_null (first (xs ++ (x ∷ ys)) none) ≡ false)
      × (is_null (last none (xs ++ (x ∷ ys))) ≡ false)
some_ends xs x ys = (first_some xs, rw (last-append none xs (x ∷ ys)) (last_some x ys))
  where
    first_some : (xs : List ℕ) → is_null (first (xs ++ (x ∷ ys)) none) ≡ false
    first_some [] = refl
    first_some (z ∷ zs) = refl

    last_some : (z : ℕ) (zs : List ℕ) → is_null (last (some z) zs) ≡ false
    last_some z [] = refl
    last_some z (w ∷ zs) = last_some w zs

-- An item leaves its list, and its pointers are cleared.
pub remove_from_link-IsList :
    (m : Memory) (l : ℕ) (xs : List ℕ) (x : ℕ) (ys : List ℕ)
    → IsList m l (xs ++ (x ∷ ys))
    → (m' : Memory) × (remove_from_link m x ≡ some m')
      × IsList m' l (xs ++ ys)
      × Within l (xs ++ (x ∷ ys)) m m'
      × (m'.item x ≡ cleared)
unfolding remove_from_link remove_in
remove_from_link-IsList m l xs x ys (e, s) =
    let (_, (i, _, _), _) = Seg-split m.item l none xs (x ∷ ys) none s in
    let a = apart3 m l xs x ys (e, s) in
    let (q, (c, w)) = unlink_prev-Cut m l xs x ys (e, s) in
    let (m', made, d) = close (unlink_prev m x l) l xs x ys q a c in
    let (some_head, some_tail) = some_ends xs x ys in
    (
      set_node m' x cleared,
      rw (i, e, some_head, some_tail, made) refl,
      (
        d.ends ∙ ends_eq (sym (first-append xs ys none)) (sym (last-append none xs ys)),
        Seg-join (set_node m' x cleared).item l none xs ys none
            (frame m'.item (set_node m' x cleared).item l none xs (first ys none)
              (λ b h. let off = other_than b x xs h a.front in ground arith) d.front)
            (frame m'.item (set_node m' x cleared).item l (last none xs) ys none
              (λ b h. let off = other_than b x ys h a.back in ground arith) d.back)
            a.apart,
      ),
      record {
        items = λ b h.
            let off = not_self b xs x ys h in ground (arith, d.within.items b h, w.items b h);
        lists = λ k h. d.within.lists k h ∙ w.lists k h;
      },
      ground arith,
    )
  where
    not_self :
        (b : ℕ) (xs : List ℕ) (x : ℕ) (ys : List ℕ)
        → has b (xs ++ (x ∷ ys)) ≡ false
        → (b == x) ≡ false
    not_self b xs x ys h = ground (arith, has-append b xs (x ∷ ys))
