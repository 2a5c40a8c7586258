-- ===== src/Fiber/Link/Cut.antt =====
-- RemoveFromLink of src/piorun/fiber/fiber.cc up to its second `if`: the item in front.
use piorun.Prelude.{
  ℕ, ◌≡◌, refl, sym, ap, ◌∙◌, subst, inl, inr, List, [], ◌∷◌, ◌++◌, Option, none, some, true, false,
  Bool-cases, arith, ◌==◌,
}
use piorun.Fiber.Link.{Ends, Memory, set_next, set_prev, same_ptr, unlink_prev}
use piorun.Fiber.Link.Seg.{
  first, last, has, node, Seg, has-append, first-append, last-append, frame, Apart, Seg-split,
}
use piorun.Fiber.Link.Keeps.{IsList, Within, set_end-Seg, set_begin-Seg, other_than, has-last}

-- `x` between `xs` and `ys`, with what stands before `ys` left open.
pub record Cut (m : Memory) (l : ℕ) (xs : List ℕ) (x : ℕ) (ys : List ℕ) (tail q : Option ℕ)
    : Type 0 where
  pub ends : m.list l ≡ record { head = first xs (first ys none); tail = tail }
  pub front : Seg m.item l none xs (first ys none)
  pub back : Seg m.item l q ys none
  pub self : m.item x ≡ node (last none xs) (first ys none) l

pub record Apart3 (xs : List ℕ) (x : ℕ) (ys : List ℕ) : Type 0 where
  pub front : has x xs ≡ false
  pub back : has x ys ≡ false
  pub apart : Apart xs ys

pub apart3 :
    (m : Memory) (l : ℕ) (xs : List ℕ) (x : ℕ) (ys : List ℕ)
    → IsList m l (xs ++ (x ∷ ys))
    → Apart3 xs x ys
apart3 m l xs x ys (e, s) =
    let (s₁, (i, o, s₂), apart) = Seg-split m.item l none xs (x ∷ ys) none s in
    record {
      front = elim (Bool-cases (has x xs)) [
        | inl h ↦ let no = apart x h in ground arith
        | inr h ↦ h
      ];
      back = o;
      apart = λ a h. let no = apart a h in ground arith;
    }

pub unlink_first :
    (m : Memory) (l x : ℕ) (ys : List ℕ)
    → IsList m l (x ∷ ys)
    → Cut (unlink_prev m x l) l [] x ys (last (some x) ys) none
      × Within l (x ∷ ys) m (unlink_prev m x l)
unfolding unlink_prev
unlink_first m l x [] (e, (i, o, s)) = (
  record { ends = ground (arith, e, i); front = tt; back = tt; self = ground (arith, e, i) },
  record { items = λ a h. ground (arith, e, i); lists = λ k h. ground (arith, e, i) },
)
unlink_first m l x (y ∷ ys) (e, (i, o, s)) = (
  record {
    ends = ground (arith, e, i);
    front = tt;
    back =
        frame (set_prev m y none).item (unlink_prev m x l).item l none (y ∷ ys) none
          (λ a h. ground (arith, e, i)) (set_begin-Seg m.item l (some x) none y ys none s);
    self = ground (arith, e, i, o);
  },
  record { items = λ a h. ground (arith, e, i); lists = λ k h. ground (arith, e, i) },
)

other_first :
    (x : ℕ) (zs : List ℕ) (t : ℕ)
    → has x (zs ++ (t ∷ [])) ≡ false
    → same_ptr (some x) (first zs (some t)) ≡ false
other_first x [] t o = ground arith
other_first x (z ∷ zs) t o = ground arith

pub ends_eq :
    {a b c d : Option ℕ}
    → a ≡ b
    → c ≡ d
    → ◌≡◌ {A = Ends} (record { head = a; tail = c }) (record { head = b; tail = d })
ends_eq p q = cc

unlink_prev-inner :
    (m : Memory) (l x t : ℕ) (n h : Option ℕ)
    → (m.list l).head ≡ h
    → same_ptr (some x) h ≡ false
    → m.item x ≡ node (some t) n l
    → unlink_prev m x l ≡ set_next m t n
unfolding unlink_prev
unlink_prev-inner m l x t n h e d i = rw (e, d, i) refl

pub unlink_behind :
    (m : Memory) (l x : ℕ) (zs : List ℕ) (t : ℕ) (ys : List ℕ)
    → IsList m l ((zs ++ (t ∷ [])) ++ (x ∷ ys))
    → Cut (unlink_prev m x l) l (zs ++ (t ∷ [])) x ys (last (some x) ys) (some x)
      × Within l ((zs ++ (t ∷ [])) ++ (x ∷ ys)) m (unlink_prev m x l)
unlink_behind m l x zs t ys (e, s) =
    let xs = zs ++ (t ∷ []) in
    let (s₁, (i, o, s₂), apart) = Seg-split m.item l none xs (x ∷ ys) none s in
    let a3 = apart3 m l xs x ys (e, s) in
    let before : last none xs ≡ some t = last-append none zs (t ∷ []) in
    let head : (m.list l).head ≡ first zs (some t) =
      ap (λ (r : Ends). r.head) e
      ∙ first-append xs (x ∷ ys) none
      ∙ first-append zs (t ∷ []) (some x) in
    let differs = other_than t x xs (has-last zs t) a3.front in
    subst (λ m'. Cut m' l xs x ys (last (some x) ys) (some x) × Within l (xs ++ (x ∷ ys)) m m')
      (sym (
        unlink_prev-inner m l x t (first ys none) (first zs (some t)) head
          (other_first x zs t a3.front) (i ∙ ap (λ p. node p (first ys none) l) before)))
      (
        record {
          ends =
              e
              ∙ ends_eq
                  (first-append xs (x ∷ ys) none
                    ∙ first-append zs (t ∷ []) (some x)
                    ∙ sym (first-append zs (t ∷ []) (first ys none)))
                  (last-append none xs (x ∷ ys));
          front = set_end-Seg m.item l none zs t (some x) (first ys none) s₁;
          back =
              frame m.item (set_next m t (first ys none)).item l (some x) ys none
                (spared m t (first ys none) ys (a3.apart t (has-last zs t))) s₂;
          self = unmoved m t (first ys none) x differs ∙ i;
        },
        record { items = λ a h. not_last a zs t (x ∷ ys) (first ys none) m h; lists = λ k h. refl },
      )
  where
    spared :
        (m : Memory) (t : ℕ) (n : Option ℕ) (ys : List ℕ)
        → has t ys ≡ false
        → (a : ℕ) → has a ys ≡ true
        → (set_next m t n).item a ≡ m.item a
    spared m t n ys far a h = let off = other_than a t ys h far in ground arith

    unmoved :
        (m : Memory) (t : ℕ) (n : Option ℕ) (x : ℕ)
        → (t == x) ≡ false
        → (set_next m t n).item x ≡ m.item x
    unmoved m t n x d = ground arith

    not_last :
        (a : ℕ) (zs : List ℕ) (t : ℕ) (ys : List ℕ) (n : Option ℕ) (m : Memory)
        → has a ((zs ++ (t ∷ [])) ++ ys) ≡ false
        → (set_next m t n).item a ≡ m.item a
    not_last a zs t ys n m h =
        ground (arith, has-append a (zs ++ (t ∷ [])) ys, has-append a zs (t ∷ []))
