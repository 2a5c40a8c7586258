-- ===== src/Fiber/Link/Represents.antt =====
-- Which memory of src/piorun/fiber/fiber.cc represents a family of lists, and the calls that change one list.
use piorun.Prelude.{
  ℕ, ◌<◌, ◌≡◌, refl, sym, ap, ◌∙◌, subst, inl, inr, List, [], ◌∷◌, ◌++◌, Option, none, some, true,
  false, Bool-cases, arith, ◌==◌, if◌then◌else◌, length,
}
use piorun.Fiber.Link.{Node, Memory, add_tail, pop_head, join, remove_from_link}
use piorun.Fiber.Link.Seg.{has, has-append, frame, Apart, Seg-link}
use piorun.Fiber.Link.Keeps.{IsList, Within, add_tail-IsList, pop_head-IsList}
use piorun.Fiber.Link.Unlink.{remove_from_link-IsList}
use piorun.Fiber.Link.Join.{lists-Apart}

-- The items of every list, in order.
abbrev pub Lists : Type 0
Lists = ℕ → List ℕ

abbrev pub put : Lists → ℕ → List ℕ → Lists
put a l xs k = if k == l then xs else a k

pub record Represents (m : Memory) (a : Lists) : Type 0 where
  pub lists : (l : ℕ) → IsList m l (a l)
  pub free : (x : ℕ) → ((l : ℕ) → has x (a l) ≡ false) → (m.item x).link ≡ none

pub data Call : Type 0 where
  adds : ℕ → ℕ → Call
  pops : ℕ → Call
  joins : ℕ → ℕ → ℕ → Call
  removes : ℕ → Call

abbrev pub run : Call → Memory → Option Memory
run (adds l x) m = some (add_tail m l x)
run (pops l) m = some (pop_head m l)
run (joins fuel l k) m = join fuel m l k
run (removes x) m = remove_from_link m x

-- What a call does to the lists. An item that is in a list is not added; Join is called with two lists
-- that differ, and with fuel for the second.
pub data Does (a : Lists) : Call → Lists → Type 0 where
  added :
      {l x : ℕ} → ((k : ℕ) → has x (a k) ≡ false) → Does a (adds l x) (put a l (a l ++ (x ∷ [])))
  refused : {l x : ℕ} (k : ℕ) → has x (a k) ≡ true → Does a (adds l x) a
  popped : {l : ℕ} (x : ℕ) (xs : List ℕ) → a l ≡ x ∷ xs → Does a (pops l) (put a l xs)
  empty : {l : ℕ} → a l ≡ [] → Does a (pops l) a
  joined :
      {fuel l k : ℕ}
      → (k == l) ≡ false
      → length (a k) < fuel
      → Does a (joins fuel l k) (put (put a l (a l ++ a k)) k [])
  removed :
      {x : ℕ} (l : ℕ) (xs ys : List ℕ)
      → a l ≡ xs ++ (x ∷ ys)
      → Does a (removes x) (put a l (xs ++ ys))
  absent : {x : ℕ} → ((k : ℕ) → has x (a k) ≡ false) → Does a (removes x) a

pub change :
    (m m' : Memory) (a : Lists) (l : ℕ) (ys touched : List ℕ)
    → Represents m a
    → IsList m' l ys
    → Within l touched m m'
    → ((k : ℕ) → (k == l) ≡ false → Apart (a k) touched)
    → ((x : ℕ) → has x ys ≡ false → has x touched ≡ true → (m'.item x).link ≡ none)
    → ((x : ℕ) → has x touched ≡ false → has x (a l) ≡ false)
    → Represents m' (put a l ys)
change m m' a l ys touched r new w others gone kept = record {
  lists = λ k. elim (Bool-cases (k == l)) [
    | inl same ↦
        let e : l ≡ k = ground arith in
        let p : put a l ys k ≡ ys = ground arith in
        subst (IsList m' k) (sym p) (subst (λ j. IsList m' j ys) e new)
    | inr differs ↦
        let p : put a l ys k ≡ a k = ground arith in
        let (e, s) = r.lists k in
        subst (IsList m' k) (sym p) (
          w.lists k differs ∙ e,
          frame m.item m'.item k none (a k) none (λ x i. w.items x (others k differs x i)) s,
        )
  ];
  free = λ x out.
      let not_new : has x ys ≡ false = sym (ap (has x) (put_same a l ys)) ∙ out l in
      elim (Bool-cases (has x touched)) [
        | inl h ↦ gone x not_new h
        | inr h ↦
            ap (λ (n : Node). n.link) (w.items x h)
            ∙ r.free x (λ k. elim (Bool-cases (k == l)) [
              | inl same ↦
                  let e : l ≡ k = ground arith in subst (λ j. has x (a j) ≡ false) e (kept x h)
              | inr differs ↦ sym (ap (has x) (put_other a l ys k differs)) ∙ out k
            ])
      ];
}
  where
    put_same : (a : Lists) (l : ℕ) (ys : List ℕ) → put a l ys l ≡ ys
    put_same a l ys = ground arith

    put_other : (a : Lists) (l : ℕ) (ys : List ℕ) (k : ℕ) → (k == l) ≡ false → put a l ys k ≡ a k
    put_other a l ys k d = ground arith

pub lists_disjoint :
    (m : Memory) (a : Lists) (l : ℕ)
    → Represents m a
    → (k : ℕ) → (k == l) ≡ false
    → Apart (a k) (a l)
lists_disjoint m a l r k d =
    lists-Apart m k l (a k) (a l) (ground arith) (r.lists k).1 (r.lists l).1

pub added-Represents :
    (m : Memory) (a : Lists) (l x : ℕ)
    → Represents m a
    → ((k : ℕ) → has x (a k) ≡ false)
    → Represents (add_tail m l x) (put a l (a l ++ (x ∷ [])))
added-Represents m a l x r out =
    let (s, w) = add_tail-IsList m l x (a l) (r.lists l) (out l) (r.free x out) in
    change m (add_tail m l x) a l (a l ++ (x ∷ [])) (a l ++ (x ∷ [])) r s w
      (λ k d y i. new_apart k d y i) (λ y o i. absurd (ground arith))
      (λ y o. ground (arith, has-append y (a l) (x ∷ [])))
  where
    new_apart :
        (k : ℕ) → (k == l) ≡ false → (y : ℕ) → has y (a k) ≡ true → has y (a l ++ (x ∷ [])) ≡ false
    new_apart k d y i = elim (Bool-cases (y == x)) [
      | inl q ↦
          let same : y ≡ x = ground arith in
          let no = ap (λ z. has z (a k)) same in absurd (ground (arith, out k))
      | inr q ↦ ground (arith, has-append y (a l) (x ∷ []), lists_disjoint m a l r k d y i)
    ]

pub refused-Represents :
    (m : Memory) (a : Lists) (l x k : ℕ) → Represents m a → has x (a k) ≡ true → add_tail m l x ≡ m
unfolding add_tail
refused-Represents m a l x k r i = rw (Seg-link m.item k none (a k) none x (r.lists k).1 i) refl

pub popped-Represents :
    (m : Memory) (a : Lists) (l x : ℕ) (xs : List ℕ)
    → Represents m a
    → a l ≡ x ∷ xs
    → Represents (pop_head m l) (put a l xs)
popped-Represents m a l x xs r e =
    let (s, w, c) = pop_head-IsList m l x xs (subst (IsList m l) e (r.lists l)) in
    change m (pop_head m l) a l xs (x ∷ xs) r s w
      (λ k d y i. sym (ap (has y) e) ∙ lists_disjoint m a l r k d y i)
      (λ y o i.
        let same : y ≡ x = ground arith in
        ap (λ z. ((pop_head m l).item z).link) same ∙ ap (λ (n : Node). n.link) c)
      (λ y o. ap (has y) e ∙ o)

pub removed-Represents :
    (m : Memory) (a : Lists) (l x : ℕ) (xs ys : List ℕ)
    → Represents m a
    → a l ≡ xs ++ (x ∷ ys)
    → (m' : Memory) × (remove_from_link m x ≡ some m') × Represents m' (put a l (xs ++ ys))
removed-Represents m a l x xs ys r e =
    let (m', made, s, w, c) =
      remove_from_link-IsList m l xs x ys (subst (IsList m l) e (r.lists l)) in
    (
      m',
      made,
      change m m' a l (xs ++ ys) (xs ++ (x ∷ ys)) r s w
          (λ k d y i. sym (ap (has y) e) ∙ lists_disjoint m a l r k d y i)
          (λ y o i.
            let same : y ≡ x = only y o i in
            ap (λ z. (m'.item z).link) same ∙ ap (λ (n : Node). n.link) c)
          (λ y o. ap (has y) e ∙ o),
    )
  where
    only : (y : ℕ) → has y (xs ++ ys) ≡ false → has y (xs ++ (x ∷ ys)) ≡ true → y ≡ x
    only y o i = ground (arith, has-append y xs ys, has-append y xs (x ∷ ys))
