-- ===== src/Fiber/Link/Calls.antt =====
-- Sequences of the calls AddTail, PopHead, Join and RemoveFromLink of src/piorun/fiber/fiber.cc.
use piorun.Prelude.{
  ℕ, ◌<◌, ◌≡◌, refl, sym, ap, ◌∙◌, subst, inl, inr, List, [], ◌∷◌, ◌++◌, Option, none, some, false,
  Bool-cases, arith, ◌==◌, length, ◌>>=◌,
}
use piorun.Fiber.Link.{
  Node, Ends, Memory, add_tail, pop_head, pop_item, join, remove_from_link, remove_in,
}
use piorun.Fiber.Link.Seg.{first, has, has-append, frame}
use piorun.Fiber.Link.Keeps.{IsList}
use piorun.Fiber.Link.Join.{join-Joined}
use piorun.Fiber.Link.Represents.{
  Call, Does, Lists, Represents, absent, added, added-Represents, adds, empty, joined, joins,
  lists_disjoint, popped, popped-Represents, pops, put, refused, refused-Represents, removed,
  removed-Represents, removes, run,
}

joined_first :
    (a : Lists) (l k : ℕ) → (k == l) ≡ false → put (put a l (a l ++ a k)) k [] l ≡ a l ++ a k
joined_first a l k d = ground arith

joined_out :
    (a : Lists) (l k j x : ℕ)
    → (k == l) ≡ false
    → has x (put (put a l (a l ++ a k)) k [] j) ≡ false
    → has x (a l ++ a k) ≡ false
    → has x (a j) ≡ false
joined_out a l k j x d o not_l = elim (Bool-cases (j == k)) [
  | inl q ↦
      let e : k ≡ j = ground arith in
      subst (λ i. has x (a i) ≡ false) e (ground (arith, has-append x (a l) (a k)))
  | inr q ↦ elim (Bool-cases (j == l)) [
    | inl q' ↦
        let e : l ≡ j = ground arith in
        subst (λ i. has x (a i) ≡ false) e (ground (arith, has-append x (a l) (a k)))
    | inr q' ↦
        let e : put (put a l (a l ++ a k)) k [] j ≡ a j = ground arith in sym (ap (has x) e) ∙ o
  ]
]

joined-Represents :
    (m : Memory) (a : Lists) (fuel l k : ℕ)
    → Represents m a
    → (k == l) ≡ false
    → length (a k) < fuel
    → (m' : Memory) × (join fuel m l k ≡ some m') × Represents m' (put (put a l (a l ++ a k)) k [])
joined-Represents m a fuel l k r d h =
    let (m', made, sl, sk, w) = join-Joined fuel m l k (a l) (a k) h d (r.lists l) (r.lists k) in
    (
      m',
      made,
      record {
        lists = λ j. elim (Bool-cases (j == k)) [
          | inl q ↦
              let e : k ≡ j = ground arith in
              let p : put (put a l (a l ++ a k)) k [] j ≡ [] = ground arith in
              subst (IsList m' j) (sym p) (subst (λ i. IsList m' i []) e sk)
          | inr q ↦ elim (Bool-cases (j == l)) [
            | inl q' ↦
                let e : l ≡ j = ground arith in
                let p : put (put a l (a l ++ a k)) k [] j ≡ a l ++ a k = ground arith in
                subst (IsList m' j) (sym p) (subst (λ i. IsList m' i (a l ++ a k)) e sl)
            | inr q' ↦
                let p : put (put a l (a l ++ a k)) k [] j ≡ a j = ground arith in
                let (e, s) = r.lists j in
                subst (IsList m' j) (sym p) (
                  w.lists j q' q ∙ e,
                  frame m.item m'.item j none (a j) none
                      (λ x i. w.items x (
                        ground (
                          arith,
                          has-append x (a l) (a k),
                          lists_disjoint m a l r j q' x i,
                          lists_disjoint m a k r j q x i,
                        )))
                      s,
                )
          ]
        ];
        free = λ x out.
            let not_l : has x (a l ++ a k) ≡ false =
              sym (ap (has x) (joined_first a l k d)) ∙ out l in
            ap (λ (n : Node). n.link) (w.items x not_l)
            ∙ r.free x (λ j. joined_out a l k j x d (out j) not_l);
      },
    )

empty-Represents : (m : Memory) (a : Lists) (l : ℕ) → Represents m a → a l ≡ [] → pop_head m l ≡ m
unfolding pop_head pop_item
empty-Represents m a l r e =
    let none_there : (m.list l).head ≡ none =
      ap (λ (n : Ends). n.head) ((r.lists l).0) ∙ ap (λ xs. first xs none) e in
    rw none_there refl

absent-Represents :
    (m : Memory) (a : Lists) (x : ℕ)
    → Represents m a
    → ((k : ℕ) → has x (a k) ≡ false)
    → remove_from_link m x ≡ some m
unfolding remove_from_link remove_in
absent-Represents m a x r out = rw (r.free x out) refl

call-Represents :
    (c : Call) {m : Memory} {a b : Lists}
    → Represents m a
    → Does a c b
    → (m' : Memory) × (run c m ≡ some m') × Represents m' b
call-Represents (adds l x) {m} {a} r (added out) =
    (add_tail m l x, refl, added-Represents m a l x r out)
call-Represents (adds l x) {m} {a} r (refused k i) =
    (m, ap some (refused-Represents m a l x k r i), r)
call-Represents (pops l) {m} {a} r (popped x xs e) =
    (pop_head m l, refl, popped-Represents m a l x xs r e)
call-Represents (pops l) {m} {a} r (empty e) = (m, ap some (empty-Represents m a l r e), r)
call-Represents (joins fuel l k) {m} {a} r (joined d h) = joined-Represents m a fuel l k r d h
call-Represents (removes x) {m} {a} r (removed l xs ys e) = removed-Represents m a l x xs ys r e
call-Represents (removes x) {m} {a} r (absent out) = (m, absent-Represents m a x r out, r)

pub data DoesAll : Lists → List Call → Lists → Type 0 where
  stop : {a : Lists} → DoesAll a [] a
  step :
      {c : Call} {cs : List Call} {a b z : Lists}
      → Does a c b
      → DoesAll b cs z
      → DoesAll a (c ∷ cs) z

abbrev pub run_all : List Call → Memory → Option Memory
run_all [] m = some m
run_all (c ∷ cs) m = run c m >>= λ m'. run_all cs m'

-- From a memory that represents a family of lists, every sequence of calls of AddTail, PopHead, Join (of
-- two lists, with fuel for the items of the second) and RemoveFromLink succeeds, with no read through a
-- null pointer, and leaves a memory that represents the lists as the calls change them: AddTail puts an
-- item that is in no list at the end, and leaves one that is in a list; PopHead takes the first item;
-- Join puts the items of the second list behind those of the first; RemoveFromLink takes an item out of
-- the list that it is in, wherever it stands.
pub links-Represent :
    (cs : List Call) {m : Memory} {a b : Lists}
    → Represents m a
    → DoesAll a cs b
    → (m' : Memory) × (run_all cs m ≡ some m') × Represents m' b
links-Represent [] {m} r stop = (m, refl, r)
links-Represent (c ∷ cs) {m} r (step d ds) =
    let (m₁, made, r₁) = call-Represents c {m = m} r d in
    let (m₂, made₂, r₂) = links-Represent cs {m = m₁} r₁ ds in (m₂, rw made made₂, r₂)
