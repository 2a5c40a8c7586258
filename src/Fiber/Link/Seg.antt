-- ===== src/Fiber/Link/Seg.antt =====
-- Segments of a doubly linked list, as lists of items.
use piorun.Prelude.{
  ℕ, ◌≡◌, refl, sym, ap, ◌∙◌, inl, inr, ◌⊎◌, List, [], ◌∷◌, ◌++◌, Option, some, Bool, true, false,
  Bool-cases, ◌||◌, arith, ◌==◌,
}
use piorun.Fiber.Link.{Node}

abbrev pub first : List ℕ → Option ℕ → Option ℕ
first [] n = n
first (x ∷ xs) n = some x

abbrev pub last : Option ℕ → List ℕ → Option ℕ
last p [] = p
last p (x ∷ xs) = last (some x) xs

abbrev pub has : ℕ → List ℕ → Bool
has a [] = false
has a (x ∷ xs) = (a == x) || has a xs

abbrev pub node : Option ℕ → Option ℕ → ℕ → Node
node p n l = record { prev = p; next = n; link = some l }

-- The items of `xs`, all different, stand one behind the other in list `l`, behind `p` and before `n`.
abbrev pub Seg : (ℕ → Node) → ℕ → Option ℕ → List ℕ → Option ℕ → Type 0
Seg item l p [] n = Unit
Seg item l p (x ∷ xs) n =
    (item x ≡ node p (first xs n) l) × (has x xs ≡ false) × Seg item l (some x) xs n

pub has-append : (a : ℕ) (xs ys : List ℕ) → has a (xs ++ ys) ≡ (has a xs || has a ys)
has-append a [] ys = refl
has-append a (x ∷ xs) ys = ground (arith, has-append a xs ys)

pub first-append : (xs ys : List ℕ) (n : Option ℕ) → first (xs ++ ys) n ≡ first xs (first ys n)
first-append [] ys n = refl
first-append (x ∷ xs) ys n = refl

pub last-append : (p : Option ℕ) (xs ys : List ℕ) → last p (xs ++ ys) ≡ last (last p xs) ys
last-append p [] ys = refl
last-append p (x ∷ xs) ys = last-append (some x) xs ys

pub last-cases : (xs : List ℕ) → (xs ≡ []) ⊎ ((zs : List ℕ) × (t : ℕ) × (xs ≡ zs ++ (t ∷ [])))
last-cases [] = inl refl
last-cases (x ∷ xs) = elim (last-cases xs) [
  | inl e ↦ inr ([], x, ap (λ l. x ∷ l) e)
  | inr (zs, t, e) ↦ inr (x ∷ zs, t, ap (λ l. x ∷ l) e)
]

pub frame :
    (item other : ℕ → Node) (l : ℕ) (p : Option ℕ) (xs : List ℕ) (n : Option ℕ)
    → ((a : ℕ) → has a xs ≡ true → other a ≡ item a)
    → Seg item l p xs n
    → Seg other l p xs n
frame item other l p [] n same s = tt
frame item other l p (x ∷ xs) n same (e, out, s) = (
  same x (ground arith) ∙ e,
  out,
  frame item other l (some x) xs n (λ a i. same a (ground arith)) s,
)

pub Seg-link :
    (item : ℕ → Node) (l : ℕ) (p : Option ℕ) (xs : List ℕ) (n : Option ℕ) (a : ℕ)
    → Seg item l p xs n
    → has a xs ≡ true
    → (item a).link ≡ some l
Seg-link item l p [] n a s i = cc
Seg-link item l p (x ∷ xs) n a (e, out, s) i = elim (Bool-cases (a == x)) [
  | inl q ↦
      let same : a ≡ x = ground arith in ap (λ y. (item y).link) same ∙ ap (λ (m : Node). m.link) e
  | inr q ↦ Seg-link item l (some x) xs n a s (ground arith)
]

or_false : (a b : Bool) → (a || b) ≡ false → (a ≡ false) × (b ≡ false)
or_false a b h = (ground arith, ground arith)

abbrev pub Apart : List ℕ → List ℕ → Type 0
Apart xs ys = (a : ℕ) → has a xs ≡ true → has a ys ≡ false

pub Seg-split :
    (item : ℕ → Node) (l : ℕ) (p : Option ℕ) (xs ys : List ℕ) (n : Option ℕ)
    → Seg item l p (xs ++ ys) n
    → Seg item l p xs (first ys n) × Seg item l (last p xs) ys n × Apart xs ys
Seg-split item l p [] ys n s = (tt, s, λ a i. cc)
Seg-split item l p (x ∷ xs) ys n (e, out, s) =
    let (s₁, s₂, apart) = Seg-split item l (some x) xs ys n s in
    let (h₁, h₂) = or_false (has x xs) (has x ys) (sym (has-append x xs ys) ∙ out) in
    (
      (e ∙ ap (λ f. node p f l) (first-append xs ys n), h₁, s₁),
      s₂,
      λ a i. elim (Bool-cases (a == x)) [
        | inl q ↦ let same : a ≡ x = ground arith in ap (λ y. has y ys) same ∙ h₂
        | inr q ↦ apart a (ground arith)
      ],
    )

pub Seg-join :
    (item : ℕ → Node) (l : ℕ) (p : Option ℕ) (xs ys : List ℕ) (n : Option ℕ)
    → Seg item l p xs (first ys n)
    → Seg item l (last p xs) ys n
    → Apart xs ys
    → Seg item l p (xs ++ ys) n
Seg-join item l p [] ys n s t apart = t
Seg-join item l p (x ∷ xs) ys n (e, out, s) t apart = (
  e ∙ ap (λ f. node p f l) (sym (first-append xs ys n)),
  has-append x xs ys ∙ ground (arith, apart x (ground arith)),
  Seg-join item l (some x) xs ys n s t (λ a i. apart a (ground arith)),
)
