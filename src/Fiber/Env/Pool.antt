-- ===== src/Fiber/Env/Pool.antt =====
-- The pool of fibers of src/piorun/fiber/fiber.cc, and its well-formedness.
use piorun.Prelude.{
  ℕ, zero, suc, ◌+◌, ◌≤◌, ◌<◌, ◌≡◌, refl, sym, ap, ◌∙◌, subst, List, [], ◌∷◌, ◌++◌, true, false,
  ◌&&◌, leb, ltb, ◌==◌, if◌then◌else◌, ◌⊎◌, inl, inr, Bool-cases, arith, lt→ltb, le→leb, leb→le,
  le→ltb_false,
}
use piorun.Fiber.Env.{FiberEnvironment, pool_size, pool_fiber, addresses, fill_pool, is_live}

abbrev pub count : ℕ → List ℕ → ℕ
count y [] = 0
count y (x ∷ xs) = do let rest = count y xs; if x == y then suc rest else rest

pub count-append :
    (y : ℕ) (xs : List ℕ) (x : ℕ)
    → count y (xs ++ (x ∷ [])) ≡ (if x == y then suc (count y xs) else count y xs)
count-append y [] x = refl
count-append y (z ∷ xs) x = ground (arith, count-append y xs x)

addresses-before : (y a n : ℕ) → y < a → count y (addresses a n) ≡ 0
addresses-before y a zero h = refl
addresses-before y a (suc n) h = ground (arith, addresses-before y (a + 1) n (omega arith))

addresses-range : (y a n : ℕ) → 0 < count y (addresses a n) → (a ≤ y) × (y < a + n)
addresses-range y a zero h = absurd (omega arith)
addresses-range y a (suc n) h = elim (Bool-cases (a == y)) [
  | inl first ↦ (ground arith, ground arith)
  | inr later ↦
      let (low, high) = addresses-range y (a + 1) n (ground arith) in
      (omega (arith, low), omega (arith, high))
]

addresses-once : (y a n : ℕ) → count y (addresses a n) ≤ 1
addresses-once y a zero = omega arith
addresses-once y a (suc n) = elim (Bool-cases (a == y)) [
  | inl first ↦ ground (arith, addresses-before y (a + 1) n (ground arith))
  | inr later ↦ ground (arith, addresses-once y (a + 1) n)
]

-- What holds of the environment: a fiber of the pool is in it once, is none that has begun and not ended, and
-- not the main fiber; the fibers that have begun and not ended stand below `next`, and so do those of the pool.
pub record IsSound (env : FiberEnvironment) : Type 0 where
  pub once : (y : ℕ) → count y env.fiber_pool ≤ 1
  pub free : (y : ℕ) → 0 < count y env.fiber_pool → is_live (env.fiber y) ≡ false
  pub not_main : (y : ℕ) → 0 < count y env.fiber_pool → (env.fiber y).c_is_main ≡ false
  pub made : (y : ℕ) → 0 < count y env.fiber_pool → y < env.next
  pub below : (y : ℕ) → env.next ≤ y → is_live (env.fiber y) ≡ false

List-cases : (l : List ℕ) → (l ≡ []) ⊎ ((x : ℕ) × (xs : List ℕ) × (l ≡ x ∷ xs))
List-cases [] = inl refl
List-cases (x ∷ xs) = inr (x, xs, refl)

fill_pool-empty :
    (env : FiberEnvironment)
    → env.fiber_pool ≡ []
    → fill_pool env ≡ record env {
      fiber =
          λ i. if leb env.next i && ltb i (env.next + pool_size) then pool_fiber else env.fiber i;
      fiber_pool = addresses env.next pool_size;
      next = env.next + pool_size;
    }
unfolding fill_pool
fill_pool-empty env e = rw e refl

fill_pool-full :
    (env : FiberEnvironment) (x : ℕ) (xs : List ℕ) → env.fiber_pool ≡ x ∷ xs → fill_pool env ≡ env
unfolding fill_pool
fill_pool-full env x xs e = rw e refl

pub fill_pool-IsSound : (env : FiberEnvironment) → IsSound env → IsSound (fill_pool env)
fill_pool-IsSound env v = elim (List-cases env.fiber_pool) [
  | inr (x, xs, e) ↦ subst IsSound (sym (fill_pool-full env x xs e)) v
  | inl e ↦ subst IsSound (sym (fill_pool-empty env e)) (record {
    once = λ y. addresses-once y env.next pool_size;
    free = λ y h. let (low, high) = addresses-range y env.next pool_size h in is_new y low high;
    not_main =
        λ y h. let (low, high) = addresses-range y env.next pool_size h in not_main_new y low high;
    made = λ y h. (addresses-range y env.next pool_size h).1;
    below = λ y h. old y h;
  })
]
  where
    is_new :
        (y : ℕ)
        → env.next ≤ y
        → y < env.next + pool_size
        → is_live
            (if leb env.next y && ltb y (env.next + pool_size) then pool_fiber else env.fiber y)
          ≡ false
    is_new y low high = rw (le→leb env.next y low, lt→ltb y (env.next + pool_size) high) refl

    not_main_new :
        (y : ℕ)
        → env.next ≤ y
        → y < env.next + pool_size
        → (if leb env.next y && ltb y (env.next + pool_size)
            then pool_fiber
            else env.fiber y).c_is_main
          ≡ false
    not_main_new y low high = rw (le→leb env.next y low, lt→ltb y (env.next + pool_size) high) refl

    old :
        (y : ℕ)
        → env.next + pool_size ≤ y
        → is_live
            (if leb env.next y && ltb y (env.next + pool_size) then pool_fiber else env.fiber y)
          ≡ false
    old y h =
        rw (le→leb env.next y (omega arith), le→ltb_false y (env.next + pool_size) h)
          (v.below y (omega arith))

-- The fibers that have begun and not ended are as before.
pub fill_pool-fiber :
    (env : FiberEnvironment) (y : ℕ)
    → IsSound env
    → is_live (env.fiber y) ≡ true
    → (fill_pool env).fiber y ≡ env.fiber y
fill_pool-fiber env y v live = elim (List-cases env.fiber_pool) [
  | inr (x, xs, e) ↦ ap (λ (u : FiberEnvironment). u.fiber y) (fill_pool-full env x xs e)
  | inl e ↦ ap (λ (u : FiberEnvironment). u.fiber y) (fill_pool-empty env e) ∙ kept
]
  where
    kept :
        (if leb env.next y && ltb y (env.next + pool_size) then pool_fiber else env.fiber y)
        ≡ env.fiber y
    kept = elim (Bool-cases (leb env.next y)) [
      | inl high ↦ let dead = v.below y (leb→le env.next y high) in cc
      | inr low ↦ rw low refl
    ]

pub fill_pool-nonempty :
    (env : FiberEnvironment) → (x : ℕ) × (xs : List ℕ) × ((fill_pool env).fiber_pool ≡ x ∷ xs)
fill_pool-nonempty env = elim (List-cases env.fiber_pool) [
  | inr (x, xs, e) ↦
      (x, xs, ap (λ (u : FiberEnvironment). u.fiber_pool) (fill_pool-full env x xs e) ∙ e)
  | inl e ↦ (
    env.next,
    addresses (env.next + 1) 63,
    ap (λ (u : FiberEnvironment). u.fiber_pool) (fill_pool-empty env e),
  )
]

pub fill_pool-call_stack : (env : FiberEnvironment) → (fill_pool env).call_stack ≡ env.call_stack
fill_pool-call_stack env = elim (List-cases env.fiber_pool) [
  | inr (x, xs, e) ↦ ap (λ (u : FiberEnvironment). u.call_stack) (fill_pool-full env x xs e)
  | inl e ↦ ap (λ (u : FiberEnvironment). u.call_stack) (fill_pool-empty env e)
]
