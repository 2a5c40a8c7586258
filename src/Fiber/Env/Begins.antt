-- ===== src/Fiber/Env/Begins.antt =====
-- What the steps of a thread do to the pool of its fibers (src/piorun/fiber/fiber.cc).
use piorun.Prelude.{
  ℕ, ◌+◌, ◌≤◌, ◌<◌, ◌≡◌, sym, ap, ◌∙◌, subst, List, [], ◌∷◌, ◌++◌, Option, none, some, true, false,
  leb, ltb, ◌==◌, inl, inr, Bool-cases, arith, ==_iff, ltb→lt, leb→le, some_inj,
}
use piorun.Fiber.Env.{Fiber, FiberEnvironment, set_fiber, is_live, yield}
use piorun.Fiber.Env.Pool.{count, count-append, IsSound}
use piorun.Fiber.Env.Task.{begun, set_fiber-there, set_up}

-- A fiber that is replaced stands below `next`, and the pool holds it no more.
pub replaced-IsSound :
    (env : FiberEnvironment) (i : ℕ) (x : Fiber) (pool : List ℕ)
    → IsSound env
    → i < env.next
    → ((y : ℕ) → count y pool ≤ count y env.fiber_pool)
    → count i pool ≡ 0
    → IsSound (record env { fiber = set_fiber env.fiber i x; fiber_pool = pool })
replaced-IsSound env i x pool v small fewer out = record {
  once = λ y. omega (arith, v.once y, fewer y);
  free = λ y h. ap is_live (other y h) ∙ v.free y (omega (arith, fewer y));
  not_main =
      λ y h. ap (λ (u : Fiber). u.c_is_main) (other y h) ∙ v.not_main y (omega (arith, fewer y));
  made = λ y h. v.made y (omega (arith, fewer y));
  below = λ y h. ap is_live (set_fiber-there env.fiber i y x (ground arith)) ∙ v.below y h;
}
  where
    other : (y : ℕ) → 0 < count y pool → set_fiber env.fiber i x y ≡ env.fiber y
    other y h = elim (Bool-cases (y == i)) [
      | inr apart ↦ set_fiber-there env.fiber i y x apart
      | inl same ↦
          let e : y ≡ i = (==_iff y i).0 same in
          absurd (omega (arith, out, ap (λ j. count j pool) e))
    ]

pub IsSound-stack :
    (env : FiberEnvironment) (s : List ℕ) (n : ℕ)
    → IsSound env
    → IsSound (record env { call_stack = s; current_fiber_count = n })
IsSound-stack env s n v = record {
  once = v.once;
  free = v.free;
  not_main = v.not_main;
  made = v.made;
  below = v.below;
}

pub begun-IsSound :
    (task i : ℕ) (rest : List ℕ) (env : FiberEnvironment)
    → IsSound env
    → env.fiber_pool ≡ i ∷ rest
    → IsSound (begun task i rest env)
begun-IsSound task i rest env v e =
    let once : count i (i ∷ rest) ≤ 1 = subst (λ l. count i l ≤ 1) e (v.once i) in
    let out : count i rest ≡ 0 = ground arith in
    let small = v.made i (subst (λ l. 0 < count i l) (sym e) (ground arith)) in
    IsSound-stack
      (record env {
        fiber =
            set_fiber (set_fiber env.fiber i (set_up task (env.fiber i))) i
              (record (set_up task (env.fiber i)) { c_start = true });
        fiber_pool = rest;
      })
      (i ∷ env.call_stack) (env.current_fiber_count + 1)
      (replaced-IsSound
        (record env {
          fiber = set_fiber env.fiber i (set_up task (env.fiber i));
          fiber_pool = rest;
        })
        i (record (set_up task (env.fiber i)) { c_start = true }) rest
        (replaced-IsSound env i (set_up task (env.fiber i)) rest v small
          (λ y. subst (λ l. count y rest ≤ count y l) (sym e) (ground arith)) out)
        small (λ y. omega arith) out)

-- A live fiber is not in the pool, and stands below `next`.
pub live_out :
    (env : FiberEnvironment) (i : ℕ)
    → IsSound env
    → is_live (env.fiber i) ≡ true
    → (count i env.fiber_pool ≡ 0) × (i < env.next)
live_out env i v live = (
  elim (Bool-cases (ltb 0 (count i env.fiber_pool))) [
    | inl there ↦ let idle = v.free i (ltb→lt 0 (count i env.fiber_pool) there) in cc
    | inr out ↦ ground arith
  ],
  elim (Bool-cases (leb env.next i)) [
    | inl high ↦ let idle = v.below i (leb→le env.next i high) in cc
    | inr low ↦ ground arith
  ],
)

pub returned-IsSound :
    (env : FiberEnvironment) (i : ℕ)
    → IsSound env
    → count i env.fiber_pool ≡ 0
    → is_live (env.fiber i) ≡ false
    → (env.fiber i).c_is_main ≡ false
    → i < env.next
    → IsSound (record env { fiber_pool = env.fiber_pool ++ (i ∷ []) })
returned-IsSound env i v out idle plain small = record {
  once = λ y. elim (Bool-cases (i == y)) [
    | inl same ↦
        let e : i ≡ y = (==_iff i y).0 same in
        ground (arith, count-append y env.fiber_pool i, ap (λ j. count j env.fiber_pool) e)
    | inr other ↦ ground (arith, count-append y env.fiber_pool i, v.once y)
  ];
  free = λ y h. elim (Bool-cases (i == y)) [
    | inl same ↦ subst (λ j. is_live (env.fiber j) ≡ false) ((==_iff i y).0 same) idle
    | inr other ↦ v.free y (ground (arith, count-append y env.fiber_pool i))
  ];
  not_main = λ y h. elim (Bool-cases (i == y)) [
    | inl same ↦ subst (λ j. (env.fiber j).c_is_main ≡ false) ((==_iff i y).0 same) plain
    | inr other ↦ v.not_main y (ground (arith, count-append y env.fiber_pool i))
  ];
  made = λ y h. elim (Bool-cases (i == y)) [
    | inl same ↦ subst (λ j. j < env.next) ((==_iff i y).0 same) small
    | inr other ↦ v.made y (ground (arith, count-append y env.fiber_pool i))
  ];
  below = v.below;
}

pub yield_lem :
    (u : FiberEnvironment) {e' : FiberEnvironment}
    → yield u ≡ some e'
    → (s : List ℕ) × (record u { call_stack = s } ≡ e')
unfolding yield
yield_lem u {e'} h = go u.call_stack h
  where
    go :
        (l : List ℕ)
        → (elim l as (λ _. Option FiberEnvironment) [
          | [] ↦ none
          | x ∷ below ↦ elim below as (λ _. Option FiberEnvironment) [
            | [] ↦ none
            | y ∷ rest ↦ some (record u { call_stack = y ∷ rest })
          ]
        ])
          ≡ some e'
        → (s : List ℕ) × (record u { call_stack = s } ≡ e')
    go [] k = cc
    go (x ∷ []) k = cc
    go (x ∷ y ∷ rest) k = (y ∷ rest, some_inj (record u { call_stack = y ∷ rest }) e' k)
