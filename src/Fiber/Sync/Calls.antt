-- ===== src/Fiber/Sync/Calls.antt =====
-- Counting the calls of fibers by the statement at which they are.
use piorun.Prelude.{ℕ, ◌+◌, ◌≡◌, List, [], ◌∷◌, ◌++◌, arith}
use piorun.Fiber.Sync.{Fiber}

abbrev pub total : {P : Type 0} → (P → ℕ) → List (Fiber × P) → ℕ
total w [] = 0
total w ((f, p) ∷ calls) = w p + total w calls

pub total-split :
    {P : Type 0} (w : P → ℕ) (xs : List (Fiber × P)) (f : Fiber) (p : P) (ys : List (Fiber × P))
    → total w (xs ++ ((f, p) ∷ ys)) ≡ w p + total w (xs ++ ys)
total-split w [] f p ys = omega arith
total-split w ((g, q) ∷ xs) f p ys = omega (arith, total-split w xs f p ys)
