-- ===== src/Fiber/Link/Tests.antt =====
-- A run of calls on the lists, and the theorem at it.
use piorun.Prelude.{◌≡◌, refl, List, [], ◌∷◌, none, some, arith}
use piorun.Fiber.Link.{Memory}
use piorun.Fiber.Link.Keeps.{cleared}
use piorun.Fiber.Link.Calls.{DoesAll, stop, step, run_all, links-Represent}
use piorun.Fiber.Link.Represents.{
  Lists, put, Represents, Call, adds, joins, removes, added, joined, removed,
}

abbrev all_empty : Lists
all_empty l = []

abbrev fresh : Memory
fresh = record { item = λ x. cleared; list = λ l. record { head = none; tail = none } }

fresh-Represents : Represents fresh all_empty
fresh-Represents = record { lists = λ l. (refl, tt); free = λ x out. refl }

-- Items 5 and 6 go to list 0, and 7 to list 1; the lists are joined, and 6 is taken out of the middle.
abbrev calls : List Call
calls = adds 0 5 ∷ adds 0 6 ∷ adds 1 7 ∷ joins 2 0 1 ∷ removes 6 ∷ []

abbrev with_5 : Lists
with_5 = put all_empty 0 (5 ∷ [])

abbrev with_6 : Lists
with_6 = put with_5 0 (5 ∷ 6 ∷ [])

abbrev with_7 : Lists
with_7 = put with_6 1 (7 ∷ [])

abbrev all_joined : Lists
all_joined = put (put with_7 0 (5 ∷ 6 ∷ 7 ∷ [])) 1 []

does_calls : DoesAll all_empty calls (put all_joined 0 (5 ∷ 7 ∷ []))
does_calls = step {b = with_5} (added (λ k. refl)) (
    step {b = with_6} (added (λ k. ground arith)) (
      step {b = with_7} (added (λ k. ground arith)) (
        step {b = all_joined} (joined refl (omega arith))
          (step (removed 0 (5 ∷ []) (7 ∷ []) refl) stop))))

links-Represent_example :
    (m' : Memory) × (run_all calls fresh ≡ some m') × Represents m' (put all_joined 0 (5 ∷ 7 ∷ []))
links-Represent_example = links-Represent calls fresh-Represents does_calls
