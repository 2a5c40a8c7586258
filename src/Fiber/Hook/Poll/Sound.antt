-- ===== src/Fiber/Hook/Poll/Sound.antt =====
-- How the map and the merged descriptors of poll of src/piorun/fiber/syshook.cc fit together.
use piorun.Prelude.{
  ℕ, zero, suc, ◌+◌, ◌≡◌, refl, sym, ap, ◌∙◌, subst, List, [], ◌∷◌, ◌++◌, some, true, false, ◌==◌,
  if◌then◌else◌, length, get_elem?, inl, inr, Bool-cases, arith, ==_iff, some_inj,
}
use piorun.Fiber.Poll.{PollMask, PollFd}
use piorun.Fiber.Hook.Poll.{find, or_mask, or_events}

-- How often a descriptor stands in a list.
abbrev pub count : ℕ → List PollFd → ℕ
count fd [] = 0
count fd (p ∷ ps) = do let rest = count fd ps; if p.fd == fd then suc rest else rest

-- The events of `held` and those that the entries of a descriptor ask for.
abbrev pub events_from : PollMask → ℕ → List PollFd → PollMask
events_from held fd [] = held
events_from held fd (p ∷ ps) =
    events_from (if p.fd == fd then or_mask held p.events else held) fd ps

pub count-append : (fd : ℕ) (xs ys : List PollFd) → count fd (xs ++ ys) ≡ count fd xs + count fd ys
count-append fd [] ys = omega arith
count-append fd (x ∷ xs) ys = ground (arith, count-append fd xs ys)

pub count-or_events :
    (fd : ℕ) (l : List PollFd) (j : ℕ) (e : PollMask) → count fd (or_events l j e) ≡ count fd l
unfolding or_events
count-or_events fd [] j e = refl
count-or_events fd (p ∷ ps) zero e = refl
count-or_events fd (p ∷ ps) (suc j) e =
    ap (λ n. if p.fd == fd then suc n else n) (count-or_events fd ps j e)

pub get_elem?-or_events :
    (l : List PollFd) (j : ℕ) (q : PollFd) (e : PollMask)
    → get_elem? l j ≡ some q
    → get_elem? (or_events l j e) j ≡ some (record q { events = or_mask q.events e })
unfolding or_events
get_elem?-or_events [] j q e h = cc
get_elem?-or_events (p ∷ ps) zero q e h =
    ap (λ (r : PollFd). some (record r { events = or_mask r.events e })) (some_inj p q h)
get_elem?-or_events (p ∷ ps) (suc j) q e h = get_elem?-or_events ps j q e h

pub get_elem?-or_events_other :
    (l : List PollFd) (i j : ℕ) (e : PollMask)
    → (i == j) ≡ false
    → get_elem? (or_events l j e) i ≡ get_elem? l i
unfolding or_events
get_elem?-or_events_other [] i j e d = refl
get_elem?-or_events_other (p ∷ ps) zero zero e d = cc
get_elem?-or_events_other (p ∷ ps) (suc i) zero e d = refl
get_elem?-or_events_other (p ∷ ps) zero (suc j) e d = refl
get_elem?-or_events_other (p ∷ ps) (suc i) (suc j) e d =
    get_elem?-or_events_other ps i j e (ground arith)

pub get_elem?-append :
    (l r : List PollFd) (i : ℕ) (q : PollFd)
    → get_elem? l i ≡ some q
    → get_elem? (l ++ r) i ≡ some q
get_elem?-append [] r i q h = cc
get_elem?-append (p ∷ ps) r zero q h = h
get_elem?-append (p ∷ ps) r (suc i) q h = get_elem?-append ps r i q h

pub get_elem?-length :
    (l : List PollFd) (p : PollFd) → get_elem? (l ++ (p ∷ [])) (length l) ≡ some p
get_elem?-length [] p = refl
get_elem?-length (x ∷ xs) p = get_elem?-length xs p

-- Every index of the map is that of an entry with the descriptor.
unfoldable pub IsSound : List PollFd → List (ℕ × ℕ) → Type 0
IsSound merged m =
    (fd j : ℕ) → find m fd ≡ some j → (q : PollFd) × (get_elem? merged j ≡ some q) × (q.fd ≡ fd)

pub find-here :
    (key i : ℕ) (m : List (ℕ × ℕ)) (fd : ℕ) → (key == fd) ≡ true → find ((key, i) ∷ m) fd ≡ some i
unfolding find
find-here key i m fd e = rw e refl

pub find-there :
    (key i : ℕ) (m : List (ℕ × ℕ)) (fd : ℕ)
    → (key == fd) ≡ false
    → find ((key, i) ∷ m) fd ≡ find m fd
unfolding find
find-there key i m fd e = rw e refl

pub IsSound-new :
    (merged : List PollFd) (m : List (ℕ × ℕ)) (p : PollFd)
    → IsSound merged m
    → IsSound (merged ++ (p ∷ [])) ((p.fd, length merged) ∷ m)
unfolding IsSound
IsSound-new merged m p s fd j h = elim (Bool-cases (p.fd == fd)) [
  | inl same ↦
      let at : length merged ≡ j =
        some_inj (length merged) j (sym (find-here p.fd (length merged) m fd same) ∙ h) in
      (
        p,
        subst (λ i. get_elem? (merged ++ (p ∷ [])) i ≡ some p) at (get_elem?-length merged p),
        (==_iff p.fd fd).0 same,
      )
  | inr other ↦
      let (q, at_j, is_fd) = s fd j (sym (find-there p.fd (length merged) m fd other) ∙ h) in
      (q, get_elem?-append merged (p ∷ []) j q at_j, is_fd)
]

pub IsSound-or_events :
    (merged : List PollFd) (m : List (ℕ × ℕ)) (i : ℕ) (e : PollMask)
    → IsSound merged m
    → IsSound (or_events merged i e) m
unfolding IsSound
IsSound-or_events merged m i e s fd j h =
    let (q, at_j, same) = s fd j h in
    elim (Bool-cases (j == i)) [
      | inl here ↦
          let eq : j ≡ i = (==_iff j i).0 here in
          (
            record q { events = or_mask q.events e },
            subst
                (λ k.
                  get_elem? (or_events merged k e) j
                  ≡ some (record q { events = or_mask q.events e }))
                eq (get_elem?-or_events merged j q e at_j),
            same,
          )
      | inr other ↦ (q, get_elem?-or_events_other merged j i e other ∙ at_j, same)
    ]

-- Entries of different descriptors have different indexes.
pub apart :
    (merged : List PollFd) (m : List (ℕ × ℕ)) (a b i j : ℕ)
    → IsSound merged m
    → find m a ≡ some i
    → find m b ≡ some j
    → (a == b) ≡ false
    → (j == i) ≡ false
unfolding IsSound
apart merged m a b i j s h k d = elim (Bool-cases (j == i)) [
  | inr other ↦ other
  | inl same ↦
      let (q, at_i, is_a) = s a i h in
      let (r, at_j, is_b) = s b j k in
      let e : j ≡ i = (==_iff j i).0 same in
      let one : q ≡ r = some_inj q r (sym at_i ∙ ap (get_elem? merged) (sym e) ∙ at_j) in
      let fds : a ≡ b = sym is_a ∙ ap (λ (x : PollFd). x.fd) one ∙ is_b in
      absurd (ground (arith, fds))
]
