-- ===== src/Fiber/Hook/Poll/Merge.antt =====
-- The merged descriptors of poll of src/piorun/fiber/syshook.cc.
use piorun.Prelude.{
  ℕ, ◌<◌, ◌≡◌, refl, sym, ap, ◌∙◌, subst, List, [], ◌∷◌, ◌++◌, none, some, ◌==◌, length, get_elem?,
  ◌⊎◌, inl, inr, Bool-cases, Option-cases, arith, ==_iff, some_inj,
}
use piorun.Fiber.Poll.{PollFd, no_events}
use piorun.Fiber.Hook.Poll.{find, or_mask, or_events, merge_fds}
use piorun.Fiber.Hook.Poll.Sound.{
  IsSound, IsSound-new, IsSound-or_events, apart, count, count-append, count-or_events, events_from,
  find-here, find-there, get_elem?-append, get_elem?-length, get_elem?-or_events,
  get_elem?-or_events_other,
}

found_lem :
    (ps merged : List PollFd) (m : List (ℕ × ℕ)) (fd j : ℕ) (q : PollFd)
    → IsSound merged m
    → find m fd ≡ some j
    → get_elem? merged j ≡ some q
    → let (merged', m') = merge_fds merged m ps in
      (find m' fd ≡ some j)
      × (get_elem? merged' j ≡ some (record q { events = events_from q.events fd ps }))
      × (count fd merged' ≡ count fd merged)
unfolding merge_fds
found_lem [] merged m fd j q s h at_j = (h, at_j, refl)
found_lem (p ∷ ps) merged m fd j q s h at_j = elim (Option-cases (find m p.fd)) [
  | inl new ↦ elim (Bool-cases (p.fd == fd)) [
    | inl same ↦
        let e : p.fd ≡ fd = (==_iff p.fd fd).0 same in let no_fd = ap (find m) (sym e) ∙ new in cc
    | inr other ↦
        let (h', at', c) =
          found_lem ps (merged ++ (p ∷ [])) ((p.fd, length merged) ∷ m) fd j q
            (IsSound-new merged m p s) (find-there p.fd (length merged) m fd other ∙ h)
            (get_elem?-append merged (p ∷ []) j q at_j) in
        let n : count fd (merged ++ (p ∷ [])) ≡ count fd merged =
          ground (arith, count-append fd merged (p ∷ [])) in
        rw (new, other, merge_fds) (h', at', c ∙ n)
  ]
  | inr (i, old) ↦ elim (Bool-cases (p.fd == fd)) [
    | inl same ↦
        let e : p.fd ≡ fd = (==_iff p.fd fd).0 same in
        let at_i : i ≡ j = some_inj i j (sym old ∙ ap (find m) e ∙ h) in
        let updated =
          subst
            (λ k.
              get_elem? (or_events merged k p.events) j
              ≡ some (record q { events = or_mask q.events p.events }))
            (sym at_i) (get_elem?-or_events merged j q p.events at_j) in
        let (h', at', c) =
          found_lem ps (or_events merged i p.events) m fd j
            (record q { events = or_mask q.events p.events })
            (IsSound-or_events merged m i p.events s) h updated in
        rw (old, same, merge_fds) (h', at', c ∙ count-or_events fd merged i p.events)
    | inr other ↦
        let (h', at', c) =
          found_lem ps (or_events merged i p.events) m fd j q
            (IsSound-or_events merged m i p.events s) h
            (get_elem?-or_events_other merged j i p.events
                (apart merged m p.fd fd i j s old h other)
              ∙ at_j) in
        rw (old, other, merge_fds) (h', at', c ∙ count-or_events fd merged i p.events)
  ]
]

-- What the merged descriptors and the map have of a descriptor.
abbrev pub IsAbsent : ℕ → List PollFd → List PollFd → List (ℕ × ℕ) → Type 0
IsAbsent fd fds merged m = (count fd fds ≡ 0) × (count fd merged ≡ 0) × (find m fd ≡ none)

abbrev pub IsMerged : ℕ → List PollFd → List PollFd → List (ℕ × ℕ) → Type 0
IsMerged fd fds merged m =
    (0 < count fd fds)
    × (count fd merged ≡ 1)
    × ((j : ℕ) × (q : PollFd) × (find m fd ≡ some j)
        × (get_elem? merged j ≡ some q)
        × (q.fd ≡ fd)
        × (q.events ≡ events_from no_events fd fds))

missing_lem :
    (ps merged : List PollFd) (m : List (ℕ × ℕ)) (fd : ℕ)
    → IsSound merged m
    → find m fd ≡ none
    → count fd merged ≡ 0
    → let (merged', m') = merge_fds merged m ps in
      IsAbsent fd ps merged' m' ⊎ IsMerged fd ps merged' m'
unfolding merge_fds
missing_lem [] merged m fd s h z = inl (refl, z, h)
missing_lem (p ∷ ps) merged m fd s h z = elim (Option-cases (find m p.fd)) [
  | inl new ↦ elim (Bool-cases (p.fd == fd)) [
    | inl same ↦
        let (h', at', c) =
          found_lem ps (merged ++ (p ∷ [])) ((p.fd, length merged) ∷ m) fd (length merged) p
            (IsSound-new merged m p s) (find-here p.fd (length merged) m fd same)
            (get_elem?-length merged p) in
        let n : count fd (merged ++ (p ∷ [])) ≡ 1 =
          ground (arith, count-append fd merged (p ∷ [])) in
        rw (new, same, merge_fds)
          (inr (
            omega arith,
            c ∙ n,
            (
              length merged,
              record p { events = events_from p.events fd ps },
              h',
              at',
              (==_iff p.fd fd).0 same,
              refl,
            ),
          ))
    | inr other ↦
        rw (new, other, merge_fds)
          (missing_lem ps (merged ++ (p ∷ [])) ((p.fd, length merged) ∷ m) fd
            (IsSound-new merged m p s) (find-there p.fd (length merged) m fd other ∙ h)
            (ground (arith, count-append fd merged (p ∷ []))))
  ]
  | inr (i, old) ↦ elim (Bool-cases (p.fd == fd)) [
    | inl same ↦ let e : p.fd ≡ fd = (==_iff p.fd fd).0 same in let no_fd = ap (find m) e ∙ h in cc
    | inr other ↦
        rw (old, other, merge_fds)
          (missing_lem ps (or_events merged i p.events) m fd
            (IsSound-or_events merged m i p.events s) h (count-or_events fd merged i p.events ∙ z))
  ]
]

-- The merge of poll, for every descriptor number: if no entry is for it, neither the merged entries nor the map
-- has it. Otherwise exactly one merged entry is for it; the map has its index; and the entry asks for the
-- union of the events that the entries of the descriptor ask for.
pub merge_fds_lem :
    (fds : List PollFd) (fd : ℕ)
    → let (merged, m) = merge_fds [] [] fds in IsAbsent fd fds merged m ⊎ IsMerged fd fds merged m
unfolding IsSound find
merge_fds_lem fds fd = missing_lem fds [] [] fd (λ a j h. cc) refl refl
