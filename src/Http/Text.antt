-- ===== src/Http/Text.antt =====
-- std::string as a list of bytes, and std::unordered_map from texts as a list of pairs.
use piorun.Prelude.{
  ℕ, ◌≡◌, ◌≢◌, refl, List, [], ◌∷◌, Option, none, some, Bool, Bool-cases, inl, inr, true, false,
  ◌||◌, ◌==◌, if◌then◌else◌, ◌>>=◌, arith, ==_refl,
}

abbrev pub Text : Type 0
Text = List ℕ

-- operator==.
unfoldable pub same : Text → Text → Bool
same [] [] = true
same [] (d ∷ ds) = false
same (c ∷ cs) [] = false
same (c ∷ cs) (d ∷ ds) = if c == d then same cs ds else false

pub same_refl : (s : Text) → same s s ≡ true
unfolding same
same_refl [] = refl
same_refl (c ∷ cs) = rw (==_refl c, same_refl cs) refl

pub same→eq : (s t : Text) → same s t ≡ true → s ≡ t
unfolding same
same→eq [] [] e = refl
same→eq [] (d ∷ ds) e = cc
same→eq (c ∷ cs) [] e = cc
same→eq (c ∷ cs) (d ∷ ds) e = ground (arith, same→eq cs ds)

abbrev pub has : ℕ → Text → Bool
has c [] = false
has c (x ∷ xs) = (x == c) || has c xs

-- The text before the first `c`, and the text behind it.
abbrev pub cut_at : ℕ → Text → Option (Text × Text)
cut_at c [] = none
cut_at c (x ∷ xs) = do
  let rest = cut_at c xs
  if x == c then some ([], xs) else (do r ← rest; some (x ∷ r.0, r.1))

-- The text behind a prefix.
abbrev pub strip : Text → Text → Option Text
strip [] s = some s
strip (c ∷ cs) [] = none
strip (c ∷ cs) (d ∷ ds) = if c == d then strip cs ds else none

module _ {ℓ} {V : Type ℓ} where
  unfoldable pub lookup : Text → List (Text × V) → Option V
  lookup k [] = none
  lookup k ((j, v) ∷ m) = if same j k then some v else lookup k m

  -- m[k] = v.
  unfoldable pub insert : Text → V → List (Text × V) → List (Text × V)
  insert k v [] = (k, v) ∷ []
  insert k v ((j, w) ∷ m) = if same j k then (k, v) ∷ m else (j, w) ∷ insert k v m

-- m[k], which puts in the empty text for a missing key.
unfoldable pub index_with : Text → Option Text → List (Text × Text) → Text × List (Text × Text)
index_with k (some v) m = (v, m)
index_with k none m = ([], insert k [] m)

unfoldable pub index : Text → List (Text × Text) → Text × List (Text × Text)
unfolding index_with
index k m = index_with k (lookup k m) m

pub same-other : (s t : Text) → s ≢ t → same s t ≡ false
same-other s t h = elim (Bool-cases (same s t)) [ inl e ↦ absurd (h (same→eq s t e)) | inr e ↦ e ]
