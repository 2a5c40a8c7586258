-- ===== src/Http/Conn/Found.antt =====
-- The end of a line in ParseLine: with more bytes behind those that it looks at, it does the same.
use piorun.Prelude.{
  ℕ, zero, suc, ◌+◌, ◌-◌, ◌^◌, ◌≤◌, ◌<◌, ◌≡◌, refl, sym, ap, ◌∙◌, inl, inr, ◌⊎◌, List, [], ◌∷◌,
  ◌++◌, Option, some, none, arith, take, drop, length, length-take, get_elem?, Option-cases,
  Bool-cases, some_inj, ◌≢◌, ltb→lt, ltb_false→le, min, Bool, true, false, if◌then◌else◌, ◌==◌, ltb,
  subst, ◌>>=◌, le→leb,
}
use piorun.Http.Conn.{Conn, LineStatus, line_ok, line_bad, line_open, add_u32, put, at_cr, at_lf}

pub get_elem?-take {ℓ} :
    {A : Type ℓ} (n i : ℕ) (xs : List A) → i < n → get_elem? (take n xs) i ≡ get_elem? xs i
get_elem?-take zero i xs h = absurd (omega arith)
get_elem?-take (suc n) i [] h = refl
get_elem?-take (suc n) zero (x ∷ xs) h = refl
get_elem?-take (suc n) (suc i) (x ∷ xs) h = get_elem?-take n i xs (omega arith)

-- More bytes in the buffer.
abbrev pub with_more : Conn → List ℕ → ℕ → Conn
with_more c buf n = record c { read_buf = buf; read_idx = n }

-- What ParseLine does on all the bytes, `whole`, when it has returned a complete or bad line on the first
-- `len` of them.
abbrev pub SameLine : ℕ → List ℕ → ℕ → Option (LineStatus × Conn) → LineStatus × Conn → Type 0
SameLine len buf n whole r =
    (r.0 ≢ line_open)
    × ((buf' : List ℕ) × (whole ≡ some (r.0, with_more r.1 buf' n))
        × (take len buf' ≡ take len r.1.read_buf)
        × (drop len buf' ≡ drop len buf))

overwrite : ℕ → ℕ → List ℕ → List ℕ
overwrite i x s = take i s ++ (x ∷ drop (suc i) s)

take-overwrite :
    (r i x : ℕ) (a b : List ℕ)
    → take r a ≡ take r b
    → i < length a
    → i < length b
    → take r (overwrite i x a) ≡ take r (overwrite i x b)
unfolding overwrite
take-overwrite zero i x a b h k l = refl
take-overwrite (suc r) i x [] b h k l = absurd (omega arith)
take-overwrite (suc r) i x (y ∷ a) [] h k l = absurd (omega arith)
take-overwrite (suc r) zero x (y ∷ a) (z ∷ b) h k l = ap (λ t. x ∷ drop 1 t) h
take-overwrite (suc r) (suc i) x (y ∷ a) (z ∷ b) h k l =
    let rest = take-overwrite r i x a b (ap (drop 1) h) (omega arith) (omega arith) in cc

drop-overwrite :
    (r i x : ℕ) (b : List ℕ) → i < r → i < length b → drop r (overwrite i x b) ≡ drop r b
unfolding overwrite
drop-overwrite zero i x b h k = absurd (omega arith)
drop-overwrite (suc r) i x [] h k = absurd (omega arith)
drop-overwrite (suc r) zero x (z ∷ b) h k = refl
drop-overwrite (suc r) (suc i) x (z ∷ b) h k = drop-overwrite r i x b (omega arith) (omega arith)

put_inside : (a : List ℕ) (i x : ℕ) → i < length a → put a i x ≡ some (overwrite i x a)
unfolding put overwrite
put_inside a i x h =
    rw (le→leb (i + 1) (length a) (omega arith)) (ap (λ m. some (take i a ++ (x ∷ drop m a))) next)
  where
    next : i + 1 ≡ suc i
    next = omega arith

put_outside : (a : List ℕ) (i x : ℕ) → length a ≤ i → put a i x ≡ none
unfolding put
put_outside a i x h = ground arith

-- Two buffers that begin with the same bytes, after a write into those.
put_same :
    (len i x : ℕ) (a b : List ℕ) {a' : List ℕ}
    → take len a ≡ take len b
    → i < len
    → put a i x ≡ some a'
    → (b' : List ℕ) × (put b i x ≡ some b')
      × (take len b' ≡ take len a')
      × (drop len b' ≡ drop len b)
put_same len i x a b {a'} h inside e = elim (Bool-cases (ltb i (length a))) [
  | inl k ↦
      let long : i < length b = omega (arith, ltb→lt i (length a) k, same_length) in
      (
        overwrite i x b,
        put_inside b i x long,
        sym (take-overwrite len i x a b h (ltb→lt i (length a) k) long)
            ∙ ap (take len) (some_inj _ _ (sym (put_inside a i x (ltb→lt i (length a) k)) ∙ e)),
        drop-overwrite len i x b inside long,
      )
  | inr k ↦ absurd (none_some (sym (put_outside a i x (ltb_false→le i (length a) k)) ∙ e))
]
  where
    same_length : min len (length a) ≡ min len (length b)
    same_length = sym (length-take len a) ∙ ap length h ∙ length-take len b

    none_some : {u : List ℕ} → ◌≢◌ {A = Option (List ℕ)} none (some u)
    none_some q = cc

-- Both bytes of a line's end replaced, and the line found.
ends_line : Conn → ℕ → ℕ → ℕ → Option (LineStatus × Conn)
ends_line c i j next = do
  buf ← put c.read_buf i 0
  buf' ← put buf j 0
  some (line_ok, record c { read_buf = buf'; checked_idx = next })

no_result : {r : LineStatus × Conn} → ◌≢◌ {A = Option (LineStatus × Conn)} none (some r)
no_result q = cc

ok_open : line_ok ≢ line_open
ok_open q = cc

bad_open : line_bad ≢ line_open
bad_open q = cc

ends_or_bad : Conn → Bool → ℕ → ℕ → ℕ → Option (LineStatus × Conn)
ends_or_bad c b i j next = if b then ends_line c i j next else some (line_bad, c)

module _ (c : Conn) where
  at_cr-last : (add_u32 c.checked_idx 1 == c.read_idx) ≡ true → at_cr c ≡ some (line_open, c)
  unfolding at_cr
  at_cr-last h = rw h refl

  at_cr-outside :
      (add_u32 c.checked_idx 1 == c.read_idx) ≡ false
      → get_elem? c.read_buf (add_u32 c.checked_idx 1) ≡ none
      → at_cr c ≡ none
  unfolding at_cr
  at_cr-outside h g = rw (h, g) refl

  at_cr-inside :
      (x : ℕ)
      → (add_u32 c.checked_idx 1 == c.read_idx) ≡ false
      → get_elem? c.read_buf (add_u32 c.checked_idx 1) ≡ some x
      → at_cr c
        ≡ ends_or_bad c
            (x == b'\n')
            c.checked_idx
            (add_u32 c.checked_idx 1)
            (add_u32 (add_u32 c.checked_idx 1) 1)
  unfolding at_cr ends_or_bad ends_line
  at_cr-inside x h g = rw (h, g) refl

  at_lf-first : ltb 1 c.checked_idx ≡ false → at_lf c ≡ some (line_bad, c)
  unfolding at_lf
  at_lf-first h = rw h refl

  at_lf-outside :
      ltb 1 c.checked_idx ≡ true → get_elem? c.read_buf (c.checked_idx - 1) ≡ none → at_lf c ≡ none
  unfolding at_lf
  at_lf-outside h g = rw (h, g) refl

  at_lf-behind :
      (x : ℕ)
      → ltb 1 c.checked_idx ≡ true
      → get_elem? c.read_buf (c.checked_idx - 1) ≡ some x
      → at_lf c
        ≡ ends_or_bad c (x == b'\r') (c.checked_idx - 1) c.checked_idx (add_u32 c.checked_idx 1)
  unfolding at_lf ends_or_bad ends_line
  at_lf-behind x h g = rw (h, g) refl

module _ (c : Conn) (buf : List ℕ) (n : ℕ) (more : c.read_idx ≤ n) (small : n < 2 ^ 32)
    (same : take c.read_idx buf ≡ take c.read_idx c.read_buf) where
  abbrev all : Conn
  all = with_more c buf n

  Same : Option (LineStatus × Conn) → LineStatus × Conn → Type 0
  Same = SameLine c.read_idx buf n

  ends_line-Same :
      (i j next : ℕ) {r : LineStatus × Conn}
      → i < c.read_idx
      → j < c.read_idx
      → ends_line c i j next ≡ some r
      → Same (ends_line all i j next) r
  unfolding ends_line Same
  ends_line-Same i j next {r} hi hj e = elim (Option-cases (put c.read_buf i 0)) [
    | inl none₁ ↦ absurd (no_result (rw none₁ at e))
    | inr (a₁, e₁) ↦
        let (b₁, f₁, t₁, d₁) = put_same c.read_idx i 0 c.read_buf buf (sym same) hi e₁ in
        elim (Option-cases (put a₁ j 0)) [
          | inl none₂ ↦ absurd (no_result (rw (e₁, none₂) at e))
          | inr (a₂, e₂) ↦
              let (b₂, f₂, t₂, d₂) = put_same c.read_idx j 0 a₁ b₁ (sym t₁) hj e₂ in
              let found =
                some_inj (line_ok, record c { read_buf = a₂; checked_idx = next }) r
                  (rw (e₁, e₂) at e) in
              subst (SameLine c.read_idx buf n (ends_line all i j next)) found
                (ok_open, (b₂, rw (f₁, f₂) refl, t₂, d₂ ∙ d₁))
        ]
  ]

  bad-Same : {r : LineStatus × Conn} → some (line_bad, c) ≡ some r → Same (some (line_bad, all)) r
  unfolding Same
  bad-Same {r} e =
      subst (SameLine c.read_idx buf n (some (line_bad, all))) (some_inj _ _ e)
        (bad_open, (buf, refl, same, refl))

  ends_or_bad-Same :
      (b : Bool) (i j next : ℕ) {r : LineStatus × Conn}
      → i < c.read_idx
      → j < c.read_idx
      → ends_or_bad c b i j next ≡ some r
      → Same (ends_or_bad all b i j next) r
  unfolding ends_or_bad
  ends_or_bad-Same true i j next hi hj e = ends_line-Same i j next hi hj e
  ends_or_bad-Same false i j next hi hj e = bad-Same e

  pub kept : (i : ℕ) → i < c.read_idx → get_elem? buf i ≡ get_elem? c.read_buf i
  kept i h =
      sym (get_elem?-take c.read_idx i buf h)
      ∙ ap (λ l. get_elem? l i) same
      ∙ get_elem?-take c.read_idx i c.read_buf h

  -- What the turn of the loop at a '\n' has answered, it answers on all the bytes.
  pub at_lf-Same :
      {r : LineStatus × Conn}
      → c.checked_idx < c.read_idx
      → at_lf c ≡ some r
      → SameLine c.read_idx buf n (at_lf all) r
  unfolding Same
  at_lf-Same {r} h e = elim (Bool-cases (ltb 1 c.checked_idx)) [
    | inr first ↦ rw (at_lf-first all first) (bad-Same (sym (at_lf-first c first) ∙ e))
    | inl behind ↦ elim (Option-cases (get_elem? c.read_buf (c.checked_idx - 1))) [
      | inl out ↦ absurd (no_result (sym (at_lf-outside c behind out) ∙ e))
      | inr (x, at) ↦ rw (at_lf-behind all x behind (kept (c.checked_idx - 1) (omega arith) ∙ at)) (
          ends_or_bad-Same (x == b'\r') (c.checked_idx - 1) c.checked_idx (add_u32 c.checked_idx 1)
            (omega arith) h (sym (at_lf-behind c x behind at) ∙ e))
    ]
  ]

  -- What the turn at a '\r' has answered, it answers on all the bytes, if it is not the last byte.
  pub at_cr-Same :
      {r : LineStatus × Conn}
      → c.checked_idx < c.read_idx
      → at_cr c ≡ some r
      → ((line_open, c) ≡ r) ⊎ SameLine c.read_idx buf n (at_cr all) r
  unfolding Same
  at_cr-Same {r} h e = elim (Bool-cases (add_u32 c.checked_idx 1 == c.read_idx)) [
    | inl last ↦ inl (some_inj _ _ (sym (at_cr-last c last) ∙ e))
    | inr inside ↦ elim (Option-cases (get_elem? c.read_buf (add_u32 c.checked_idx 1))) [
      | inl out ↦ absurd (no_result (sym (at_cr-outside c inside out) ∙ e))
      | inr (x, at) ↦
          let here : add_u32 c.checked_idx 1 ≡ c.checked_idx + 1 = omega arith in
          let below : add_u32 c.checked_idx 1 < c.read_idx = ground (arith, here) in
          inr (
            rw
              (at_cr-inside all x (ground (arith, below))
                (kept (add_u32 c.checked_idx 1) below ∙ at))
              (ends_or_bad-Same (x == b'\n') c.checked_idx (add_u32 c.checked_idx 1)
                (add_u32 (add_u32 c.checked_idx 1) 1) h below
                (sym (at_cr-inside c x inside at) ∙ e)))
    ]
  ]
