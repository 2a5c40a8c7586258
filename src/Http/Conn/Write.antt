-- ===== src/Http/Conn/Write.antt =====
-- What AddResponse and the functions above it leave in write_buf_.
use piorun.Prelude.{
  ℕ, ◌+◌, ◌-◌, ◌≤◌, ◌<◌, ◌≡◌, refl, sym, ap, ◌∙◌, inl, inr, ◌⊎◌, List, [], ◌∷◌, ◌++◌, some, Bool,
  true, false, arith, length, take, drop, length-append, length-take, length-drop, take-append,
  take_all, append_assoc, le→leb, lt→leb_false, ◌>>=◌,
}
use piorun.Http.Conn.{Conn, buffer_size, add_u32}
use piorun.Http.Conn.Reply.{Writes, room, add_response}

-- The buffer with `text` and a NUL put at `pos`.
abbrev pub overwrite : List ℕ → ℕ → List ℕ → List ℕ
overwrite buf pos text =
    take pos buf ++ ((text ++ (0 ∷ [])) ++ drop (pos + length (text ++ (0 ∷ []))) buf)

le-or-lt : (a b : ℕ) → (a ≤ b) ⊎ (b < a)
le-or-lt a b = omega arith

length-overwrite :
    (buf : List ℕ) (pos : ℕ) (text : List ℕ)
    → pos + length text + 1 ≤ length buf
    → length (overwrite buf pos text) ≡ length buf
length-overwrite buf pos text h = omega (
  arith,
  length-append (take pos buf) ((text ++ (0 ∷ [])) ++ drop (pos + length (text ++ (0 ∷ []))) buf),
  length-append (text ++ (0 ∷ [])) (drop (pos + length (text ++ (0 ∷ []))) buf),
  length-append text (0 ∷ []),
  length-take pos buf,
  length-drop (pos + length (text ++ (0 ∷ []))) buf,
)

take-overwrite :
    (buf : List ℕ) (pos : ℕ) (text : List ℕ)
    → pos + length text + 1 ≤ length buf
    → take (pos + length text) (overwrite buf pos text) ≡ take pos buf ++ text
take-overwrite buf pos text h =
    ap (λ l. take (pos + length text) l)
      (ap (λ l. take pos buf ++ l) (append_assoc text (0 ∷ []) tail)
        ∙ sym (append_assoc (take pos buf) text ((0 ∷ []) ++ tail)))
    ∙ take-append (take pos buf ++ text) ((0 ∷ []) ++ tail) (pos + length text)
        (omega (arith, length-append (take pos buf) text, length-take pos buf))
  where
    tail : List ℕ
    tail = drop (pos + length (text ++ (0 ∷ []))) buf

keep-overwrite :
    (buf : List ℕ) (pos : ℕ) (text : List ℕ)
    → pos ≤ length buf
    → take pos (overwrite buf pos text) ≡ take pos buf
keep-overwrite buf pos text h =
    take-append (take pos buf) ((text ++ (0 ∷ [])) ++ drop (pos + length (text ++ (0 ∷ []))) buf)
      pos (omega (arith, length-take pos buf))

module _ (c : Conn) (text : List ℕ) (size : length c.write_buf ≡ buffer_size) where
  -- The connection with `text` behind what it had to write.
  abbrev wrote : List ℕ → Conn
  wrote buf = record c { write_buf = buf; write_idx = c.write_idx + length text }

  add_response_fits :
      c.write_idx + length text < buffer_size - 1
      → add_response c text ≡ some (true, wrote (overwrite c.write_buf c.write_idx text))
  unfolding add_response
  add_response_fits h =
      rw
        (
          lt→leb_false buffer_size c.write_idx (omega arith),
          room_is,
          lt→leb_false (buffer_size - 1 - c.write_idx) 0 (omega arith),
          take_all text (buffer_size - 1 - c.write_idx - 1) (omega arith),
          le→leb (c.write_idx + length (text ++ (0 ∷ []))) (length c.write_buf)
              (omega (arith, size, length-append text (0 ∷ []))),
          lt→leb_false (buffer_size - 1 - c.write_idx) (length text) (omega arith),
          index,
        )
        refl
    where
      room_is : room c ≡ buffer_size - 1 - c.write_idx
      room_is = omega arith

      index : add_u32 c.write_idx (length text) ≡ c.write_idx + length text
      index = omega arith

  abbrev cut : List ℕ
  cut = take (buffer_size - 1 - c.write_idx - 1) text

  add_response-cut :
      c.write_idx < buffer_size - 1
      → buffer_size - 1 ≤ c.write_idx + length text
      → add_response c text
        ≡ some (false, record c { write_buf = overwrite c.write_buf c.write_idx cut })
  unfolding add_response
  add_response-cut h k =
      rw
        (
          lt→leb_false buffer_size c.write_idx (omega arith),
          room_is,
          lt→leb_false (buffer_size - 1 - c.write_idx) 0 (omega arith),
          le→leb (c.write_idx + length (cut ++ (0 ∷ []))) (length c.write_buf) (
              omega (
                arith,
                size,
                length-append cut (0 ∷ []),
                length-take (buffer_size - 1 - c.write_idx - 1) text,
              )),
          le→leb (buffer_size - 1 - c.write_idx) (length text) (omega arith),
        )
        refl
    where
      room_is : room c ≡ buffer_size - 1 - c.write_idx
      room_is = omega arith

  add_response_last : c.write_idx ≡ buffer_size - 1 → add_response c text ≡ some (false, c)
  unfolding add_response
  add_response_last h =
      rw
        (
          lt→leb_false buffer_size c.write_idx (omega arith),
          room_is,
          le→leb 0 (length text) (omega arith),
        )
        refl
    where
      room_is : room c ≡ 0
      room_is = omega arith

  add_response_over : buffer_size ≤ c.write_idx → add_response c text ≡ some (false, c)
  unfolding add_response
  add_response_over h = rw (le→leb buffer_size c.write_idx h) refl

  -- The two results of AddResponse: the text stands behind what there was to write, or does not fit.
  pub Fits : List ℕ → Type 0
  Fits buf =
      (add_response c text ≡ some (true, wrote buf))
      × (take (c.write_idx + length text) buf ≡ take c.write_idx c.write_buf ++ text)
      × (c.write_idx + length text < buffer_size - 1)

  pub Overflows : List ℕ → Type 0
  Overflows buf =
      (add_response c text ≡ some (false, record c { write_buf = buf }))
      × (take c.write_idx buf ≡ take c.write_idx c.write_buf)
      × (buffer_size - 1 ≤ c.write_idx + length text)

  -- AddResponse, on a write buffer of 1024 bytes and at any write_idx_, touches no memory outside. If the
  -- text with two more bytes fits behind write_idx_, it returns true, the text stands behind the bytes
  -- that were there, and write_idx_ is behind it. If not, it returns false, and write_idx_ and the bytes
  -- before it are as they were. The rest of the connection stays.
  pub add_response_lem : (buf : List ℕ) × (length buf ≡ buffer_size) × (Fits buf ⊎ Overflows buf)
  unfolding Fits Overflows
  add_response_lem = elim (le-or-lt (buffer_size - 1) (c.write_idx + length text)) [
    | inr short ↦ (
      overwrite c.write_buf c.write_idx text,
      length-overwrite c.write_buf c.write_idx text (omega (arith, size)) ∙ size,
      inl (
        add_response_fits short,
        take-overwrite c.write_buf c.write_idx text (omega (arith, size)),
        short,
      ),
    )
    | inl long ↦ elim (le-or-lt (buffer_size - 1) c.write_idx) [
      | inr before ↦ (
        overwrite c.write_buf c.write_idx cut,
        length-overwrite c.write_buf c.write_idx cut
              (omega (arith, size, length-take (buffer_size - 1 - c.write_idx - 1) text))
            ∙ size,
        inr (
          add_response-cut before long,
          keep-overwrite c.write_buf c.write_idx cut (omega (arith, size)),
          long,
        ),
      )
      | inl full ↦ elim (le-or-lt buffer_size c.write_idx) [
        | inl over ↦ (c.write_buf, size, inr (add_response_over over, refl, long))
        | inr last ↦ (c.write_buf, size, inr (add_response_last (omega arith), refl, long))
      ]
    ]
  ]

-- `text` is added by a step.
unfoldable pub Adds : Conn → List ℕ → Writes → Type 0
Adds c text w =
    (buf : List ℕ) × (w
      ≡ some (true, record c { write_buf = buf; write_idx = c.write_idx + length text }))
    × (length buf ≡ buffer_size)
    × (take (c.write_idx + length text) buf ≡ take c.write_idx c.write_buf ++ text)

module _ (c : Conn) (size : length c.write_buf ≡ buffer_size) where
  pub Adds-add_response :
      (text : List ℕ)
      → c.write_idx + length text < buffer_size - 1
      → Adds c text (add_response c text)
  unfolding Adds
  Adds-add_response text h = (
    overwrite c.write_buf c.write_idx text,
    add_response_fits c text size h,
    length-overwrite c.write_buf c.write_idx text (omega (arith, size)) ∙ size,
    take-overwrite c.write_buf c.write_idx text (omega (arith, size)),
  )

  -- One text after another.
  pub Adds-bind :
      (w : Writes) (f : Bool × Conn → Writes) (first second : List ℕ)
      → Adds c first w
      → ((buf : List ℕ)
          → length buf ≡ buffer_size
          → Adds
              (record c { write_buf = buf; write_idx = c.write_idx + length first })
              second
              (f (true, record c { write_buf = buf; write_idx = c.write_idx + length first })))
      → Adds c (first ++ second) (w >>= f)
  unfolding Adds
  Adds-bind w f first second (buf, e, l, t) next = (
    (next buf l).0,
    rw (e, (next buf l).1, total) refl,
    (next buf l).2,
    rw total (
        (next buf l).3
        ∙ ap (λ u. u ++ second) t
        ∙ append_assoc (take c.write_idx c.write_buf) first second),
  )
    where
      total : c.write_idx + length (first ++ second) ≡ c.write_idx + length first + length second
      total = omega (arith, length-append first second)
