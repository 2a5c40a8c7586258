-- ===== src/Http/Conn/Line.antt =====
-- ParseLine: what it does at a complete line, and its bounds.
use piorun.Prelude.{
  ℕ, zero, suc, ◌+◌, ◌-◌, ◌^◌, ◌≤◌, ◌<◌, ◌≡◌, ◌≢◌, refl, sym, ◌∙◌, List, [], ◌∷◌, ◌++◌, some, none,
  arith, length, length-append, take-append, drop-append_add, append_assoc, get_elem?, All, le→leb,
  ◌==◌, false,
}
use piorun.Http.Conn.{Conn, line_ok, add_u32, put, at_cr, line_turn, scan_line, parse_line}

-- A byte that does not end a line.
unfoldable pub IsPlain : ℕ → Type 0
IsPlain x = (x ≢ b'\r') × (x ≢ b'\n')

pub get_elem?-append :
    (pre post : List ℕ) (x : ℕ) → get_elem? (pre ++ (x ∷ post)) (length pre) ≡ some x
get_elem?-append [] post x = refl
get_elem?-append (y ∷ pre) post x = get_elem?-append pre post x

get_elem?-at :
    {buf : List ℕ} {i : ℕ} (pre post : List ℕ) (x : ℕ)
    → buf ≡ pre ++ (x ∷ post)
    → i ≡ length pre
    → get_elem? buf i ≡ some x
get_elem?-at pre post x h k = rw (h, k) (get_elem?-append pre post x)

put-at :
    {buf : List ℕ} {i : ℕ} (pre post : List ℕ) (old x : ℕ)
    → buf ≡ pre ++ (old ∷ post)
    → i ≡ length pre
    → put buf i x ≡ some (pre ++ (x ∷ post))
unfolding put
put-at pre post old x h k =
    rw
      (
        h,
        k,
        le→leb (length pre + 1) (length (pre ++ (old ∷ post)))
            (omega (arith, length-append pre (old ∷ post))),
        take-append pre (old ∷ post) (length pre) refl,
        drop-append_add pre (old ∷ post) (length pre + 1) 1 refl,
      )
      refl

==_false : (a b : ℕ) → a < b → (a == b) ≡ false
==_false a b h = ground arith

pub add_u32-suc : (a b : ℕ) → a + 1 ≤ b → b < 2 ^ 32 → add_u32 a 1 ≡ a + 1
add_u32-suc a b h k = omega arith

pub line_turn-plain : (c : Conn) (x : ℕ) → IsPlain x → line_turn c x ≡ some none
unfolding line_turn IsPlain
line_turn-plain c x h = ground arith

behind : (pre post : List ℕ) (x : ℕ) → pre ++ (x ∷ post) ≡ (pre ++ (x ∷ [])) ++ post
behind pre post x = sym (append_assoc pre (x ∷ []) post)

length-behind : (pre : List ℕ) (x : ℕ) → length (pre ++ (x ∷ [])) ≡ length pre + 1
length-behind pre x = length-append pre (x ∷ [])

add_zero : (n : ℕ) → n + 0 ≡ n
add_zero n = omega arith

add_twice : (n : ℕ) → n + 1 + 1 ≡ n + 2
add_twice n = omega arith

module _ (c : Conn) (pre rest : List ℕ) (small : c.read_idx < 2 ^ 32) where
  at_cr_takes :
      c.read_buf ≡ pre ++ (b'\r' ∷ b'\n' ∷ rest)
      → c.checked_idx ≡ length pre
      → length pre + 2 ≤ c.read_idx
      → at_cr c
        ≡ some
            (line_ok, record c { read_buf = pre ++ (0 ∷ 0 ∷ rest); checked_idx = length pre + 2 })
  unfolding at_cr
  at_cr_takes h k l =
      rw
        (
          add_u32-suc c.checked_idx c.read_idx (omega (arith, k)) small,
          ==_false (c.checked_idx + 1) c.read_idx (omega (arith, k)),
          get_elem?-at {buf = c.read_buf} {i = c.checked_idx + 1} (pre ++ (b'\r' ∷ [])) rest b'\n'
              (h ∙ behind pre (b'\n' ∷ rest) b'\r') (omega (arith, k, length-behind pre b'\r')),
          put-at {buf = c.read_buf} {i = c.checked_idx} pre (b'\n' ∷ rest) b'\r' 0 h k,
          put-at {buf = pre ++ (0 ∷ b'\n' ∷ rest)} {i = c.checked_idx + 1} (pre ++ (0 ∷ [])) rest
              b'\n' 0 (behind pre (b'\n' ∷ rest) 0) (omega (arith, k, length-behind pre 0)),
          add_u32-suc (c.checked_idx + 1) c.read_idx (omega (arith, k)) small,
          sym (behind pre (0 ∷ rest) 0),
          k,
          add_twice (length pre),
        )
        refl

  ends_line :
      (k : ℕ)
      → c.read_buf ≡ pre ++ (b'\r' ∷ b'\n' ∷ rest)
      → c.checked_idx ≡ length pre
      → length pre + 2 ≤ c.read_idx
      → scan_line (suc k) c
        ≡ some
            (line_ok, record c { read_buf = pre ++ (0 ∷ 0 ∷ rest); checked_idx = length pre + 2 })
  unfolding scan_line line_turn
  ends_line k h e l = rw (get_elem?-at pre (b'\n' ∷ rest) b'\r' h e, at_cr_takes h e l) refl

pub scan_line-plain :
    (k : ℕ) (c : Conn) (x : ℕ)
    → get_elem? c.read_buf c.checked_idx ≡ some x
    → IsPlain x
    → scan_line (suc k) c ≡ scan_line k (record c { checked_idx = add_u32 c.checked_idx 1 })
unfolding scan_line
scan_line-plain k c x h p = rw (h, line_turn-plain c x p) refl

scan_line_takes :
    (line : List ℕ) (c : Conn) (pre rest : List ℕ) (k : ℕ)
    → c.read_buf ≡ pre ++ (line ++ (b'\r' ∷ b'\n' ∷ rest))
    → c.checked_idx ≡ length pre
    → length pre + length line + 2 ≤ c.read_idx
    → c.read_idx < 2 ^ 32
    → All IsPlain line
    → c.checked_idx + k ≡ c.read_idx
    → scan_line k c
      ≡ some (
        line_ok,
        record c {
          read_buf = pre ++ (line ++ (0 ∷ 0 ∷ rest));
          checked_idx = length pre + length line + 2;
        },
      )
scan_line_takes line c pre rest zero h e l small plain fuel = absurd (omega arith)
scan_line_takes [] c pre rest (suc k) h e l small plain fuel =
    ends_line c pre rest small k h e (omega arith) ∙ rw (add_zero (length pre)) refl
scan_line_takes (x ∷ line) c pre rest (suc k) h e l small plain fuel =
    scan_line-plain k c x (get_elem?-at pre (line ++ (b'\r' ∷ b'\n' ∷ rest)) x h e) plain.0
    ∙ scan_line_takes line next (pre ++ (x ∷ [])) rest k
        (h ∙ behind pre (line ++ (b'\r' ∷ b'\n' ∷ rest)) x) here
        (omega (arith, length-behind pre x)) small plain.1 (omega arith)
    ∙ rw (sym (behind pre (line ++ (0 ∷ 0 ∷ rest)) x), total) refl
  where
    next : Conn
    next = record c { checked_idx = add_u32 c.checked_idx 1 }

    here : next.checked_idx ≡ length (pre ++ (x ∷ []))
    here = omega (arith, e, l, small, length-behind pre x)

    total : length (pre ++ (x ∷ [])) + length line + 2 ≡ length pre + suc (length line) + 2
    total = omega (arith, length-behind pre x)

-- When the bytes from checked_idx_ on are a line without '\r' and '\n', then "\r\n", and both are read
-- in, ParseLine returns LINE_OK, has put two NULs in place of the line's end, has moved checked_idx_
-- behind it, and has changed nothing else.
pub parse_line_takes :
    (c : Conn) (pre line rest : List ℕ)
    → c.read_buf ≡ pre ++ (line ++ (b'\r' ∷ b'\n' ∷ rest))
    → c.checked_idx ≡ length pre
    → length pre + length line + 2 ≤ c.read_idx
    → c.read_idx < 2 ^ 32
    → All IsPlain line
    → parse_line c
      ≡ some (
        line_ok,
        record c {
          read_buf = pre ++ (line ++ (0 ∷ 0 ∷ rest));
          checked_idx = length pre + length line + 2;
        },
      )
unfolding parse_line
parse_line_takes c pre line rest h e l small plain =
    scan_line_takes line c pre rest (c.read_idx - c.checked_idx) h e l small plain (omega arith)
