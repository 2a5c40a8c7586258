-- ===== src/Http/Conn/Resume.antt =====
-- ParseLine on a request that arrives in parts.
use piorun.Prelude.{
  ℕ, zero, suc, ◌+◌, ◌-◌, ◌^◌, ◌≤◌, ◌<◌, ◌≡◌, refl, sym, ap, ◌∙◌, inl, inr, ◌⊎◌, List, Option, some,
  none, arith, take, get_elem?, Option-cases, some_inj, ◌≢◌, subst, drop,
}
use piorun.Http.Conn.{
  Conn, LineStatus, line_open, add_u32, at_cr, at_lf, line_turn, scan_line, parse_line,
}
use piorun.Http.Conn.Found.{with_more, SameLine, kept, at_lf-Same, at_cr-Same}
use piorun.Http.Conn.Line.{IsPlain, scan_line-plain, add_u32-suc}

-- The three kinds of bytes.
pub byte-cases : (x : ℕ) → (x ≡ b'\r') ⊎ ((x ≡ b'\n') ⊎ IsPlain x)
unfolding IsPlain
byte-cases x = grind arith

none_some : {r : LineStatus × Conn} → ◌≢◌ {A = Option (LineStatus × Conn)} none (some r)
none_some e = cc

parse_line-plain :
    (c : Conn) (x : ℕ)
    → c.checked_idx < c.read_idx
    → get_elem? c.read_buf c.checked_idx ≡ some x
    → IsPlain x
    → c.read_idx < 2 ^ 32
    → parse_line c ≡ parse_line (record c { checked_idx = add_u32 c.checked_idx 1 })
unfolding parse_line
parse_line-plain c x h g p small =
    ap (λ k. scan_line k c) one_more
    ∙ scan_line-plain (c.read_idx - add_u32 c.checked_idx 1) c x g p
  where
    one_more : c.read_idx - c.checked_idx ≡ suc (c.read_idx - add_u32 c.checked_idx 1)
    one_more = omega (arith, add_u32-suc c.checked_idx c.read_idx (omega arith) small)

pub scan_line-cr :
    (k : ℕ) (c : Conn)
    → get_elem? c.read_buf c.checked_idx ≡ some b'\r'
    → scan_line (suc k) c ≡ at_cr c
unfolding scan_line line_turn
scan_line-cr k c g =
    rw g (elim (Option-cases (at_cr c)) [ inl e ↦ rw e refl | inr (r, e) ↦ rw e refl ])

pub scan_line-lf :
    (k : ℕ) (c : Conn)
    → get_elem? c.read_buf c.checked_idx ≡ some b'\n'
    → scan_line (suc k) c ≡ at_lf c
unfolding scan_line line_turn
scan_line-lf k c g =
    rw g (elim (Option-cases (at_lf c)) [ inl e ↦ rw e refl | inr (r, e) ↦ rw e refl ])

pub scan_line-outside :
    (k : ℕ) (c : Conn) → get_elem? c.read_buf c.checked_idx ≡ none → scan_line (suc k) c ≡ none
unfolding scan_line
scan_line-outside k c g = rw g refl

-- What ParseLine does on all the bytes, `whole`, when it has returned `r` on the first `len` of them.
abbrev pub Resumed : ℕ → List ℕ → ℕ → Option (LineStatus × Conn) → LineStatus × Conn → Type 0
Resumed len buf n whole r =
    ((r.0 ≡ line_open) × (parse_line (with_more r.1 buf n) ≡ whole)) ⊎ SameLine len buf n whole r

module _ (buf : List ℕ) (n : ℕ) (small : n < 2 ^ 32) where
  begins :
      (c : Conn)
      → c.checked_idx < n
      → (x : ℕ) → get_elem? buf c.checked_idx ≡ some x
      → ((x ≡ b'\r') → parse_line (with_more c buf n) ≡ at_cr (with_more c buf n))
        × ((x ≡ b'\n') → parse_line (with_more c buf n) ≡ at_lf (with_more c buf n))
  unfolding parse_line
  begins c h x g = (
    λ e. ap (λ k. scan_line k all) fuel ∙ scan_line-cr _ all (g ∙ ap some e),
    λ e. ap (λ k. scan_line k all) fuel ∙ scan_line-lf _ all (g ∙ ap some e),
  )
    where
      all : Conn
      all = with_more c buf n

      fuel : n - c.checked_idx ≡ suc (n - c.checked_idx - 1)
      fuel = omega arith

  resumes :
      (k : ℕ) (c : Conn) {r : LineStatus × Conn}
      → c.read_idx - c.checked_idx ≡ k
      → c.read_idx ≤ n
      → take c.read_idx buf ≡ take c.read_idx c.read_buf
      → scan_line k c ≡ some r
      → Resumed c.read_idx buf n (parse_line (with_more c buf n)) r
  unfolding scan_line
  resumes zero c {r} fuel more same e =
      let stopped = some_inj (line_open, c) r e in
      inl (
        ap (λ o. o.0) (sym stopped),
        ap (λ (o : LineStatus × Conn). parse_line (with_more o.1 buf n)) (sym stopped),
      )
  resumes (suc k) c {r} fuel more same e =
      elim (Option-cases (get_elem? c.read_buf c.checked_idx)) [
        | inl outside ↦ absurd (none_some (sym (scan_line-outside k c outside) ∙ e))
        | inr (x, inside) ↦
            let whole =
              begins c (omega arith) x (kept c buf n more small same _ (omega arith) ∙ inside) in
            elim (byte-cases x) [
              | inl is_cr ↦
                  elim (at_cr-Same c buf n more small same (omega arith)
                    (sym (scan_line-cr k c (inside ∙ ap some is_cr)) ∙ e)) [
                      | inl stopped ↦ inl (
                        ap (λ o. o.0) (sym stopped),
                        ap (λ (o : LineStatus × Conn). parse_line (with_more o.1 buf n))
                            (sym stopped),
                      )
                      | inr found ↦ rw (whole.0 is_cr) (inr found)
                    ]
              | inr (inl is_lf) ↦ rw (whole.1 is_lf) (
                  inr (
                    at_lf-Same c buf n more small same (omega arith)
                      (sym (scan_line-lf k c (inside ∙ ap some is_lf)) ∙ e)))
              | inr (inr plain) ↦
                  let all = with_more c buf n in
                  subst (λ w. Resumed c.read_idx buf n w r)
                    (sym (
                      parse_line-plain all x (omega arith)
                        (kept c buf n more small same _ (omega arith) ∙ inside) plain small))
                    (resumes k (record c { checked_idx = add_u32 c.checked_idx 1 })
                      (omega (arith, moved)) more same
                      (sym (scan_line-plain k c x inside plain) ∙ e))
            ]
      ]
    where
      moved : add_u32 c.checked_idx 1 ≡ c.checked_idx + 1
      moved = add_u32-suc c.checked_idx c.read_idx (omega arith) (omega arith)

-- When ParseLine has returned on the bytes read so far, and more come in behind those: if it returned
-- LINE_OPEN, then from where it stopped it does the same as it would do from where it had started, on
-- all the bytes; if it returned LINE_OK or LINE_BAD, then on all the bytes it would return the same, with the
-- same connection but for the buffer and read_idx_, and with the same bytes in the buffer as it has left in the
-- part that was read, and the others as they came.
pub parse_line_resumes :
    (c : Conn) (buf : List ℕ) (n : ℕ) (status : LineStatus) (c' : Conn)
    → parse_line c ≡ some (status, c')
    → c.read_idx ≤ n
    → n < 2 ^ 32
    → take c.read_idx buf ≡ take c.read_idx c.read_buf
    → ((status ≡ line_open) × (parse_line (with_more c' buf n) ≡ parse_line (with_more c buf n)))
      ⊎ ((status ≢ line_open)
          × ((buf' : List ℕ) × (parse_line (with_more c buf n) ≡ some (status, with_more c' buf' n))
              × (take c.read_idx buf' ≡ take c.read_idx c'.read_buf)
              × (drop c.read_idx buf' ≡ drop c.read_idx buf)))
unfolding parse_line
parse_line_resumes c buf n status c' e more small same =
    resumes buf n small (c.read_idx - c.checked_idx) c refl more same e
