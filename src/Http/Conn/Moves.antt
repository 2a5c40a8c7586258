-- ===== src/Http/Conn/Moves.antt =====
-- How far one turn of ProcessRead's loop gets.
use piorun.Prelude.{
  ℕ, zero, suc, ◌+◌, ◌-◌, ◌^◌, ◌≤◌, ◌<◌, ◌≡◌, ◌≢◌, subst, refl, sym, ap, ◌∙◌, inl, inr, Option,
  some, none, arith, get_elem?, Option-cases, ◌>>=◌, some_inj,
}
use piorun.Http.Conn.{
  Conn, LineStatus, line_ok, line_open, HttpCode, get_request, bad_request, add_u32, at_cr, at_lf,
  scan_line, parse_line, CheckState, in_request_line, in_header, in_content,
}
use piorun.Http.Conn.Line.{scan_line-plain, add_u32-suc}
use piorun.Http.Conn.Resume.{byte-cases, scan_line-cr, scan_line-lf, scan_line-outside}
use piorun.Http.Conn.Keeps.{
  Same, Keeps, Keeps-parse_request_line, Keeps-parse_headers, Keeps-parse_content,
}
use piorun.Http.Conn.Request.{
  parse_request_line, parse_headers, parse_content, Turn, returns, goes_on, take_at,
  after_request_line, after_header, after_content, Parses,
}

-- What a line that is complete does to the indices.
pub record Moves (c c' : Conn) : Type 0 where
  pub forward : c.checked_idx < c'.checked_idx
  pub within : c'.checked_idx ≤ c.read_idx
  pub read : c'.read_idx ≡ c.read_idx

module _ (c c' : Conn) (before : c.checked_idx < c.read_idx) (small : c.read_idx < 2 ^ 32) where
  at_cr-Moves : at_cr c ≡ some (line_ok, c') → Moves c c'
  unfolding at_cr
  at_cr-Moves e = grind arith

  at_lf-Moves : at_lf c ≡ some (line_ok, c') → Moves c c'
  unfolding at_lf
  at_lf-Moves e = grind arith

open_ok :
    {c c' : Conn} → ◌≢◌ {A = Option (LineStatus × Conn)} (some (line_open, c)) (some (line_ok, c'))
open_ok e = cc

none_ok : {c : Conn} → ◌≢◌ {A = Option (LineStatus × Conn)} none (some (line_ok, c))
none_ok e = cc

pub none_turn : {t : Turn} → ◌≢◌ {A = Option Turn} none (some t)
none_turn e = cc

scan_line-Moves :
    (k : ℕ) (c c' : Conn)
    → c.read_idx - c.checked_idx ≡ k
    → c.read_idx < 2 ^ 32
    → scan_line k c ≡ some (line_ok, c')
    → Moves c c'
unfolding scan_line
scan_line-Moves zero c c' fuel small e = absurd (open_ok e)
scan_line-Moves (suc k) c c' fuel small e =
    elim (Option-cases (get_elem? c.read_buf c.checked_idx)) [
      | inl outside ↦ absurd (none_ok (sym (scan_line-outside k c outside) ∙ e))
      | inr (x, inside) ↦ elim (byte-cases x) [
        | inl is_cr ↦
            at_cr-Moves c c' (omega arith) small
              (sym (scan_line-cr k c (inside ∙ ap some is_cr)) ∙ e)
        | inr (inl is_lf) ↦
            at_lf-Moves c c' (omega arith) small
              (sym (scan_line-lf k c (inside ∙ ap some is_lf)) ∙ e)
        | inr (inr plain) ↦
            (let rest =
                scan_line-Moves k (record c { checked_idx = add_u32 c.checked_idx 1 }) c'
                  (omega (arith, moved)) small (sym (scan_line-plain k c x inside plain) ∙ e) in
              record {
                forward = omega (arith, moved, rest.forward);
                within = rest.within;
                read = rest.read;
              })
      ]
    ]
  where
    moved : add_u32 c.checked_idx 1 ≡ c.checked_idx + 1
    moved = add_u32-suc c.checked_idx c.read_idx (omega arith) (omega arith)

pub parse_line-Moves :
    (c c' : Conn) → c.read_idx < 2 ^ 32 → parse_line c ≡ some (line_ok, c') → Moves c c'
unfolding parse_line
parse_line-Moves c c' small e = scan_line-Moves (c.read_idx - c.checked_idx) c c' refl small e

-- The connection and the line status that a turn ends with.
abbrev conn_of : Turn → Conn
conn_of (returns code c) = c
conn_of (goes_on status c) = c

abbrev status_of : Turn → LineStatus
status_of (returns code c) = line_open
status_of (goes_on status c) = status

turn_Same :
    (d : Conn) (f : HttpCode × Conn → Turn) (p : Parses) (status : LineStatus) (c' : Conn)
    → ((code : HttpCode) (c : Conn) → conn_of (f (code, c)) ≡ c)
    → Keeps d p
    → (p >>= λ r. some (f r)) ≡ some (goes_on status c')
    → Same d c'
unfolding Keeps
turn_Same d f none status c' h k e = absurd (none_turn e)
turn_Same d f (some (code, c)) status c' h k e =
    subst (Same d) (sym (h code c) ∙ ap conn_of (some_inj _ _ e)) k

pub take_at-Same :
    (s : CheckState) (d : Conn) (text : ℕ) (status : LineStatus) (c' : Conn)
    → take_at s d text ≡ some (goes_on status c')
    → Same d c'
unfolding take_at
take_at-Same in_request_line d text status c' e =
    turn_Same d after_request_line (parse_request_line d text) status c'
      (λ code c. elim code as (λ x. conn_of (after_request_line (x, c)) ≡ c) [
        | bad_request ↦ refl
        | _ ↦ refl
      ])
      (Keeps-parse_request_line d d text (record { checked = refl; read = refl })) e
take_at-Same in_header d text status c' e =
    turn_Same d after_header (parse_headers d text) status c'
      (λ code c. elim code as (λ x. conn_of (after_header (x, c)) ≡ c) [
        | bad_request ↦ refl
        | get_request ↦ refl
        | _ ↦ refl
      ])
      (Keeps-parse_headers d d (record { checked = refl; read = refl }) text) e
take_at-Same in_content d text status c' e =
    turn_Same d after_content (parse_content d text) status c'
      (λ code c. elim code as (λ x. conn_of (after_content (x, c)) ≡ c) [
        | get_request ↦ refl
        | _ ↦ refl
      ])
      (Keeps-parse_content d d (record { checked = refl; read = refl }) text) e

-- The content is looked at once before a line is read again.
pub content_opens :
    (d : Conn) (text : ℕ) (status : LineStatus) (c' : Conn)
    → take_at in_content d text ≡ some (goes_on status c')
    → status ≡ line_open
unfolding take_at
content_opens d text status c' e = elim (Option-cases (parse_content d text)) [
  | inl none_back ↦
      absurd (none_turn (ap (λ p. p >>= λ r. some (after_content r)) (sym none_back) ∙ e))
  | inr ((code, c), back) ↦
      sym (ap status_of (some_inj _ _ (ap (λ p. p >>= λ r. some (after_content r)) (sym back) ∙ e)))
      ∙ elim code as (λ x. status_of (after_content (x, c)) ≡ line_open) [
        | get_request ↦ refl
        | _ ↦ refl
      ]
]
