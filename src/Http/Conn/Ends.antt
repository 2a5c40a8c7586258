-- ===== src/Http/Conn/Ends.antt =====
-- ProcessRead's loop comes to its end.
use piorun.Prelude.{
  ℕ, zero, suc, ◌+◌, ◌-◌, ◌*◌, ◌^◌, ◌≤◌, ◌<◌, ◌≡◌, ◌≢◌, refl, sym, ap, ◌∙◌, inl, inr, ◌⊎◌, Option,
  some, none, arith, Option-cases, some_inj, >>=-eq-some, subst,
}
use piorun.Http.Conn.{
  Conn, LineStatus, line_ok, line_bad, line_open, HttpCode, CheckState, in_request_line, in_header,
  in_content,
}
use piorun.Http.Conn.Keeps.{Same}
use piorun.Http.Conn.Moves.{Moves, parse_line-Moves, take_at-Same, content_opens}
use piorun.Http.Conn.Request.{
  Turn, returns, goes_on, next_at, next_line, take_at, take_line, with_line, read_turn, read_loop,
  process_read,
}

-- What is left to do: the bytes that are not checked, and a look at the content.
abbrev weight : LineStatus → ℕ
weight line_ok = 1
weight line_bad = 0
weight line_open = 0

abbrev left : LineStatus → Conn → ℕ
left status c = 2 * (c.read_idx - c.checked_idx) + weight status

weight_bound : (s : LineStatus) → weight s ≤ 1
weight_bound line_ok = omega arith
weight_bound line_bad = omega arith
weight_bound line_open = omega arith

-- How a line comes to be taken: it was read, or the content is looked at.
Taken : LineStatus → CheckState → Conn → Conn → Type 0
Taken status s c d = Moves c d ⊎ ((status ≡ line_ok) × (s ≡ in_content) × (c ≡ d))

ok_inj :
    {c d : Conn}
    → ◌≡◌ {A = Option (LineStatus × Conn)} (some (line_ok, c)) (some (line_ok, d))
    → c ≡ d
ok_inj e = ap (λ (p : LineStatus × Conn). p.1) (some_inj _ _ e)

next_at-Taken :
    (s : CheckState) (c d : Conn)
    → c.read_idx < 2 ^ 32
    → next_at s c ≡ some (line_ok, d)
    → Taken line_ok s c d
unfolding next_at Taken
next_at-Taken in_request_line c d small e = inl (parse_line-Moves c d small e)
next_at-Taken in_header c d small e = inl (parse_line-Moves c d small e)
next_at-Taken in_content c d small e = inr (refl, refl, ok_inj e)

next_line-Taken :
    (status : LineStatus) (c d : Conn)
    → c.read_idx < 2 ^ 32
    → next_line status c ≡ some (line_ok, d)
    → Taken status c.check_state c d
unfolding next_line Taken
next_line-Taken line_ok c d small e = next_at-Taken c.check_state c d small e
next_line-Taken line_bad c d small e = inl (parse_line-Moves c d small e)
next_line-Taken line_open c d small e = inl (parse_line-Moves c d small e)

-- A turn that goes on has less left to do.
record Less (status status' : LineStatus) (c c' : Conn) : Type 0 where
  less : left status' c' < left status c
  read : c'.read_idx ≡ c.read_idx

take_line-Less :
    (status status' : LineStatus) (c d c' : Conn)
    → Taken status c.check_state c d
    → take_line (record d { start_line = d.checked_idx }) d.start_line ≡ some (goes_on status' c')
    → Less status status' c c'
unfolding Taken take_line
take_line-Less status status' c d c' (inl m) e = record {
  less = omega (arith, m.forward, m.within, m.read, same.checked, same.read, weight_bound status');
  read = same.read ∙ m.read;
}
  where
    same : Same (record d { start_line = d.checked_idx }) c'
    same =
        take_at-Same d.check_state (record d { start_line = d.checked_idx }) d.start_line status' c'
          e
take_line-Less status status' c d c' (inr (ok, content, here)) e = record {
  less = omega (
    arith,
    same.checked,
    same.read,
    ap weight ok,
    ap weight opened,
    ap (λ (x : Conn). x.read_idx) here,
    ap (λ (x : Conn). x.checked_idx) here,
  );
  read = same.read ∙ ap (λ (x : Conn). x.read_idx) (sym here);
}
  where
    same : Same (record d { start_line = d.checked_idx }) c'
    same =
        take_at-Same d.check_state (record d { start_line = d.checked_idx }) d.start_line status' c'
          e

    in_d : d.check_state ≡ in_content
    in_d = ap (λ (x : Conn). x.check_state) (sym here) ∙ content

    opened : status' ≡ line_open
    opened =
        content_opens (record d { start_line = d.checked_idx }) d.start_line status' c'
          (subst
            (λ s.
              take_at s (record d { start_line = d.checked_idx }) d.start_line
              ≡ some (goes_on status' c'))
            in_d e)

returned :
    {code : HttpCode} {status : LineStatus} {c c' : Conn}
    → ◌≢◌ {A = Option Turn} (some (returns code c)) (some (goes_on status c'))
returned e = cc

with_line-Less :
    (status status' : LineStatus) (c d c' : Conn) (found : LineStatus)
    → c.read_idx < 2 ^ 32
    → next_line status c ≡ some (found, d)
    → with_line (found, d) ≡ some (goes_on status' c')
    → Less status status' c c'
unfolding with_line
with_line-Less status status' c d c' line_ok small e k =
    take_line-Less status status' c d c' (next_line-Taken status c d small e) k
with_line-Less status status' c d c' line_bad small e k = absurd (returned k)
with_line-Less status status' c d c' line_open small e k = absurd (returned k)

read_turn-Less :
    (status status' : LineStatus) (c c' : Conn)
    → c.read_idx < 2 ^ 32
    → read_turn status c ≡ some (goes_on status' c')
    → Less status status' c c'
unfolding read_turn
read_turn-Less status status' c c' small e =
    with_line-Less status status' c step.0.1 c' step.0.0 small step.1 step.2
  where
    step :
        (r : LineStatus × Conn) × (next_line status c ≡ some r)
        × (with_line r ≡ some (goes_on status' c'))
    step = >>=-eq-some (next_line status c) with_line (goes_on status' c') e

-- It does not run out of fuel: an access outside of memory, or a result.
pub Ends : Option Turn → Type 0
Ends o = (o ≡ none) ⊎ ((code : HttpCode) × (c : Conn) × (o ≡ some (returns code c)))

read_loop-Ends :
    (k : ℕ) (status : LineStatus) (c : Conn)
    → c.read_idx < 2 ^ 32
    → left status c < k
    → Ends (read_loop k status c)
unfolding Ends read_loop
read_loop-Ends zero status c small h = absurd (omega arith)
read_loop-Ends (suc k) status c small h = elim (Option-cases (read_turn status c)) [
  | inl fault ↦ inl (rw fault refl)
  | inr (returns code c', e) ↦ inr (code, c', rw e refl)
  | inr (goes_on status' c', e) ↦
      (let l = read_turn-Less status status' c c' small e in
        rw e (read_loop-Ends k status' c' (omega (arith, l.read)) (omega (arith, l.less))))
]

-- With at most 2^32 - 1 bytes read, ProcessRead comes to its end from any state of the connection: it
-- returns a code, or its next access is outside the buffer or through a null pointer. The fuel of the
-- loop, twice read_idx_ and two, is never used up.
pub process_read-Ends : (c : Conn) → c.read_idx < 2 ^ 32 → Ends (process_read c)
unfolding process_read
process_read-Ends c small = read_loop-Ends (2 * c.read_idx + 2) line_ok c small (omega arith)
