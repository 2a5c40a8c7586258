-- ===== src/Http/Conn/Stuck.antt =====
-- Process, called again on a connection of which it has read lines before.
use piorun.Prelude.{
  ℕ, suc, ◌+◌, ◌-◌, ◌*◌, ◌%◌, ◌^◌, ◌≤◌, ◌<◌, ◌≡◌, ◌≢◌, refl, ap, ◌∙◌, List, [], ◌∷◌, ◌++◌, some,
  arith, length, All, ◌==◌, false,
}
use piorun.Http.CString.{until_nul}
use piorun.Http.Conn.{
  Conn, CheckState, in_request_line, in_header, in_content, no_request, line_ok, line_open,
  scan_line, parse_line,
}
use piorun.Http.Conn.Request.{
  returns, next_at, next_line, with_line, read_turn, read_loop, process_read, answer, process,
}

abbrev pub NotNul : ℕ → Type 0
NotNul x = x ≢ 0

==_zero : (x : ℕ) → NotNul x → (x == 0) ≡ false
==_zero x h = ground arith

until_nul-append :
    (line rest : List ℕ) → All NotNul line → until_nul (line ++ (0 ∷ rest)) ≡ some line
until_nul-append [] rest h = refl
until_nul-append (x ∷ line) rest h = rw (==_zero x h.0, until_nul-append line rest h.1) refl

parse_line-done : (c : Conn) → c.read_idx ≤ c.checked_idx → parse_line c ≡ some (line_open, c)
unfolding parse_line scan_line
parse_line-done c h = rw none_left refl
  where
    none_left : c.read_idx - c.checked_idx ≡ 0
    none_left = omega arith

next_at-done :
    (s : CheckState) (c : Conn)
    → s ≢ in_content
    → c.read_idx ≤ c.checked_idx
    → next_at s c ≡ some (line_open, c)
unfolding next_at
next_at-done in_request_line c s h = parse_line-done c h
next_at-done in_header c s h = parse_line-done c h
next_at-done in_content c s h = absurd (s refl)

read_turn-done :
    (c : Conn)
    → c.check_state ≢ in_content
    → c.read_idx ≤ c.checked_idx
    → read_turn line_ok c ≡ some (returns no_request c)
unfolding read_turn with_line next_line
read_turn-done c s h = rw (next_at-done c.check_state c s h) refl

process_read-done :
    (c : Conn)
    → c.check_state ≢ in_content
    → c.read_idx ≤ c.checked_idx
    → process_read c ≡ some (returns no_request c)
unfolding process_read read_loop
process_read-done c s h = ap (λ k. read_loop k line_ok c) fuel ∙ rw (read_turn-done c s h) refl
  where
    fuel : 2 * c.read_idx + 2 ≡ suc (2 * c.read_idx + 1)
    fuel = omega arith

-- Once ParseLine has put a NUL for the end of the first line, Process finds no request any more, whatever
-- comes in behind that line: it takes the length of the string in read_buf_ for the number of bytes
-- read, which is the length of the first line then, and is not beyond what has been checked. The
-- condition is that a NUL ends a line in front of checked_idx_ and that the content is not waited for;
-- the result is that only read_idx_ changes.
pub process_stuck :
    (c : Conn) (line rest : List ℕ)
    → c.read_buf ≡ line ++ (0 ∷ rest)
    → All NotNul line
    → length line ≤ c.checked_idx
    → length line < 2 ^ 32
    → c.check_state ≢ in_content
    → process c ≡ some (record c { read_idx = length line })
unfolding process answer
process_stuck c line rest h nonzero behind small s =
    rw
      (
        ap until_nul h ∙ until_nul-append line rest nonzero,
        index,
        process_read-done (record c { read_idx = length line }) s behind,
      )
      refl
  where
    index : length line % 2 ^ 32 ≡ length line
    index = omega arith
