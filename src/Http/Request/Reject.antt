-- ===== src/Http/Request/Reject.antt =====
-- A request whose first line is no request line.
use piorun.Prelude.{
  ℕ, suc, ◌+◌, ◌<◌, ◌≡◌, refl, ap, ◌∙◌, List, Option, none, some, false, arith, ◌==◌,
}
use piorun.Http.Text.{Text}
use piorun.Http.Buffer.{Buffer, contents, readable_bytes}
use piorun.Http.User.{Row, World}
use piorun.Http.Request.{
  init, returns, match_request_line, set_request_line, parse_request_line, find_crlf, line_of,
  take_at, after_line, turn, parse_loop, parse,
}

one_more : (n : ℕ) → n + 1 ≡ suc n
one_more n = omega arith

not_zero : (n : ℕ) → 0 < n → (n == 0) ≡ false
not_zero n h = ground arith

pub parse-rejected :
    {D : Type 0} (mysql_query : ℕ → Text → D → Option (List Row) × D) (b : Buffer) (w : World D)
    → 0 < readable_bytes b
    → match_request_line (line_of (find_crlf (contents b)) (contents b)) ≡ none
    → parse mysql_query init b w ≡ some (returns false init b w)
unfolding parse parse_loop turn take_at parse_request_line set_request_line after_line
parse-rejected mysql_query b w some_read no_match = rw (not_zero (readable_bytes b) some_read) (
    ap (λ n. parse_loop mysql_query n init b w) (one_more (readable_bytes b))
    ∙ rw (not_zero (readable_bytes b) some_read, no_match) refl)
