-- ===== src/Http/Conn/Tests.antt =====
-- Runs of the connection, and the theorems at concrete ones.
use piorun.Prelude.{
  ℕ, ◌-◌, ◌^◌, ◌≡◌, ◌≢◌, refl, ◌⊎◌, List, [], ◌∷◌, ◌++◌, some, none, ◌>>=◌, replicate, length,
  length-replicate, All, true, false, arith, ltb→lt,
}
use piorun.Http.CString.{codes, c_str}
use piorun.Http.Conn.{
  Conn, bad_request, in_request_line, in_header, in_content, get, line_open, buffer_size, at_cr,
  line_turn, scan_line, parse_line, put,
}
use piorun.Http.Conn.Line.{IsPlain}
use piorun.Http.Conn.Found.{with_more}
use piorun.Http.Conn.Resume.{Resumed, parse_line_resumes}
use piorun.Http.Conn.Reply.{crlf, error_404_title, error_404_form}
use piorun.Http.Conn.Request.{
  check_path, check_url, strip_scheme, parse_url, parse_content, process_read, process,
}
use piorun.Http.Conn.Write.{Fits, Overflows, add_response_lem}
use piorun.Http.Conn.Page.{Replies, page_text, not_found, process_write-Replies}
use piorun.Http.Conn.Stuck.{NotNul, process_stuck}
use piorun.Http.Conn.Ends.{Ends, process_read-Ends}

abbrev fresh : Conn
fresh = record {
  read_buf = [];
  write_buf = replicate buffer_size 0;
  read_idx = 0;
  checked_idx = 0;
  start_line = 0;
  write_idx = 0;
  check_state = in_request_line;
  method = get;
  url = none;
  version = none;
  host = none;
  content_length = 0;
  content = none;
  linger = false;
  bytes_to_send = 0;
  bytes_have_send = 0;
}

fresh_size : length fresh.write_buf ≡ buffer_size
fresh_size = length-replicate {A = ℕ} buffer_size 0

-- A connection that has read `s`.
abbrev reading : List ℕ → Conn
reading s = record fresh { read_buf = s ++ replicate 4 0; read_idx = length s }

two-IsPlain : All IsPlain (codes "ab")
unfolding IsPlain
two-IsPlain = ((omega arith, omega arith), ((omega arith, omega arith), tt))

-- The '\r' is the last byte so far.
stops :
    parse_line (reading (codes "ab" ++ (b'\r' ∷ [])))
    ≡ some (line_open, record (reading (codes "ab" ++ (b'\r' ∷ []))) { checked_idx = 2 })
unfolding parse_line scan_line line_turn at_cr
stops = refl

parse_line_resumes_example :
    Resumed 3
      (codes "ab" ++ crlf)
      4
      (parse_line (with_more (reading (codes "ab" ++ (b'\r' ∷ []))) (codes "ab" ++ crlf) 4))
      (line_open, record (reading (codes "ab" ++ (b'\r' ∷ []))) { checked_idx = 2 })
parse_line_resumes_example =
    parse_line_resumes (reading (codes "ab" ++ (b'\r' ∷ []))) (codes "ab" ++ crlf) 4 line_open
      (record (reading (codes "ab" ++ (b'\r' ∷ []))) { checked_idx = 2 }) stops (omega arith)
      (omega arith) refl

add_response_lem_example :
    (buf : List ℕ) × (length buf ≡ buffer_size)
    × (Fits fresh crlf fresh_size buf ⊎ Overflows fresh crlf fresh_size buf)
add_response_lem_example = add_response_lem fresh crlf fresh_size

process_write-Replies_example :
    Replies fresh bad_request true (page_text false 404 error_404_title error_404_form)
process_write-Replies_example =
    process_write-Replies fresh bad_request true 404 error_404_title error_404_form not_found
      fresh_size
      (ltb→lt (length (page_text false 404 error_404_title error_404_form)) (buffer_size - 1) refl)

-- A first line was read from `ab\r\n`, and a header has come in behind it.
abbrev after_line : Conn
after_line = record fresh {
  read_buf = codes "ab" ++ (0 ∷ 0 ∷ (codes "Host: a" ++ crlf));
  checked_idx = 4;
  start_line = 4;
  check_state = in_header;
}

two-NotNul : All NotNul (codes "ab")
two-NotNul = (omega arith, (omega arith, tt))

process_stuck_example : process after_line ≡ some (record after_line { read_idx = 2 })
process_stuck_example =
    process_stuck after_line (codes "ab") (0 ∷ (codes "Host: a" ++ crlf)) refl two-NotNul
      (omega arith) (omega arith) header_state
  where
    header_state : in_header ≢ in_content
    header_state e = cc

process_read-Ends_example : Ends (process_read (reading (codes "GET / HTTP/1.1" ++ (crlf ++ crlf))))
process_read-Ends_example =
    process_read-Ends (reading (codes "GET / HTTP/1.1" ++ (crlf ++ crlf))) (ltb→lt 18 (2 ^ 32) refl)

-- A url without a '/' behind the scheme is a null pointer when the next scheme is looked for.
null_url : parse_url (reading (codes "http://a")) 0 ≡ none
unfolding parse_url strip_scheme
null_url = refl

-- The name of the page goes over the version.
abbrev root_line : Conn
root_line = record (reading (codes "/" ++ (0 ∷ (codes "HTTP/1.1" ++ (0 ∷ 0 ∷ []))))) {
  version = some 2;
}

version_lost :
    (do r ← check_url root_line (some 0); v ← r.1.version; c_str r.1.read_buf v)
    ≡ some (codes "udge.html")
unfolding check_url check_path
version_lost = refl

-- A length of the content near 2^32 puts a NUL outside the buffer.
outside :
    parse_content (record (reading (codes "ab")) { checked_idx = 2; content_length = 2 ^ 32 - 1 }) 2
    ≡ none
unfolding parse_content put
outside = refl
