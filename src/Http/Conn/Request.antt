-- ===== src/Http/Conn/Request.antt =====
-- ParseRequestLine to ProcessRead, and Process: the request that is read from read_buf_.
use piorun.Prelude.{
  ℕ, zero, suc, ◌+◌, ◌*◌, ◌%◌, ◌^◌, List, [], ◌∷◌, ◌++◌, Option, none, some, true, leb, ◌==◌,
  if◌then◌else◌, length, drop, ◌>>=◌,
}
use piorun.Http.Buffer.{write_at}
use piorun.Http.CString.{
  codes, c_str, is_blank, find_byte, span_blank, starts_nocase, same_nocase, atol_u32,
}
use piorun.Http.Conn.{
  Conn, CheckState, in_request_line, in_header, in_content, HttpCode, no_request, get_request,
  bad_request, LineStatus, line_ok, line_bad, line_open, get, post, add_u32, put, parse_line,
}
use piorun.Http.Conn.Reply.{process_write}

-- A call that may touch memory outside.
abbrev pub Parses : Type 0
Parses = Option (HttpCode × Conn)

-- The end of ParseRequestLine: the url has to start with a '/', and "/" alone becomes "/judge.html".
unfoldable pub check_path : Conn → ℕ → List ℕ → Parses
check_path c p [] = some (bad_request, c)
check_path c p (ch ∷ rest) =
    if ch == b'/'
    then (do
      buf ←
          if length (ch ∷ rest) == 1
          then write_at c.read_buf (p + 1) (codes "judge.html" ++ (0 ∷ []))
          else some c.read_buf
      some (no_request, record c { read_buf = buf; check_state = in_header }))
    else some (bad_request, c)

unfoldable pub check_url : Conn → Option ℕ → Parses
check_url c none = some (bad_request, c)
check_url c (some p) = do s ← c_str c.read_buf p; check_path c p s

-- One of the two tests for a scheme, after which the url starts at the next '/', if there is one.
unfoldable pub strip_scheme : List ℕ → List ℕ → Option ℕ → Option (Option ℕ)
strip_scheme buf scheme none = none
strip_scheme buf scheme (some p) = do
  s ← c_str buf p
  if starts_nocase scheme s
      then (do
        t ← c_str buf (p + length scheme)
        some (do i ← find_byte (λ ch. ch == b'/') t; some (p + length scheme + i)))
      else some (some p)

unfoldable pub parse_url : Conn → ℕ → Parses
parse_url c url = do
  p ← strip_scheme c.read_buf (codes "http://") (some url)
  q ← strip_scheme c.read_buf (codes "https://") p
  check_url (record c { url = q }) q

-- What is done at the blank behind the url.
unfoldable pub split_version : Conn → ℕ → Option ℕ → Parses
split_version c url none = some (bad_request, record c { url = some url; version = none })
split_version c url (some i) = do
  buf ← put c.read_buf (url + i) 0
  v ← c_str buf (url + i + 1)
  let version = url + i + 1 + span_blank v
  w ← c_str buf version
  let c' : Conn = record c { read_buf = buf; url = some url; version = some version }
  if same_nocase w (codes "HTTP/1.1") then parse_url c' url else some (bad_request, c')

unfoldable pub parse_version : Conn → ℕ → Parses
parse_version c after_method = do
  s ← c_str c.read_buf after_method
  t ← c_str c.read_buf (after_method + span_blank s)
  split_version c (after_method + span_blank s) (find_byte is_blank t)

unfoldable pub parse_method : Conn → ℕ → ℕ → Parses
parse_method c text after_method = do
  m ← c_str c.read_buf text
  if same_nocase m (codes "GET")
      then parse_version (record c { method = get }) after_method
      else if same_nocase m (codes "POST")
      then parse_version (record c { method = post }) after_method
      else some (bad_request, c)

-- What is done at the blank behind the method.
unfoldable pub split_method : Conn → ℕ → Option ℕ → Parses
split_method c text none = some (bad_request, record c { url = none })
split_method c text (some i) = do
  buf ← put c.read_buf (text + i) 0
  parse_method (record c { read_buf = buf; url = some (text + i + 1) }) text (text + i + 1)

unfoldable pub parse_request_line : Conn → ℕ → Parses
parse_request_line c text = do s ← c_str c.read_buf text; split_method c text (find_byte is_blank s)

-- DoRequest, a constant for now.
abbrev pub do_request : Conn → HttpCode × Conn
do_request c = (get_request, c)

-- `read_idx_ >= content_length_ + checked_idx_`, in uint32_t.
unfoldable pub parse_content : Conn → ℕ → Parses
parse_content c text =
    if leb (add_u32 c.content_length c.checked_idx) c.read_idx
    then (do
      buf ← put c.read_buf (text + c.content_length) 0
      some (get_request, record c { read_buf = buf; content = some text }))
    else some (no_request, c)

unfoldable pub header_field : Conn → ℕ → List ℕ → Conn
header_field c text s =
    if starts_nocase (codes "Connection:") s
    then (let value = drop 11 s in
        if same_nocase (drop (span_blank value) value) (codes "keep-alive")
        then record c { linger = true }
        else c)
    else if starts_nocase (codes "Content-length:") s
    then (let value = drop 15 s in
        record c { content_length = atol_u32 (drop (span_blank value) value) })
    else if starts_nocase (codes "Host:") s
    then record c { host = some (text + 5 + span_blank (drop 5 s)) }
    else c

unfoldable pub header_line : Conn → ℕ → List ℕ → Parses
header_line c text [] =
    if c.content_length == 0
    then some (get_request, c)
    else some (no_request, record c { check_state = in_content })
header_line c text (ch ∷ rest) = some (no_request, header_field c text (ch ∷ rest))

unfoldable pub parse_headers : Conn → ℕ → Parses
parse_headers c text = do s ← c_str c.read_buf text; header_line c text s

-- One turn of ProcessRead's loop: it returns, or goes on with a line status.
pub data Turn : Type 0 where
  returns : HttpCode → Conn → Turn
  goes_on : LineStatus → Conn → Turn

abbrev pub after_header : HttpCode × Conn → Turn
after_header (bad_request, c) = returns bad_request c
after_header (get_request, c) = returns (do_request c).0 (do_request c).1
after_header (_, c) = goes_on line_ok c

abbrev pub after_content : HttpCode × Conn → Turn
after_content (get_request, c) = returns (do_request c).0 (do_request c).1
after_content (_, c) = goes_on line_open c

abbrev pub after_request_line : HttpCode × Conn → Turn
after_request_line (bad_request, c) = returns bad_request c
after_request_line (_, c) = goes_on line_ok c

-- What the loop does with the line that starts at `text`, in each state.
unfoldable pub take_at : CheckState → Conn → ℕ → Option Turn
take_at in_request_line c text = do r ← parse_request_line c text; some (after_request_line r)
take_at in_header c text = do r ← parse_headers c text; some (after_header r)
take_at in_content c text = do r ← parse_content c text; some (after_content r)

unfoldable pub take_line : Conn → ℕ → Option Turn
take_line c text = take_at c.check_state c text

unfoldable pub with_line : LineStatus × Conn → Option Turn
with_line (line_ok, c) = take_line (record c { start_line = c.checked_idx }) c.start_line
with_line (line_bad, c) = some (returns no_request c)
with_line (line_open, c) = some (returns no_request c)

-- The condition of the loop: it does not read a line before the content while the status is LINE_OK.
unfoldable pub next_at : CheckState → Conn → Option (LineStatus × Conn)
next_at in_request_line c = parse_line c
next_at in_header c = parse_line c
next_at in_content c = some (line_ok, c)

unfoldable pub next_line : LineStatus → Conn → Option (LineStatus × Conn)
next_line line_ok c = next_at c.check_state c
next_line line_bad c = parse_line c
next_line line_open c = parse_line c

unfoldable pub read_turn : LineStatus → Conn → Option Turn
read_turn status c = do r ← next_line status c; with_line r

-- The loop on fuel; without fuel it is left as still to go on.
unfoldable pub read_loop : ℕ → LineStatus → Conn → Option Turn
read_loop zero status c = some (goes_on status c)
read_loop (suc k) status c = do
  t ← read_turn status c
  elim t [ returns code c' ↦ some (returns code c') | goes_on status' c' ↦ read_loop k status' c' ]

unfoldable pub process_read : Conn → Option Turn
process_read c = read_loop (2 * c.read_idx + 2) line_ok c

-- What Process does with the result of ProcessRead.
unfoldable pub answer : Turn → Option Conn
answer (returns no_request c) = some c
answer (returns code c) = do r ← process_write c code; some r.1
answer (goes_on status c) = none

unfoldable pub process : Conn → Option Conn
process c = do
  s ← c_str c.read_buf 0
  t ← process_read (record c { read_idx = length s % 2 ^ 32 })
  answer t
