-- ===== src/Http/Conn.antt =====
-- src/piorun/http/http_conn.cc, include/http/http_conn.h: pio::HttpConn, which reads a request line by
-- line from its buffer. Pointers into read_buf_ are offsets, 0 is `none`. A result `none` is an access
-- outside a buffer or through a null pointer.
pub mod Line
pub mod Found
pub mod Resume
pub mod Reply
pub mod Request
pub mod Write
pub mod Page
pub mod Stuck
pub mod Keeps
pub mod Moves
pub mod Ends
pub mod Tests
use piorun.Prelude.{
  ℕ, zero, suc, ◌+◌, ◌-◌, ◌%◌, ◌^◌, List, [], ◌∷◌, ◌++◌, Option, none, some, Bool, true, false,
  ◌&&◌, ltb, leb, ◌==◌, if◌then◌else◌, length, take, get_elem?, replicate, ◌>>=◌,
}
use piorun.Http.CString.{
  codes, c_str, is_blank, find_byte, span_blank, starts_nocase, same_nocase, decimal,
}
use piorun.Http.Buffer.{write_at}

pub data Method : Type 0 where
  get post : Method

pub data CheckState : Type 0 where
  in_request_line in_header in_content : CheckState

pub data HttpCode : Type 0 where
  no_request get_request bad_request no_resource forbidden_request file_request : HttpCode
  internal_error closed_connection : HttpCode

pub data LineStatus : Type 0 where
  line_ok line_bad line_open : LineStatus

pub record Conn : Type 0 where
  pub read_buf : List ℕ
  pub write_buf : List ℕ
  pub read_idx : ℕ
  pub checked_idx : ℕ
  pub start_line : ℕ
  pub write_idx : ℕ
  pub check_state : CheckState
  pub method : Method
  pub url : Option ℕ
  pub version : Option ℕ
  pub host : Option ℕ
  pub content_length : ℕ
  pub content : Option ℕ
  pub linger : Bool
  pub bytes_to_send : ℕ
  pub bytes_have_send : ℕ

-- init(), which leaves the buffers and content_ as they are.
pub init : Conn → Conn
init c = record c {
  read_idx = 0;
  write_idx = 0;
  checked_idx = 0;
  start_line = 0;
  check_state = in_request_line;
  method = get;
  url = none;
  version = none;
  host = none;
  content_length = 0;
  linger = false;
  bytes_to_send = 0;
  bytes_have_send = 0;
}

abbrev pub buffer_size : ℕ
buffer_size = 1024

-- uint32_t addition.
abbrev pub add_u32 : ℕ → ℕ → ℕ
add_u32 a b = (a + b) % 2 ^ 32

pub put : List ℕ → ℕ → ℕ → Option (List ℕ)
put buf i byte = write_at buf i (byte ∷ [])

-- The turn of ParseLine's loop at a '\r', and at a '\n'.
pub at_cr : Conn → Option (LineStatus × Conn)
at_cr c = if add_u32 c.checked_idx 1 == c.read_idx then some (line_open, c) else (do
  next ← get_elem? c.read_buf (add_u32 c.checked_idx 1)
  if next == b'\n'
      then (do
        buf ← put c.read_buf c.checked_idx 0
        buf' ← put buf (add_u32 c.checked_idx 1) 0
        some (
          line_ok,
          record c { read_buf = buf'; checked_idx = add_u32 (add_u32 c.checked_idx 1) 1 },
        ))
      else some (line_bad, c))

pub at_lf : Conn → Option (LineStatus × Conn)
at_lf c =
    if ltb 1 c.checked_idx
    then (do
      previous ← get_elem? c.read_buf (c.checked_idx - 1)
      if previous == b'\r'
          then (do
            buf ← put c.read_buf (c.checked_idx - 1) 0
            buf' ← put buf c.checked_idx 0
            some (line_ok, record c { read_buf = buf'; checked_idx = add_u32 c.checked_idx 1 }))
          else some (line_bad, c))
    else some (line_bad, c)

-- What one turn of the loop does at a byte: `none` goes on to the next one.
pub line_turn : Conn → ℕ → Option (Option (LineStatus × Conn))
line_turn c temp =
    if temp == b'\r'
    then (do r ← at_cr c; some (some r))
    else if temp == b'\n'
    then (do r ← at_lf c; some (some r))
    else some none

-- The loop, with the bytes that are left for fuel.
pub scan_line : ℕ → Conn → Option (LineStatus × Conn)
scan_line zero c = some (line_open, c)
scan_line (suc k) c = do
  temp ← get_elem? c.read_buf c.checked_idx
  turn ← line_turn c temp
  elim turn [
    | some r ↦ some r
    | none ↦ scan_line k (record c { checked_idx = add_u32 c.checked_idx 1 })
  ]

pub parse_line : Conn → Option (LineStatus × Conn)
unfolding scan_line
parse_line c = scan_line (c.read_idx - c.checked_idx) c
