-- ===== src/Http/Conn/Reply.antt =====
-- AddResponse to ProcessWrite: the reply that is put together in write_buf_.
use piorun.Prelude.{
  ℕ, ◌+◌, ◌-◌, ◌%◌, ◌^◌, List, [], ◌∷◌, ◌++◌, Option, some, Bool, true, false, leb, if◌then◌else◌,
  length, take, ◌>>=◌,
}
use piorun.Http.Buffer.{write_at}
use piorun.Http.CString.{codes, decimal}
use piorun.Http.Conn.{
  Conn, HttpCode, no_request, get_request, bad_request, no_resource, forbidden_request,
  file_request, internal_error, closed_connection, buffer_size, add_u32,
}

-- A step that may touch memory outside, and says whether it worked.
abbrev pub Writes : Type 0
Writes = Option (Bool × Conn)

-- `size - 1 - write_idx_` in uint32_t.
abbrev pub room : Conn → ℕ
room c = (buffer_size - 1 + 2 ^ 32 - c.write_idx) % 2 ^ 32

-- vsnprintf with the formatted text: as much of it as fits `size` with the NUL behind it.
abbrev pub vsnprintf : List ℕ → ℕ → ℕ → List ℕ → Option (List ℕ)
vsnprintf buf pos size text =
    if leb size 0 then some buf else write_at buf pos (take (size - 1) text ++ (0 ∷ []))

-- AddResponse(format, ...), with the text that the format and its arguments give.
unfoldable pub add_response : Conn → List ℕ → Writes
add_response c text = if leb buffer_size c.write_idx then some (false, c) else (do
  buf ← vsnprintf c.write_buf c.write_idx (room c) text
  if leb (room c) (length text)
      then some (false, record c { write_buf = buf })
      else some (true, record c { write_buf = buf; write_idx = add_u32 c.write_idx (length text) }))

-- The formats and their arguments.
abbrev pub crlf : List ℕ
crlf = 13 ∷ 10 ∷ []

abbrev pub status_line : ℕ → List ℕ → List ℕ
status_line status title = codes "HTTP/1.1 " ++ (decimal status ++ ((b' ' ∷ title) ++ crlf))

abbrev pub content_length_line : ℕ → List ℕ
content_length_line n = codes "Content-Length:" ++ (decimal n ++ crlf)

abbrev pub linger_line : Bool → List ℕ
linger_line true = codes "Connection:keep-alive" ++ crlf
linger_line false = codes "Connection:close" ++ crlf

unfoldable pub add_status_line : Conn → ℕ → List ℕ → Writes
add_status_line c status title = add_response c (status_line status title)

unfoldable pub add_content_length : Conn → ℕ → Writes
add_content_length c n = add_response c (content_length_line n)

abbrev add_content_type : Conn → Writes
add_content_type c = add_response c (codes "Content-Type:text/html" ++ crlf)

unfoldable pub add_linger : Conn → Writes
add_linger c = add_response c (linger_line c.linger)

unfoldable pub add_blank_line : Conn → Writes
add_blank_line c = add_response c crlf

unfoldable pub add_content : Conn → List ℕ → Writes
add_content c text = add_response c text

-- `first && second`.
unfoldable pub and_then : Writes → (Conn → Writes) → Writes
and_then first second = do r ← first; if r.0 then second r.1 else some r

unfoldable pub add_headers : Conn → ℕ → Writes
add_headers c n = and_then (and_then (add_content_length c n) add_linger) add_blank_line

-- A status line, the headers and the content, the result of the content's only.
unfoldable pub add_page : Conn → ℕ → List ℕ → List ℕ → Writes
add_page c status title form = do
  r ← add_status_line c status title
  s ← add_headers r.1 (length form)
  add_content s.1 form

abbrev pub ok_200_title : List ℕ
ok_200_title = codes "OK"

abbrev pub error_403_title : List ℕ
error_403_title = codes "Forbidden"

abbrev pub error_403_form : List ℕ
error_403_form = codes "You do not have permission to get file form this server." ++ (10 ∷ [])

abbrev pub error_404_title : List ℕ
error_404_title = codes "Not Found"

abbrev pub error_404_form : List ℕ
error_404_form = codes "The requested file was not found on this server." ++ (10 ∷ [])

abbrev pub error_500_title : List ℕ
error_500_title = codes "Internal Error"

abbrev pub error_500_form : List ℕ
error_500_form = codes "There was an unusual problem serving the request file." ++ (10 ∷ [])

abbrev pub ok_string : List ℕ
ok_string = codes "<html><body><h1>Hello, World!</h1></body></html>"

-- The end of ProcessWrite, behind the `break` of an error page.
unfoldable pub finish_page : Bool × Conn → Bool × Conn
finish_page (false, c) = (false, c)
finish_page (true, c) = (true, record c { bytes_to_send = c.write_idx })

unfoldable pub process_write : Conn → HttpCode → Writes
process_write c internal_error = do
  r ← add_page c 500 error_500_title error_500_form
  some (finish_page r)
process_write c bad_request = do
  r ← add_page c 404 error_404_title error_404_form
  some (finish_page r)
process_write c forbidden_request = do
  r ← add_page c 403 error_403_title error_403_form
  some (finish_page r)
process_write c get_request = do
  -- The case has no `break`: it runs on into `default: return false`.
  r ← add_page c 200 ok_200_title ok_string
  some (false, r.1)
process_write c no_request = some (false, c)
process_write c no_resource = some (false, c)
process_write c file_request = some (false, c)
process_write c closed_connection = some (false, c)
