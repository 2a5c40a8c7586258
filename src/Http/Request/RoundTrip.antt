-- ===== src/Http/Request/RoundTrip.antt =====
-- A request as a client writes it is read back.
use piorun.Prelude.{
  ℕ, suc, ◌+◌, ◌≡◌, ◌≢◌, refl, ap, ◌∙◌, inl, inr, List, [], ◌∷◌, Option, some, Bool-cases, true,
  false, arith, length, length-append, All,
}
use piorun.Http.CString.{codes}
use piorun.Http.Text.{Text, same, same→eq}
use piorun.Http.Buffer.{Buffer, contents, readable_bytes}
use piorun.Http.Buffer.Valid.{IsValid, length-contents}
use piorun.Http.User.{Row, World}
use piorun.Http.Request.{
  in_request_line, in_headers, finished, init, take_at, parse_request_line, set_request_line,
  parse_path, parse_loop, parse,
}
use piorun.Http.Request.Line.{IsNot, request_line, match_request_line_lem}
use piorun.Http.Request.Turn.{==_positive, turn_ended, parse_loop-goes_on}
use piorun.Http.Request.Print.{
  IsWord, IsHeader, print_headers, print, header_map, line_read, with_header,
}
use piorun.Http.Request.Headers.{Reads, request_line-plain, read_headers}

not_post : (method : Text) → method ≢ codes "POST" → same method (codes "POST") ≡ false
not_post method h = elim (Bool-cases (same method (codes "POST"))) [
  | inl e ↦ absurd (h (same→eq method (codes "POST") e))
  | inr e ↦ e
]

read_request_line :
    (method path version : Text)
    → IsWord method
    → IsWord path
    → IsWord version
    → parse_request_line init (request_line method path version)
      ≡ (true, record init { state = in_headers; method = method; path = path; version = version })
unfolding parse_request_line set_request_line
read_request_line method path version m p v =
    rw (match_request_line_lem method path version m.0 p.0 v.0) refl

take_request_line :
    {D : Type 0} (mysql_query : ℕ → Text → D → Option (List Row) × D) (w : World D)
    (method path version : Text) (readable : ℕ)
    → IsWord method
    → IsWord path
    → IsWord version
    → take_at mysql_query in_request_line readable init (request_line method path version) w
      ≡ some (true, with_header (line_read method path version) [], w)
unfolding take_at
take_request_line mysql_query w method path version readable m p v =
    rw (read_request_line method path version m p v) refl

one_more : (n : ℕ) → n + 1 ≡ suc n
one_more n = omega arith

-- A request as a client writes it is read back: from a fresh request and a buffer that holds the request
-- line, the headers, an empty line and the body, and no more, parse returns true with the method, the
-- path with its page, the version, the map of the headers and the body; it leaves the pool and the
-- database alone, the buffer valid, and the body in the buffer. The texts of the request line have no
-- blank and no '\r', the names of headers no ':' and no '\r', their values no '\n' and no '\r', the
-- body has no '\r', and the method is not POST.
pub parse-print :
    {D : Type 0} (mysql_query : ℕ → Text → D → Option (List Row) × D) (w : World D)
    (method path version : Text) (headers : List (Text × Text)) (body : Text) {b : Buffer}
    → IsWord method
    → IsWord path
    → IsWord version
    → All IsHeader headers
    → All (IsNot 13) body
    → method ≢ codes "POST"
    → IsValid b
    → contents b ≡ print method path version headers body
    → Reads mysql_query w
        (parse mysql_query init b w)
        (record init {
          state = finished;
          method = method;
          path = parse_path path;
          version = version;
          header = header_map [] headers;
          body = body;
        })
        body
unfolding Reads parse
parse-print mysql_query w method path version headers body {b} m p v good plain other valid e =
    let size =
      length-append (request_line method path version) (13 ∷ 10 ∷ print_headers headers body) in
    let (b', made, valid', left) =
      turn_ended mysql_query init (with_header (line_read method path version) []) {b = b} w w
        (request_line method path version) (print_headers headers body) valid e
        (request_line-plain method path version m p v)
        (take_request_line mysql_query w method path version (readable_bytes b) m p v) in
    let (b'', read, valid'', left') =
      read_headers mysql_query w method path version body (not_post method other) plain headers
        (readable_bytes b) [] {b = b'} good valid' left
        (omega (arith, length-contents {b = b} valid, ap length e, size)) in
    (
      b'',
      rw
          (==_positive (readable_bytes b)
            (omega (arith, length-contents {b = b} valid, ap length e, size)))
          (ap (λ n. parse_loop mysql_query n init b w) (one_more (readable_bytes b))
            ∙ parse_loop-goes_on mysql_query (readable_bytes b) init {b = b} w valid
                (with_header (line_read method path version) []) b' w
                (omega (arith, ap length e, size)) refl made
            ∙ read),
      valid'',
      left',
    )
