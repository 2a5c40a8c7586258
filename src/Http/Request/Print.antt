-- ===== src/Http/Request/Print.antt =====
-- Requests as a client writes them, and what is to be read from them.
use piorun.Prelude.{List, [], ◌∷◌, ◌++◌, All}
use piorun.Http.Text.{Text, insert}
use piorun.Http.Request.{Request, init, in_headers, finished, parse_path}
use piorun.Http.Request.Line.{IsNot, request_line, header_line}

-- The texts that a request line and a header can carry.
abbrev pub IsWord : Text → Type 0
IsWord s = All (IsNot b' ') s × All (IsNot 13) s

abbrev pub IsHeader : Text × Text → Type 0
IsHeader (key, value) =
    (All (IsNot b':') key × All (IsNot 13) key) × (All (IsNot 10) value × All (IsNot 13) value)

abbrev pub print_headers : List (Text × Text) → Text → Text
print_headers [] rest = 13 ∷ 10 ∷ rest
print_headers (h ∷ hs) rest = header_line h ++ (13 ∷ 10 ∷ print_headers hs rest)

abbrev pub print : Text → Text → Text → List (Text × Text) → Text → Text
print method path version headers body =
    request_line method path version ++ (13 ∷ 10 ∷ print_headers headers body)

-- The map that the headers make: a later one replaces an earlier one of its name.
abbrev pub header_map : List (Text × Text) → List (Text × Text) → List (Text × Text)
header_map m [] = m
header_map m ((key, value) ∷ hs) = header_map (insert key value m) hs

-- The request behind its first line, with some headers, and with its body.
abbrev pub line_read : Text → Text → Text → Request
line_read method path version = record init {
  method = method;
  path = parse_path path;
  version = version;
}

abbrev pub with_header : Request → List (Text × Text) → Request
with_header r m = record r { state = in_headers; header = m }

abbrev pub with_body : Request → Text → List (Text × Text) → Request
with_body r body m = record r { state = finished; header = m; body = body }
