-- ===== src/Http/Request/Tests.antt =====
-- Runs of the request parser, and the theorems at concrete requests.
use piorun.Prelude.{none, ℕ, ◌+◌, ◌≡◌, refl, List, [], ◌∷◌, Option, some, true, arith, length}
use piorun.Http.CString.{codes}
use piorun.Http.Text.{Text, same, lookup}
use piorun.Http.Buffer.{Buffer, contents}
use piorun.Http.Buffer.Valid.{IsValid}
use piorun.Http.User.{Row, World}
use piorun.Http.Request.{
  match_request_line, line_of, find_crlf, Request, init, finished, parse_path, parse_body, parse,
}
use piorun.Http.Request.Print.{print, header_map}
use piorun.Http.Request.Headers.{Reads}
use piorun.Http.Request.RoundTrip.{parse-print}
use piorun.Http.Request.Ends.{Ends, parse-Ends}
use piorun.Http.Request.Post.{
  form_type, credentials, fields, world, verified, parse_body-credentials,
}

-- A database that finds `ann` in answer to every order, and counts the orders.
abbrev pub one_user : ℕ → Text → ℕ → Option (List Row) × ℕ
one_user sql order d = (some (record { username = codes "ann"; password = codes "pw" } ∷ []), d + 1)

abbrev pub idle : World ℕ
idle = record { pool = record { conn_que = 7 ∷ []; sem_id = 1 }; database = 0 }

abbrev pub holding : Text → Buffer
holding s = record { storage = s; read_pos = 0; write_pos = length s }

abbrev pub get_root : Text
get_root = print (codes "GET") (codes "/") (codes "1.1") ((codes "Host", codes "a b") ∷ []) []

pub get_root-IsValid : IsValid (holding get_root)
get_root-IsValid = omega arith

parse-print_example :
    Reads one_user idle
      (parse one_user init (holding get_root) idle)
      (record init {
        state = finished;
        method = codes "GET";
        path = parse_path (codes "/");
        version = codes "1.1";
        header = header_map [] ((codes "Host", codes "a b") ∷ []);
        body = [];
      })
      []
parse-print_example =
    parse-print one_user idle (codes "GET") (codes "/") (codes "1.1")
      ((codes "Host", codes "a b") ∷ []) [] {b = holding get_root} (omega arith) (omega arith)
      (omega arith) (omega arith) tt (λ e. cc) get_root-IsValid refl

parse-Ends_example : Ends one_user (parse one_user init (holding get_root) idle)
parse-Ends_example = parse-Ends one_user init (holding get_root) idle get_root-IsValid

abbrev posted : Request
posted = record init { header = (codes "Content-Type", form_type) ∷ [] }

posted_type : lookup (codes "Content-Type") posted.header ≡ some form_type
unfolding lookup same
posted_type = refl

parse_body-credentials_example :
    (body' : Text) × (parse_body one_user
        (record posted { method = codes "POST"; path = codes "/login.html"; post = [] })
        (credentials (codes "ann") (codes "pw"))
        (world one_user 7 [] 0 0)
      ≡ some (
        record posted {
          state = finished;
          method = codes "POST";
          body = body';
          post = fields (codes "ann") (codes "pw");
          path = codes "/welcome.html";
        },
        verified one_user 7 [] 0 1,
      ))
unfolding same
parse_body-credentials_example =
    parse_body-credentials one_user posted true (codes "ann") b'p' (b'w' ∷ [])
      (some (record { username = codes "ann"; password = codes "pw" })) 7 [] 0 0 1 posted_type
      (λ e. cc) (omega arith) (omega arith) refl

pub root_path : parse_path (codes "/") ≡ codes "/index.html"
unfolding parse_path same
root_path = refl

pub no_request_line :
    match_request_line
      (line_of (find_crlf (contents (holding (codes "GET")))) (contents (holding (codes "GET"))))
    ≡ none
unfolding match_request_line
no_request_line = refl
