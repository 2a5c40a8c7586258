-- ===== src/Http/Request.antt =====
-- src/piorun/http/httprequest.cpp, include/http/httprequest.h: HttpRequest, the state machine that reads
-- a request from the buffer of a connection. `none` is a failed assertion, a call that blocks for ever,
-- or an access outside of memory.
pub mod Line
pub mod Turn
pub mod Print
pub mod Headers
pub mod Reject
pub mod RoundTrip
pub mod Ends
pub mod Post
pub mod Tests
use Prim.Native.String.{String}
use piorun.Prelude.{
  ℕ, zero, suc, ◌+◌, ◌-◌, ◌≡◌, List, [], ◌∷◌, ◌++◌, map, Option, none, some, Bool, true, false,
  ◌&&◌, ◌||◌, leb, ◌==◌, if◌then◌else◌, length, take, ◌>>=◌,
}
use piorun.Http.CString.{codes}
use piorun.Http.Text.{Text, same, has, cut_at, strip, lookup, insert, index}
use piorun.Http.Buffer.{Buffer, contents, readable_bytes, retrieve_until}
use piorun.Http.Form.{parse_from_urlencoded}
use piorun.Http.User.{Row, World, user_verify}

pub data ParseState : Type 0 where
  in_request_line in_headers in_body finished : ParseState

pub record Request : Type 0 where
  pub state : ParseState
  pub method : Text
  pub path : Text
  pub version : Text
  pub body : Text
  pub header : List (Text × Text)
  pub post : List (Text × Text)

abbrev pub init : Request
init = record {
  state = in_request_line;
  method = [];
  path = [];
  version = [];
  body = [];
  header = [];
  post = [];
}

pub is_keep_alive : Request → Bool
is_keep_alive r = elim (lookup (codes "Connection") r.header) [
  | some v ↦ same v (codes "keep-alive") && same r.version (codes "1.1")
  | none ↦ false
]

-- GetPost, whose assertion is that the key is not empty.
pub get_post : Request → Text → Option Text
get_post r [] = none
get_post r (c ∷ cs) = elim (lookup (c ∷ cs) r.post) [ some v ↦ some v | none ↦ some [] ]

abbrev pub default_html : List Text
default_html =
    codes "/index"
    ∷ codes "/register"
    ∷ codes "/login"
    ∷ codes "/welcome"
    ∷ codes "/video"
    ∷ codes "/picture"
    ∷ []

abbrev pub contains : Text → List Text → Bool
contains s [] = false
contains s (t ∷ ts) = same t s || contains s ts

-- ParsePath_, on path_.
pub parse_path : Text → Text
parse_path path =
    if same path (codes "/")
    then codes "/index.html"
    else if contains path default_html
    then path ++ codes ".html"
    else path

-- The match of `^([^ ]*) ([^ ]*) HTTP/([^ ]*)$`.
pub match_request_line : Text → Option (Text × Text × Text)
match_request_line line = do
  a ← cut_at b' ' line
  b ← cut_at b' ' a.1
  version ← strip (codes "HTTP/") b.1
  if has b' ' version then none else some (a.0, b.0, version)

pub set_request_line : Request → Option (Text × Text × Text) → Bool × Request
set_request_line r none = (false, r)
set_request_line r (some (method, path, version)) =
    (true, record r { method = method; path = path; version = version; state = in_headers })

pub parse_request_line : Request → Text → Bool × Request
parse_request_line r line = set_request_line r (match_request_line line)

-- The ` ?` of the pattern for a header.
abbrev pub drop_space : Text → Text
drop_space [] = []
drop_space (c ∷ cs) = if c == b' ' then cs else c ∷ cs

-- The match of `^([^:]*): ?(.*)$`, in which a dot is no end of a line.
pub match_header : Text → Option (Text × Text)
match_header line = do
  a ← cut_at b':' line
  if has 10 (drop_space a.1) || has 13 (drop_space a.1) then none else some (a.0, drop_space a.1)

pub set_header : Request → Option (Text × Text) → Request
set_header r none = record r { state = in_body }
set_header r (some (key, value)) = record r { header = insert key value r.header }

pub parse_header : Request → Text → Request
parse_header r line = set_header r (match_header line)

-- DEFAULT_HTML_TAG: whether the page is the login.
abbrev pub default_html_tag : List (Text × Bool)
default_html_tag = (codes "/register.html", false) ∷ (codes "/login.html", true) ∷ []

-- search(Peek(), BeginWriteConst(), "\r\n"): how far the line goes, if it is ended.
abbrev pub starts_with_lf : Text → Bool
starts_with_lf [] = false
starts_with_lf (c ∷ cs) = c == 10

abbrev pub find_crlf : Text → Option ℕ
find_crlf [] = none
find_crlf (c ∷ cs) = do
  let rest = find_crlf cs
  if (c == 13) && starts_with_lf cs then some 0 else (do i ← rest; some (suc i))

abbrev pub line_of : Option ℕ → Text → Text
line_of none text = text
line_of (some i) text = take i text

abbrev pub is_finished : ParseState → Bool
is_finished finished = true
is_finished _ = false

pub data Result (D : Type 0) : Type 0 where
  returns : Bool → Request → Buffer → World D → Result D
  goes_on : Request → Buffer → World D → Result D

module _ {D : Type 0} (mysql_query : ℕ → Text → D → Option (List Row) × D) where
  -- The pages of the two forms, with the tag of the page.
  pub answer_form : Bool → Request → World D → Option (Request × World D)
  answer_form is_login r w = do
    let name = index (codes "username") r.post
    let pwd = index (codes "password") name.1
    v ← user_verify mysql_query name.0 pwd.0 is_login w
    some (
      record r { post = pwd.1; path = if v.0 then codes "/welcome.html" else codes "/error.html" },
      v.1,
    )

  -- With the tag of the page, if it has one.
  pub parse_tagged : Option Bool → Request → World D → Option (Request × World D)
  parse_tagged none r w = some (r, w)
  parse_tagged (some is_login) r w = answer_form is_login r w

  pub parse_form : Request → World D → Option (Request × World D)
  parse_form r w = do
    f ← parse_from_urlencoded r.body r.post
    parse_tagged (lookup r.path default_html_tag) (record r { body = f.0; post = f.1 }) w

  pub parse_post : Request → World D → Option (Request × World D)
  parse_post r w =
      if same r.method (codes "POST")
      then (let kind = index (codes "Content-Type") r.header in
          let r' : Request = record r { header = kind.1 } in
          if same kind.0 (codes "application/x-www-form-urlencoded")
          then parse_form r' w
          else some (r', w))
      else some (r, w)

  pub parse_body : Request → Text → World D → Option (Request × World D)
  parse_body r line w = do
    p ← parse_post (record r { body = line }) w
    some (record p.0 { state = finished }, p.1)

  -- The switch of parse, on a line: whether it goes on. `readable` is ReadableBytes().
  pub take_at : ParseState → ℕ → Request → Text → World D → Option (Bool × Request × World D)
  take_at in_request_line readable r line w =
      let p = parse_request_line r line in
      if p.0
      then some (true, record p.1 { path = parse_path p.1.path }, w)
      else some (false, p.1, w)
  take_at in_headers readable r line w =
      let r' = parse_header r line in
      some (true, (if leb readable 2 then record r' { state = finished } else r'), w)
  take_at in_body readable r line w = do p ← parse_body r line w; some (true, p.0, p.1)
  take_at finished readable r line w = some (true, r, w)

  -- The end of a turn: the loop is left at a line that is not ended, or the line is retrieved.
  pub after_line : Option ℕ → Bool × Request × World D → Buffer → Option (Result D)
  after_line end (false, r, w) b = some (returns false r b w)
  after_line none (true, r, w) b = some (returns true r b w)
  after_line (some i) (true, r, w) b = do
    b' ← retrieve_until b (b.read_pos + i + 2)
    some (goes_on r b' w)

  pub turn : Request → Buffer → World D → Option (Result D)
  turn r b w = do
    let end = find_crlf (contents b)
    s ← take_at r.state (readable_bytes b) r (line_of end (contents b)) w
    after_line end s b

  -- The loop on fuel; without fuel it is left as still to go on.
  pub parse_loop : ℕ → Request → Buffer → World D → Option (Result D)
  parse_loop zero r b w = some (goes_on r b w)
  parse_loop (suc k) r b w =
      if (readable_bytes b == 0) || is_finished r.state then some (returns true r b w) else (do
        t ← turn r b w
        elim t [
          | returns ok r' b' w' ↦ some (returns ok r' b' w')
          | goes_on r' b' w' ↦ parse_loop k r' b' w'
        ])

  pub parse : Request → Buffer → World D → Option (Result D)
  unfolding parse_loop
  parse r b w =
      if readable_bytes b == 0
      then some (returns false r b w)
      else parse_loop (readable_bytes b + 1) r b w
