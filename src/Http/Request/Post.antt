-- ===== src/Http/Request/Post.antt =====
-- The form of the login page and of the registration page, from the body to the page of the answer.
use piorun.Prelude.{
  ℕ, suc, ◌+◌, ◌≡◌, ◌≢◌, refl, List, [], ◌∷◌, ◌++◌, Option, some, Bool, true, false, arith, All,
  if◌then◌else◌,
}
use piorun.Http.CString.{codes}
use piorun.Http.Text.{Text, same, lookup, insert, index}
use piorun.Http.Form.{parse_from_urlencoded}
use piorun.Http.Form.RoundTrip.{IsField, print_form, parse-print_form}
use piorun.Http.User.{Row, World, select_order, user_verify}
use piorun.Http.User.Verdict.{expected, rows_of, sent, user_verify_lem}
use piorun.Http.Request.{
  Request, finished, answer_form, parse_tagged, parse_form, parse_post, default_html_tag,
  parse_body,
}

abbrev pub page : Bool → Text
page true = codes "/login.html"
page false = codes "/register.html"

abbrev pub form_type : Text
form_type = codes "application/x-www-form-urlencoded"

-- The fields as a browser sends them.
abbrev pub credentials : Text → Text → Text
credentials name pwd = print_form ((codes "username", name) ∷ []) (codes "password") pwd

abbrev pub fields : Text → Text → List (Text × Text)
fields name pwd = (codes "username", name) ∷ (codes "password", pwd) ∷ []

read_credentials :
    (name : Text) (c : ℕ) (cs : Text)
    → All IsField name
    → All IsField (c ∷ cs)
    → (body' : Text) × (parse_from_urlencoded (credentials name (c ∷ cs)) []
        ≡ some (body', fields name (c ∷ cs)))
unfolding lookup insert same
read_credentials name c cs n p =
    parse-print_form ((codes "username", name) ∷ []) (codes "password") c cs []
      ((omega arith, n), tt) (omega arith) p refl

page-tag : (is_login : Bool) → lookup (page is_login) default_html_tag ≡ some is_login
unfolding lookup same
page-tag true = refl
page-tag false = refl

module _ {D : Type 0} (mysql_query : ℕ → Text → D → Option (List Row) × D) where
  -- A world with a connection in its pool.
  abbrev pub world : ℕ → List ℕ → ℕ → D → World D
  world sql rest permits d = record {
    pool = record { conn_que = sql ∷ rest; sem_id = suc permits };
    database = d;
  }

  abbrev pub verified : ℕ → List ℕ → ℕ → D → World D
  verified sql rest permits d = record {
    pool = record { conn_que = rest ++ (sql ∷ sql ∷ []); sem_id = permits + 2 };
    database = d;
  }

  answer_form_lem :
      (r : Request) (is_login : Bool) (name pwd : Text) (w w' : World D) (accepted : Bool)
      → user_verify mysql_query name pwd is_login w ≡ some (accepted, w')
      → answer_form mysql_query is_login (record r { post = fields name pwd }) w
        ≡ some (
          record r {
            post = fields name pwd;
            path = if accepted then codes "/welcome.html" else codes "/error.html";
          },
          w',
        )
  unfolding answer_form index lookup same
  answer_form_lem r is_login name pwd w w' accepted e = rw e refl

  -- The body of the login page or of the registration page, posted as a form with a name and a password,
  -- neither of them empty nor with '=', '&', '%' or '+', nothing in post_, and a connection free in the
  -- pool: if the query gives at most one row, ParseBody_ finishes the request with the fields in post_. Its
  -- page is the welcome page if, for a login, there is a row with the password, and for a registration, there
  -- is no row; else it is the error page. The connection is in the queue twice.
  pub parse_body-credentials :
      (r : Request) (is_login : Bool) (name : Text) (c : ℕ) (cs : Text) (row : Option Row) (sql : ℕ)
      (rest : List ℕ) (permits : ℕ) (d d' : D)
      → lookup (codes "Content-Type") r.header ≡ some form_type
      → name ≢ []
      → All IsField name
      → All IsField (c ∷ cs)
      → mysql_query sql (select_order name) d ≡ (some (rows_of row), d')
      → (body' : Text) × (parse_body mysql_query
            (record r { method = codes "POST"; path = page is_login; post = [] })
            (credentials name (c ∷ cs))
            (world sql rest permits d)
          ≡ some (
            record r {
              state = finished;
              method = codes "POST";
              body = body';
              post = fields name (c ∷ cs);
              path =
                  if expected is_login (c ∷ cs) row
                  then codes "/welcome.html"
                  else codes "/error.html";
            },
            verified sql rest permits (sent mysql_query sql name (c ∷ cs) is_login row d'),
          ))
  unfolding parse_body parse_post parse_form parse_tagged index same
  parse_body-credentials r is_login name c cs row sql rest permits d d' h n nf pf e =
      let (body', read) = read_credentials name c cs nf pf in
      (
        body',
        rw
            (
              h,
              read,
              page-tag is_login,
              answer_form_lem
                  (record r { method = codes "POST"; path = page is_login; body = body' }) is_login
                  name (c ∷ cs) (world sql rest permits d)
                  (verified sql rest permits (sent mysql_query sql name (c ∷ cs) is_login row d'))
                  (expected is_login (c ∷ cs) row)
                  (user_verify_lem mysql_query sql rest permits name (c ∷ cs) is_login row d d' n
                    (λ x. cc) e),
            )
            refl,
      )
