-- ===== src/Http/User.antt =====
-- HttpRequest::UserVerify of src/piorun/http/httprequest.cpp: login and registration with a database. A
-- result `none` is a failed assertion, or a call that blocks for ever.
pub mod Verdict
pub mod Tests
use piorun.Prelude.{
  ℕ, ◌+◌, ◌-◌, List, [], ◌∷◌, ◌++◌, Option, none, some, Bool, true, false, not, ◌&&◌, ◌||◌, ◌==◌,
  if◌then◌else◌, take, ◌>>=◌,
}
use piorun.Http.CString.{codes}
use piorun.Http.Text.{Text, same}
use piorun.Http.SqlConnPool.{SqlConnPool, get_conn, free_conn}

-- c_str(), as a `%s` reads it.
abbrev pub c_text : Text → Text
c_text [] = []
c_text (c ∷ cs) = do let rest = c_text cs; if c == 0 then [] else c ∷ rest

abbrev quote : Text
quote = b'\'' ∷ []

-- The orders, which snprintf cuts at 255 bytes.
pub select_order : Text → Text
select_order name = take 255 (
    codes "SELECT username, password FROM user WHERE username="
    ++ (quote ++ (c_text name ++ (quote ++ codes " LIMIT 1"))))

pub insert_order : Text → Text → Text
insert_order name pwd = take 255 (
    codes "INSERT INTO user(username, password) VALUES("
    ++ (quote
        ++ (c_text name
            ++ (quote ++ (codes "," ++ (quote ++ (c_text pwd ++ (quote ++ codes ")"))))))))

-- A row of the result: row[0] and row[1].
pub record Row : Type 0 where
  pub username : Text
  pub password : Text

-- The loop over the rows.
unfoldable pub check_rows : Text → Bool → Bool → List Row → Bool
check_rows pwd is_login flag [] = flag
check_rows pwd is_login flag (row ∷ rows) =
    check_rows pwd is_login (if is_login then same pwd row.password else false) rows

-- The pool with the database, of which only its answers are known.
pub record World (D : Type 0) : Type 0 where
  pub pool : SqlConnPool
  pub database : D

-- mysql_query and mysql_store_result on a connection: the rows, or an error.
module _ {D : Type 0} (mysql_query : ℕ → Text → D → Option (List Row) × D) where
  -- The registration of a name that is not there: its result is true, also after an error.
  pub register : ℕ → Text → Text → D → Bool × D
  register sql name pwd d = (true, (mysql_query sql (insert_order name pwd) d).1)

  -- Behind the query: the rows are checked, the name may be registered, and the connection is given back.
  pub conclude : ℕ → Text → Text → Bool → SqlConnPool → Option (List Row) × D → Bool × World D
  conclude sql name pwd is_login pool (none, d) = (false, record { pool = pool; database = d })
  conclude sql name pwd is_login pool (some rows, d) =
      let flag = check_rows pwd is_login (not is_login) rows in
      let r : Bool × D = if not is_login && flag then register sql name pwd d else (flag, d) in
      (r.0, record { pool = free_conn pool sql; database = r.1 })

  -- With a connection or none: the guard is a temporary, and its destructor runs at the end of its
  -- statement.
  pub verify_with : Text → Text → Bool → D → Option ℕ × SqlConnPool → Option (Bool × World D)
  verify_with name pwd is_login d (none, pool) = none
  verify_with name pwd is_login d (some sql, pool) =
      some (
        conclude sql name pwd is_login (free_conn pool sql) (mysql_query sql (select_order name) d))

  unfoldable pub user_verify : Text → Text → Bool → World D → Option (Bool × World D)
  user_verify name pwd is_login w =
      if same name [] || same pwd []
      then some (false, w)
      else (do got ← get_conn w.pool; verify_with name pwd is_login w.database got)
