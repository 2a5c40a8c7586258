-- ===== src/Http/User/Verdict.antt =====
-- What UserVerify answers, and where the connection is left.
use piorun.Prelude.{
  ℕ, suc, ◌+◌, ◌≡◌, ◌≢◌, refl, List, [], ◌∷◌, ◌++◌, Option, some, none, Bool, true, false, not,
  arith, append_assoc,
}
use piorun.Http.Text.{Text, same, same-other}
use piorun.Http.SqlConnPool.{SqlConnPool, get_conn, free_conn}
use piorun.Http.User.{
  Row, select_order, insert_order, check_rows, register, conclude, verify_with, user_verify,
}

-- The answer that a result of at most one row asks for: a login wants the row with the password, a
-- registration wants no row.
abbrev pub expected : Bool → Text → Option Row → Bool
expected true pwd none = false
expected true pwd (some row) = same pwd row.password
expected false pwd none = true
expected false pwd (some row) = false

abbrev pub rows_of : Option Row → List Row
rows_of none = []
rows_of (some row) = row ∷ []

check_rows_lem :
    (is_login : Bool) (pwd : Text) (row : Option Row)
    → check_rows pwd is_login (not is_login) (rows_of row) ≡ expected is_login pwd row
unfolding check_rows
check_rows_lem true pwd none = refl
check_rows_lem true pwd (some row) = refl
check_rows_lem false pwd none = refl
check_rows_lem false pwd (some row) = refl

get_conn_lem :
    (sql : ℕ) (rest : List ℕ) (permits : ℕ)
    → get_conn (record { conn_que = sql ∷ rest; sem_id = suc permits })
      ≡ some (some sql, record { conn_que = rest; sem_id = permits })
unfolding get_conn
get_conn_lem sql rest permits = ground arith

free_conn_twice :
    (sql : ℕ) (rest : List ℕ) (permits : ℕ)
    → free_conn (free_conn (record { conn_que = rest; sem_id = permits }) sql) sql
      ≡ record { conn_que = rest ++ (sql ∷ sql ∷ []); sem_id = permits + 2 }
unfolding free_conn
free_conn_twice sql rest permits = ground (arith, append_assoc rest (sql ∷ []) (sql ∷ []))

module _ {D : Type 0} (mysql_query : ℕ → Text → D → Option (List Row) × D) where
  -- The database behind the call: a registration of a new name has sent its order, whatever came of it.
  abbrev pub sent : ℕ → Text → Text → Bool → Option Row → D → D
  sent sql name pwd false none d = (mysql_query sql (insert_order name pwd) d).1
  sent sql name pwd false (some row) d = d
  sent sql name pwd true row d = d

  conclude_lem :
      (sql : ℕ) (name pwd : Text) (is_login : Bool) (row : Option Row) (pool : SqlConnPool) (d : D)
      → conclude mysql_query sql name pwd is_login pool (some (rows_of row), d) ≡ (
        expected is_login pwd row,
        record { pool = free_conn pool sql; database = sent sql name pwd is_login row d },
      )
  unfolding conclude register
  conclude_lem sql name pwd true none pool d = rw (check_rows_lem true pwd none) refl
  conclude_lem sql name pwd true (some row) pool d = rw (check_rows_lem true pwd (some row)) refl
  conclude_lem sql name pwd false none pool d = rw (check_rows_lem false pwd none) refl
  conclude_lem sql name pwd false (some row) pool d = rw (check_rows_lem false pwd (some row)) refl

  -- With a name and a password, a free connection, and a query that gives at most one row, UserVerify
  -- returns; a login is accepted if there is a row with the password, and a registration if there is
  -- no row, also when the order that enters the name fails. The pool is left with the connection in its
  -- queue twice, and one permit more than before.
  pub user_verify_lem :
      (sql : ℕ) (rest : List ℕ) (permits : ℕ) (name pwd : Text) (is_login : Bool) (row : Option Row)
      (d d' : D)
      → name ≢ []
      → pwd ≢ []
      → mysql_query sql (select_order name) d ≡ (some (rows_of row), d')
      → user_verify mysql_query name pwd is_login
          (record { pool = record { conn_que = sql ∷ rest; sem_id = suc permits }; database = d })
        ≡ some (
          expected is_login pwd row,
          record {
            pool = record { conn_que = rest ++ (sql ∷ sql ∷ []); sem_id = permits + 2 };
            database = sent sql name pwd is_login row d';
          },
        )
  unfolding user_verify verify_with
  user_verify_lem sql rest permits name pwd is_login row d d' n p e =
      rw
        (
          same-other name [] n,
          same-other pwd [] p,
          get_conn_lem sql rest permits,
          e,
          conclude_lem sql name pwd is_login row
              (free_conn (record { conn_que = rest; sem_id = permits }) sql) d',
          free_conn_twice sql rest permits,
        )
        refl
