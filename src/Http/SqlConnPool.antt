-- ===== src/Http/SqlConnPool.antt =====
-- src/piorun/http/sqlconnpool.cpp, include/http/sqlconnpool.h, include/http/sqlconnRAII.h: the pool of
-- database connections, with all interleavings of its calls up to ClosePool. A connection is a number.
pub mod Safe
pub mod Tests
use piorun.Prelude.{
  ℕ, ◌+◌, ◌-◌, ◌<◌, ◌≡◌, List, [], ◌∷◌, ◌++◌, Option, none, some, Bool, true, false, ltb,
  if◌then◌else◌, length, ◌>>=◌,
}

-- connQue_ and semId_.
pub record SqlConnPool : Type 0 where
  pub conn_que : List ℕ
  pub sem_id : ℕ

-- Init, with what mysql_real_connect returns for each connection; none if `assert(connSize > 0)` fails.
pub init : List ℕ → Option SqlConnPool
init conns =
    if ltb 0 (length conns) then some (record { conn_que = conns; sem_id = length conns }) else none

-- GetConn: the test without the mutex, true if the call goes on; sem_wait, none if it has to wait; the
-- part under the mutex, none if front() is called on an empty queue.
unfoldable pub finds_some : SqlConnPool → Bool
finds_some p = elim p.conn_que [ [] ↦ false | _ ↦ true ]

unfoldable pub sem_wait : SqlConnPool → Option SqlConnPool
sem_wait p = if ltb 0 p.sem_id then some (record p { sem_id = p.sem_id - 1 }) else none

unfoldable pub take_front : SqlConnPool → Option (ℕ × SqlConnPool)
take_front p = elim p.conn_que [ [] ↦ none | sql ∷ rest ↦ some (sql, record p { conn_que = rest }) ]

-- FreeConn, and the destructor of SqlConnRAII with a connection.
unfoldable pub free_conn : SqlConnPool → ℕ → SqlConnPool
free_conn p sql = record p { conn_que = p.conn_que ++ (sql ∷ []); sem_id = p.sem_id + 1 }

-- GetConn of one thread with no other in between: `none` if it blocks for ever, and no connection if
-- there is none.
unfoldable pub get_conn : SqlConnPool → Option (Option ℕ × SqlConnPool)
unfolding finds_some sem_wait take_front
get_conn p =
    if finds_some p
    then (do p₁ ← sem_wait p; r ← take_front p₁; some (some r.0, r.1))
    else some (none, p)

-- ClosePool, with the connections that it closes.
pub close_pool : SqlConnPool → SqlConnPool × List ℕ
close_pool p = (record p { conn_que = [] }, p.conn_que)

-- The pool with the threads in GetConn, behind its test and behind sem_wait, and the connections that
-- were handed out.
pub record System : Type 0 where
  pub pool : SqlConnPool
  pub tested : ℕ
  pub passed : ℕ
  pub held : List ℕ

pub start : SqlConnPool → System
start p = record { pool = p; tested = 0; passed = 0; held = [] }

-- One step of some thread. A connection that was handed out is freed once.
pub data Step : System → System → Type 0 where
  tests : {s : System} → finds_some s.pool ≡ true → Step s (record s { tested = s.tested + 1 })
  passes :
      {s : System} (p : SqlConnPool)
      → 0 < s.tested
      → sem_wait s.pool ≡ some p
      → Step s (record s { pool = p; tested = s.tested - 1; passed = s.passed + 1 })
  takes :
      {s : System} (sql : ℕ) (p : SqlConnPool)
      → 0 < s.passed
      → take_front s.pool ≡ some (sql, p)
      → Step s (record s { pool = p; passed = s.passed - 1; held = sql ∷ s.held })
  frees :
      {s : System} (xs : List ℕ) (sql : ℕ) (ys : List ℕ)
      → s.held ≡ xs ++ (sql ∷ ys)
      → Step s (record s { pool = free_conn s.pool sql; held = xs ++ ys })

pub data Reach (s : System) : System → Type 0 where
  here : Reach s s
  next : {t u : System} → Reach s t → Step t u → Reach s u
