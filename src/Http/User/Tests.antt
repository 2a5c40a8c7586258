-- ===== src/Http/User/Tests.antt =====
-- Runs of UserVerify on a table of one user, and the theorem at a login.
use piorun.Prelude.{
  ℕ, ◌+◌, ◌≡◌, refl, List, [], ◌∷◌, Option, some, none, true, false, ◌==◌, if◌then◌else◌,
}
use piorun.Http.CString.{codes}
use piorun.Http.Text.{Text, same}
use piorun.Http.SqlConnPool.{SqlConnPool, get_conn, free_conn}
use piorun.Http.User.{Row, check_rows, register, conclude, verify_with, user_verify}
use piorun.Http.User.Verdict.{user_verify_lem}

abbrev pub ann : Row
ann = record { username = codes "ann"; password = codes "pw" }

-- A database that finds `ann` in answer to every order, and counts the orders.
abbrev pub one_user : ℕ → Text → ℕ → Option (List Row) × ℕ
one_user sql order d = (some (ann ∷ []), d + 1)

-- A database that finds nobody, and refuses the second order.
abbrev read_only : ℕ → Text → ℕ → Option (List Row) × ℕ
read_only sql order d = if d == 0 then (some [], 1) else (none, d)

abbrev pool : SqlConnPool
pool = record { conn_que = 7 ∷ []; sem_id = 1 }

user_verify_lem_example :
    user_verify one_user (codes "ann") (codes "pw") true (record { pool = pool; database = 0 })
    ≡ some (true, record { pool = record { conn_que = 7 ∷ 7 ∷ []; sem_id = 2 }; database = 1 })
unfolding same
user_verify_lem_example =
    user_verify_lem one_user 7 [] 0 (codes "ann") (codes "pw") true (some ann) 0 1 (λ e. cc)
      (λ e. cc) refl

-- The order that enters the name fails, and the registration is accepted.
not_entered :
    user_verify read_only (codes "bob") (codes "pw") false (record { pool = pool; database = 0 })
    ≡ some (true, record { pool = record { conn_que = 7 ∷ 7 ∷ []; sem_id = 2 }; database = 1 })
unfolding user_verify verify_with conclude register check_rows get_conn free_conn same
not_entered = refl
