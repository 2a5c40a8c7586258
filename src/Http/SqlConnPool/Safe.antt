-- ===== src/Http/SqlConnPool/Safe.antt =====
-- GetConn never takes from an empty queue, and no connection is lost.
use piorun.Prelude.{
  ℕ, ◌+◌, ◌<◌, ◌≡◌, refl, ap, List, [], ◌∷◌, some, arith, length, length-append, length-split,
}
use piorun.Http.SqlConnPool.{
  SqlConnPool, System, Step, tests, passes, takes, frees, Reach, here, next, start, init, sem_wait,
  take_front, free_conn,
}

-- Every item of the queue has its permit, or a thread that is about to take it.
pub record IsValid (total : ℕ) (s : System) : Type 0 where
  pub permits : s.pool.sem_id + s.passed ≡ length s.pool.conn_que
  pub kept : length s.pool.conn_que + length s.held ≡ total

module _ {total : ℕ} where
  Step-IsValid : {s t : System} → Step s t → IsValid total s → IsValid total t
  unfolding sem_wait take_front free_conn
  Step-IsValid (tests {s} h) v = record { permits = v.permits; kept = v.kept }
  Step-IsValid (passes {s} p h e) v = grind arith
  Step-IsValid (takes {s} sql p h e) v = grind arith
  Step-IsValid (frees {s} xs sql ys e) v =
      ground (arith, length-append s.pool.conn_que (sql ∷ []), ap length e, length-split xs sql ys)

  Reach-IsValid : {s t : System} → IsValid total s → Reach s t → IsValid total t
  Reach-IsValid v here = v
  Reach-IsValid v (next r st) = Step-IsValid st (Reach-IsValid v r)

init-IsValid :
    (conns : List ℕ) (p : SqlConnPool) → init conns ≡ some p → IsValid (length conns) (start p)
unfolding init start
init-IsValid conns p e = grind arith

take_front-nonempty :
    (que : List ℕ) (permits : ℕ)
    → 0 < length que
    → (sql : ℕ) × (q : SqlConnPool) × (take_front (record { conn_que = que; sem_id = permits })
        ≡ some (sql, q))
unfolding take_front
take_front-nonempty [] permits h = absurd (omega arith)
take_front-nonempty (sql ∷ rest) permits h =
    (sql, record { conn_que = rest; sem_id = permits }, refl)

take_front-filled :
    (p : SqlConnPool)
    → 0 < length p.conn_que
    → (sql : ℕ) × (q : SqlConnPool) × (take_front p ≡ some (sql, q))
take_front-filled p h = take_front-nonempty p.conn_que p.sem_id h

-- In every state reached from a new pool by any interleaving of GetConn and FreeConn: a thread that has
-- passed sem_wait finds a connection at the front of the queue; and the connections in the queue and
-- those that were handed out are as many as the pool was made with.
pub get_conn_finds :
    (conns : List ℕ) (p : SqlConnPool) {s : System}
    → init conns ≡ some p
    → Reach (start p) s
    → 0 < s.passed
    → ((sql : ℕ) × (q : SqlConnPool) × (take_front s.pool ≡ some (sql, q)))
      × (length s.pool.conn_que + length s.held ≡ length conns)
get_conn_finds conns p {s} e r h =
    let v = Reach-IsValid (init-IsValid conns p e) r in
    (take_front-filled s.pool (omega (arith, v.permits)), v.kept)
