-- ===== src/Http/SqlConnPool/Tests.antt =====
-- A run of the pool, and the theorem at its end.
use piorun.Prelude.{◌≡◌, refl, [], ◌∷◌, some, arith}
use piorun.Http.SqlConnPool.{
  SqlConnPool, System, init, start, finds_some, sem_wait, Reach, here, next, tests, passes,
}

abbrev two : SqlConnPool
two = record { conn_que = 4 ∷ 5 ∷ []; sem_id = 2 }

init-two : init (4 ∷ 5 ∷ []) ≡ some two
unfolding init
init-two = refl

-- Two threads have passed the test, and one of them sem_wait.
abbrev entered : System
entered = record { pool = record two { sem_id = 1 }; tested = 1; passed = 1; held = [] }

to_entered : Reach (start two) entered
unfolding start finds_some sem_wait
to_entered =
    next (next (next here (tests refl)) (tests refl))
      (passes (record two { sem_id = 1 }) (omega arith) refl)
