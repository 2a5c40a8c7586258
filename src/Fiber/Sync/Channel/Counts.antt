-- ===== src/Fiber/Sync/Channel/Counts.antt =====
-- How many calls are in which phases.
use piorun.Prelude.{ℕ, ◌≡◌, refl, List, [], ◌∷◌, arith}
use piorun.Fiber.Sync.{Fiber}
use piorun.Fiber.Sync.Calls.{total}
use piorun.Fiber.Sync.Channel.{
  WritePhase, write_waits_space, write_has_space, write_waits_mtx, write_has_mtx, write_pushed,
  write_unlocked, write_returned, ReadPhase, read_waits_full, read_has_full, read_waits_mtx,
  read_has_mtx, read_popped, read_unlocked, read_returned,
}

module _ {V : Type 0} where
  -- A permit for space is held, and nothing is pushed yet.
  abbrev pub before_push : WritePhase V → ℕ
  before_push (write_has_space x) = 1
  before_push (write_waits_mtx x) = 1
  before_push (write_has_mtx x) = 1
  before_push _ = 0

  -- The item is pushed, and not signalled yet.
  abbrev pub after_push : WritePhase V → ℕ
  after_push write_pushed = 1
  after_push write_unlocked = 1
  after_push _ = 0

  abbrev pub write_locked : WritePhase V → ℕ
  write_locked (write_has_mtx x) = 1
  write_locked write_pushed = 1
  write_locked _ = 0

  abbrev pub write_awaits_space : WritePhase V → ℕ
  write_awaits_space (write_waits_space x) = 1
  write_awaits_space _ = 0

  abbrev pub write_awaits_mtx : WritePhase V → ℕ
  write_awaits_mtx (write_waits_mtx x) = 1
  write_awaits_mtx _ = 0

  -- The call neither waits nor has returned.
  abbrev pub write_runs : WritePhase V → ℕ
  write_runs (write_waits_space x) = 0
  write_runs (write_waits_mtx x) = 0
  write_runs write_returned = 0
  write_runs _ = 1

  abbrev pub read_runs : ReadPhase V → ℕ
  read_runs read_waits_full = 0
  read_runs read_waits_mtx = 0
  read_runs (read_returned x) = 0
  read_runs _ = 1

  abbrev pub before_pop : ReadPhase V → ℕ
  before_pop read_has_full = 1
  before_pop read_waits_mtx = 1
  before_pop read_has_mtx = 1
  before_pop _ = 0

  abbrev pub after_pop : ReadPhase V → ℕ
  after_pop (read_popped x) = 1
  after_pop (read_unlocked x) = 1
  after_pop _ = 0

  abbrev pub read_locked : ReadPhase V → ℕ
  read_locked read_has_mtx = 1
  read_locked (read_popped x) = 1
  read_locked _ = 0

  abbrev pub read_awaits_full : ReadPhase V → ℕ
  read_awaits_full read_waits_full = 1
  read_awaits_full _ = 0

  abbrev pub read_awaits_mtx : ReadPhase V → ℕ
  read_awaits_mtx read_waits_mtx = 1
  read_awaits_mtx _ = 0

  pub write_runs_none :
      (ws : List (Fiber × WritePhase V))
      → total write_runs ws ≡ 0
      → (total before_push ws ≡ total write_awaits_mtx ws)
        × (total after_push ws ≡ 0)
        × (total write_locked ws ≡ 0)
  write_runs_none [] e = (refl, refl, refl)
  write_runs_none ((f, p) ∷ ws) e = ground (arith, write_runs_none ws (omega arith))

  pub read_runs_none :
      (rs : List (Fiber × ReadPhase V))
      → total read_runs rs ≡ 0
      → (total before_pop rs ≡ total read_awaits_mtx rs)
        × (total after_pop rs ≡ 0)
        × (total read_locked rs ≡ 0)
  read_runs_none [] e = (refl, refl, refl)
  read_runs_none ((f, p) ∷ rs) e = ground (arith, read_runs_none rs (omega arith))
