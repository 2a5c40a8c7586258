-- ===== src/Http/Buffer/Tests.antt =====
-- Runs of the buffer, and the theorems at a concrete one.
use piorun.Prelude.{◌≡◌, refl, List, [], ◌∷◌, some, arith}
use piorun.Http.Buffer.{Buffer, contents, append, make_space, ensure_writable}
use piorun.Http.Buffer.Valid.{IsValid}
use piorun.Http.Buffer.Queue.{
  Call, appends, receives, sends, retrieves, calls, queue_calls, calls-Refines,
}

-- Six bytes of room, of which one was read, two hold data, and three are free.
abbrev half_read : Buffer
half_read = record { storage = 1 ∷ 2 ∷ 3 ∷ 0 ∷ 0 ∷ 0 ∷ []; read_pos = 1; write_pos = 3 }

half_read-IsValid : IsValid half_read
half_read-IsValid = omega arith

-- Four bytes fit after the contents have moved to the front.
append_moves :
    append half_read (4 ∷ 5 ∷ 6 ∷ 7 ∷ [])
    ≡ some (record { storage = 2 ∷ 3 ∷ 4 ∷ 5 ∷ 6 ∷ 7 ∷ []; read_pos = 0; write_pos = 6 })
unfolding append ensure_writable make_space
append_moves = refl

append_grows :
    append (record half_read { write_pos = 6 }) (4 ∷ 5 ∷ [])
    ≡ some
        (record { storage = 1 ∷ 2 ∷ 3 ∷ 0 ∷ 0 ∷ 0 ∷ 4 ∷ 5 ∷ 0 ∷ []; read_pos = 1; write_pos = 8 })
unfolding append ensure_writable make_space
append_grows = refl

abbrev session : List Call
session = receives (4 ∷ 5 ∷ 6 ∷ 7 ∷ 8 ∷ []) ∷ retrieves 3 ∷ appends (9 ∷ []) ∷ sends 2 ∷ []

calls-Refines_example :
    (b' : Buffer) × (calls session half_read ≡ some b')
    × IsValid b'
    × (contents b' ≡ 7 ∷ 8 ∷ 9 ∷ [])
unfolding queue_calls
calls-Refines_example =
    calls-Refines session {b = half_read} (7 ∷ 8 ∷ 9 ∷ []) half_read-IsValid (omega arith) refl
