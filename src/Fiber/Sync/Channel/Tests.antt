-- ===== src/Fiber/Sync/Channel/Tests.antt =====
-- Runs of a channel of size 1, and the theorems at them.
use piorun.Prelude.{ℕ, ◌+◌, ◌<◌, ◌≤◌, ◌≡◌, refl, [], ◌∷◌, ◌++◌, true, false, arith, length}
use piorun.Fiber.Sync.Mutex.{lock, unlock}
use piorun.Fiber.Sync.Mutex
use piorun.Fiber.Sync.Semaphore.{wait, signal}
use piorun.Fiber.Sync.Semaphore
use piorun.Fiber.Sync.Channel.{
  Channel, write_begins, write_waits_space, write_has_space, write_has_mtx, write_pushed,
  write_unlocked, write_returned, read_begins, read_has_full, read_has_mtx, init, write, read,
  System, start, begins_write, begins_read, writes, reads, Reach, here, next,
}
use piorun.Fiber.Sync.Calls.{total}
use piorun.Fiber.Sync.Channel.Counts.{
  write_locked, read_locked, write_awaits_space, write_awaits_mtx, read_awaits_full,
  read_awaits_mtx,
}
use piorun.Fiber.Sync.Channel.Safe.{channel_in_order, channel_rests}

abbrev one_item : Channel ℕ
one_item = record {
  mtx = record { waiters = []; locked = false };
  full = record { waiters = []; count = 1 };
  space = record { waiters = []; count = 0 };
  items = 7 ∷ [];
  ready_mtx = [];
  ready_full = [];
  ready_space = [];
}

-- Fiber 1 has written 7.
abbrev written : System ℕ
written = record {
  channel = one_item;
  writers = (1, write_returned) ∷ [];
  readers = [];
  pushed = 7 ∷ [];
  popped = [];
}

to_written : Reach (start 1) written
unfolding start init Mutex.init Semaphore.init write wait lock unlock signal
to_written =
    next
      (next
        (next
          (next (next (next here (begins_write 1 7)) (writes [] 1 (write_begins 7) [] refl))
            (writes [] 1 (write_has_space 7) [] refl))
          (writes [] 1 (write_has_mtx 7) [] refl))
        (writes [] 1 write_pushed [] refl))
      (writes [] 1 write_unlocked [] refl)

channel_in_order_example :
    (written.pushed ≡ written.popped ++ written.channel.items)
    × (length written.channel.items ≤ 1)
    × (total write_locked written.writers + total read_locked written.readers ≤ 1)
channel_in_order_example = channel_in_order 1 (omega arith) to_written

-- Fiber 3 is about to pop.
abbrev popping : System ℕ
popping = record written {
  channel = record one_item {
    mtx = record { waiters = []; locked = true };
    full = record { waiters = []; count = 0 };
  };
  readers = (3, read_has_mtx) ∷ [];
}

to_popping : Reach (start 1) popping
unfolding read wait lock
to_popping =
    next
      (next (next to_written (begins_read 3)) (reads [] 3 read_begins read_has_full [] _ refl refl))
      (reads [] 3 read_has_full read_has_mtx [] _ refl refl)

-- Fiber 2 waits to write 8.
abbrev waiting : System ℕ
waiting = record written {
  channel = record one_item { space = record { waiters = 2 ∷ []; count = 0 } };
  writers = (2, write_waits_space 8) ∷ (1, write_returned) ∷ [];
}

to_waiting : Reach (start 1) waiting
unfolding write wait
to_waiting =
    next (next to_written (begins_write 2 8))
      (writes [] 2 (write_begins 8) ((1, write_returned) ∷ []) refl)

channel_rests_example :
    (total write_awaits_mtx waiting.writers + total read_awaits_mtx waiting.readers ≡ 0)
    × (0 < total write_awaits_space waiting.writers → length waiting.channel.items ≡ 1)
    × (0 < total read_awaits_full waiting.readers → waiting.channel.items ≡ [])
channel_rests_example = channel_rests 1 (omega arith) to_waiting refl refl refl refl refl
