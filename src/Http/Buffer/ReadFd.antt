-- ===== src/Http/Buffer/ReadFd.antt =====
-- ReadFd: what the scattered read delivers goes in behind the contents.
use piorun.Prelude.{
  ℕ, ◌+◌, ◌-◌, ◌≤◌, ◌<◌, ◌≡◌, refl, sym, ap, ◌∙◌, inl, inr, List, ◌++◌, some, arith, length, take,
  drop, length-take, length-drop, take_all, take-append-drop, append_assoc, leb, Bool-cases, leb→le,
  leb_false→lt, le→leb, lt→leb_false,
}
use piorun.Http.Buffer.{Buffer, max_size, writable_bytes, contents, write_at, append, done, read_fd}
use piorun.Http.Buffer.Valid.{IsValid, writable_bytes_lem}
use piorun.Http.Buffer.Append.{
  Appended, append-Appended, filled_buffer, filled_lem, length-filled, Appended-filled,
}
use piorun.Http.Buffer.Space.{HasRoom}

-- The part of a transfer that fits behind the contents.
module _ {b : Buffer} (bytes : List ℕ) (v : IsValid b)
    (fits : length bytes ≤ writable_bytes b) where
  pub HasRoom-self : HasRoom b b (length bytes)
  HasRoom-self = record {
    valid = v;
    room = omega (arith, writable_bytes_lem {b = b} v);
    same = refl;
    grown = omega arith;
  }

module _ {b : Buffer} (bytes : List ℕ) (v : IsValid b) where
  read_fd_fits :
      length bytes ≤ writable_bytes b
      → (b' : Buffer) × (read_fd b (done bytes) ≡ some (b', done (length bytes)))
        × Appended b b' bytes
  unfolding read_fd
  read_fd_fits fits =
      let room = HasRoom-self {b = b} bytes v fits in
      (
        filled_buffer {b = b} {b₁ = b} bytes room,
        rw
            (
              take_all bytes (writable_bytes b) fits,
              filled_lem {b = b} {b₁ = b} bytes room,
              le→leb (length bytes) (writable_bytes b) fits,
            )
            refl,
        Appended-filled {b = b} {b₁ = b} bytes room,
      )

  module _ (more : writable_bytes b < length bytes)
      (small : b.write_pos + length bytes + 1 ≤ max_size) where
    first : List ℕ
    first = take (writable_bytes b) bytes

    length-first : length first ≡ writable_bytes b
    unfolding first
    length-first = omega (arith, length-take (writable_bytes b) bytes)

    room : HasRoom b b (length first)
    room = HasRoom-self {b = b} first v (omega (arith, length-first))

    full : Buffer
    full = filled_buffer {b = b} {b₁ = b} first room

    -- The vector is full up to its end.
    write_pos-full : full.write_pos ≡ length full.storage
    unfolding full
    write_pos-full = omega (
      arith,
      v.ordered,
      v.within,
      v.size,
      length-first,
      length-filled {b = b} {b₁ = b} first room,
      writable_bytes_lem {b = b} v,
    )

    length-full : length full.storage ≡ length b.storage
    unfolding full
    length-full = length-filled {b = b} {b₁ = b} first room

    full-Appended : Appended b full first
    unfolding full
    full-Appended = Appended-filled {b = b} {b₁ = b} first room

    rest : List ℕ
    rest = drop (writable_bytes b) bytes

    length-rest : length rest ≡ length bytes - writable_bytes b
    unfolding rest
    length-rest = length-drop (writable_bytes b) bytes

    write_first : write_at b.storage b.write_pos (take (writable_bytes b) bytes) ≡ some full.storage
    unfolding full first
    write_first = filled_lem {b = b} {b₁ = b} first room

    filled-full : (record b { storage = full.storage; write_pos = length full.storage }) ≡ full
    unfolding full
    filled-full = ap (λ p. record b { storage = full.storage; write_pos = p }) (sym write_pos-full)

    append_rest : (b' : Buffer) × (append full rest ≡ some b') × Appended full b' rest
    append_rest = append-Appended {b = full} rest full-Appended.valid (
        omega (
          arith,
          v.within,
          more,
          small,
          write_pos-full,
          length-full,
          writable_bytes_lem {b = b} v,
          length-rest,
        ))

    read_fd_text : Appended b append_rest.0 bytes
    unfolding rest first
    read_fd_text =
        let (_, _, a) = append_rest in
        record {
          valid = a.valid;
          text =
              a.text
              ∙ ap (λ l. l ++ rest) full-Appended.text
              ∙ append_assoc (contents b) first rest
              ∙ ap (λ l. contents b ++ l) (take-append-drop (writable_bytes b) bytes);
          grown = omega (arith, a.grown, length-full, length-rest);
        }

    append_dropped : append full (drop (writable_bytes b) bytes) ≡ some append_rest.0
    unfolding rest
    append_dropped = append_rest.1

    read_fd_overflows : read_fd b (done bytes) ≡ some (append_rest.0, done (length bytes))
    unfolding read_fd
    read_fd_overflows =
        rw
          (
            write_first,
            lt→leb_false (length bytes) (writable_bytes b) more,
            filled-full,
            append_dropped,
          )
          refl

-- ReadFd, when the kernel delivers bytes and the position, their number and one more byte are at most
-- 2^63 - 1: all of them go to the end of the contents, also those that arrive in the second
-- part of the scattered read; the buffer stays valid, and their number is returned.
pub read_fd_done :
    {b : Buffer} (bytes : List ℕ)
    → IsValid b
    → b.write_pos + length bytes + 1 ≤ max_size
    → (b' : Buffer) × (read_fd b (done bytes) ≡ some (b', done (length bytes)))
      × Appended b b' bytes
read_fd_done {b} bytes v small = elim (Bool-cases (leb (length bytes) (writable_bytes b))) [
  | inl e ↦ read_fd_fits {b = b} bytes v (leb→le (length bytes) (writable_bytes b) e)
  | inr e ↦
      let more = leb_false→lt (length bytes) (writable_bytes b) e in
      (
        (append_rest bytes v more small).0,
        read_fd_overflows bytes v more small,
        read_fd_text bytes v more small,
      )
]
