-- ===== src/Http/Buffer/Space.antt =====
-- MakeSpace_ and EnsureWriteable: the room is made, and the contents stay.
use piorun.Prelude.{
  ℕ, ◌+◌, ◌-◌, ◌≤◌, ◌<◌, ◌≡◌, refl, ap, ◌∙◌, inl, inr, List, [], ◌++◌, some, arith, length, take,
  drop, replicate, length-append, length-drop, length-replicate, take_all, append_assoc, ltb, leb,
  true, Bool-cases, lt→ltb, ltb→lt, ltb_false→le, le→ltb_false, le→leb,
}
use piorun.Http.Buffer.{
  Buffer, max_size, readable_bytes, writable_bytes, contents, make_space, add_size,
  prependable_bytes, ensure_writable,
}
use piorun.Http.Buffer.Valid.{
  IsValid, Cut, Cut-IsValid, contents-Cut, IsValid-Cut, readable_bytes_lem, writable_bytes_lem,
  length-contents,
}

-- What EnsureWriteable leaves: room for `len` bytes behind the same contents.
pub record HasRoom (b b' : Buffer) (len : ℕ) : Type 0 where
  pub valid : IsValid b'
  pub room : len ≤ length b'.storage - b'.write_pos
  pub same : contents b' ≡ contents b
  pub grown : length b'.storage ≤ length b.storage + len + 1

module _ {b : Buffer} (len : ℕ) (v : IsValid b) (small : b.write_pos + len + 1 ≤ max_size) where
  abbrev grown_storage : List ℕ
  grown_storage = b.storage ++ replicate (b.write_pos + len + 1 - length b.storage) 0

  space :
      add_size (writable_bytes b) (prependable_bytes b)
      ≡ length b.storage - b.write_pos + b.read_pos
  space = omega (arith, v.ordered, v.within, v.size)

  wide : add_size (add_size b.write_pos len) 1 ≡ b.write_pos + len + 1
  wide = omega (arith, v.within, v.size)

  -- The branch that makes the vector larger.
  make_space_grows :
      length b.storage - b.write_pos + b.read_pos < len
      → make_space b len ≡ some (record b { storage = grown_storage })
  unfolding make_space
  make_space_grows short =
      rw
        (
          lt→ltb (add_size (writable_bytes b) (prependable_bytes b)) len (rw space short),
          wide,
          le→leb (b.write_pos + len + 1) max_size small,
          take_all b.storage (b.write_pos + len + 1) (omega (arith, v.ordered)),
        )
        refl

  HasRoom-grown :
      length b.storage - b.write_pos + b.read_pos < len
      → HasRoom b (record b { storage = grown_storage }) len
  HasRoom-grown short = record {
    valid = Cut-IsValid cut bound;
    room = omega (arith, size_grown);
    same = contents-Cut cut bound;
    grown = omega (arith, size_grown, v.ordered);
  }
    where
      b' : Buffer
      b' = record b { storage = grown_storage }

      after : List ℕ
      after = drop (readable_bytes b) (drop b.read_pos b.storage)

      zeros : List ℕ
      zeros = replicate (b.write_pos + len + 1 - length b.storage) 0

      old : Cut b (take b.read_pos b.storage) (contents b) after
      old = IsValid-Cut {b = b} v

      cut : Cut b' (take b.read_pos b.storage) (contents b) (after ++ zeros)
      cut = record {
        whole =
            ap (λ l. l ++ zeros) old.whole
            ∙ append_assoc (take b.read_pos b.storage) (contents b ++ after) zeros
            ∙ ap (λ l. take b.read_pos b.storage ++ l) (append_assoc (contents b) after zeros);
        reads = old.reads;
        writes = old.writes;
      }

      size_grown : length grown_storage ≡ b.write_pos + len + 1
      size_grown = omega (
        arith,
        v.ordered,
        length-append b.storage zeros,
        length-replicate {A = ℕ} (b.write_pos + len + 1 - length b.storage) 0,
      )

      bound : length grown_storage ≤ max_size
      bound = omega (arith, size_grown)

  abbrev moved : Buffer
  moved = record {
    storage = contents b ++ drop (length (contents b)) b.storage;
    read_pos = 0;
    write_pos = b.write_pos - b.read_pos;
  }

  -- The branch that moves the contents to the front.
  make_space_moves :
      len ≤ length b.storage - b.write_pos + b.read_pos → make_space b len ≡ some moved
  unfolding make_space
  make_space_moves fits =
      rw
        (
          le→ltb_false (add_size (writable_bytes b) (prependable_bytes b)) len (rw space fits),
          length-contents {b = b} v,
          readable_bytes_lem {b = b} v,
        )
        (ground (arith, v.ordered, v.within, v.size))

  HasRoom-moved : len ≤ length b.storage - b.write_pos + b.read_pos → HasRoom b moved len
  HasRoom-moved fits = record {
    valid = Cut-IsValid cut bound;
    room = omega (arith, size_moved, v.ordered);
    same = contents-Cut cut bound;
    grown = omega (arith, size_moved);
  }
    where
      rest : List ℕ
      rest = drop (length (contents b)) b.storage

      count : length (contents b) ≡ b.write_pos - b.read_pos
      count = length-contents {b = b} v ∙ readable_bytes_lem {b = b} v

      cut : Cut moved [] (contents b) rest
      cut = record { whole = refl; reads = refl; writes = omega (arith, count) }

      size_moved : length (contents b ++ rest) ≡ length b.storage
      size_moved = omega (
        arith,
        v.ordered,
        v.within,
        count,
        length-append (contents b) rest,
        length-drop (length (contents b)) b.storage,
      )

      bound : length (contents b ++ rest) ≤ max_size
      bound = omega (arith, size_moved, v.size)

  make_space-HasRoom : (b' : Buffer) × (make_space b len ≡ some b') × HasRoom b b' len
  make_space-HasRoom = elim (Bool-cases (ltb (length b.storage - b.write_pos + b.read_pos) len)) [
    | inl e ↦
        let short = ltb→lt (length b.storage - b.write_pos + b.read_pos) len e in
        (record b { storage = grown_storage }, make_space_grows short, HasRoom-grown short)
    | inr e ↦
        let fits = ltb_false→le (length b.storage - b.write_pos + b.read_pos) len e in
        (moved, make_space_moves fits, HasRoom-moved fits)
  ]

  room_checked : {b' : Buffer} → HasRoom b b' len → leb len (writable_bytes b') ≡ true
  room_checked {b'} r =
      le→leb len (writable_bytes b') (omega (arith, r.room, writable_bytes_lem {b = b'} r.valid))

  pub ensure_writable-HasRoom : (b' : Buffer) × (ensure_writable b len ≡ some b') × HasRoom b b' len
  unfolding ensure_writable
  ensure_writable-HasRoom = elim (Bool-cases (ltb (writable_bytes b) len)) [
    | inl e ↦
        let (b', made, room) = make_space-HasRoom in
        (b', rw (e, made, room_checked {b' = b'} room) refl, room)
    | inr e ↦ (
      b,
      rw (e, le→leb len (writable_bytes b) (ltb_false→le (writable_bytes b) len e)) refl,
      record {
        valid = v;
        room = omega (arith, ltb_false→le (writable_bytes b) len e, writable_bytes_lem {b = b} v);
        same = refl;
        grown = omega arith;
      },
    )
  ]
