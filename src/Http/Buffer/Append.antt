-- ===== src/Http/Buffer/Append.antt =====
-- Append: the bytes go to the end of the contents.
use piorun.Prelude.{
  ℕ, ◌+◌, ◌≤◌, ◌≡◌, refl, sym, ap, ◌∙◌, List, ◌++◌, some, arith, length, take, drop, length-append,
  length-drop, take-append, drop-append_add, append_assoc, le→leb,
}
use piorun.Http.Buffer.{
  Buffer, max_size, readable_bytes, contents, write_at, append, has_written, append_buffer,
}
use piorun.Http.Buffer.Space.{HasRoom, ensure_writable-HasRoom}
use piorun.Http.Buffer.Valid.{IsValid, Cut, Cut-IsValid, contents-Cut, IsValid-Cut, length-contents}

pub write_at_end :
    {b : Buffer} {before content after : List ℕ} (bytes : List ℕ)
    → Cut b before content after
    → length bytes ≤ length after
    → write_at b.storage b.write_pos bytes
      ≡ some (before ++ ((content ++ bytes) ++ drop (length bytes) after))
write_at_end {b} {before} {content} {after} bytes c h =
    rw (le→leb (b.write_pos + length bytes) (length b.storage) fits) (ap some parts)
  where
    fits : b.write_pos + length bytes ≤ length b.storage
    fits = omega (
      arith,
      c.writes,
      ap length c.whole,
      length-append before (content ++ after),
      length-append content after,
    )

    whole : b.storage ≡ (before ++ content) ++ after
    whole = c.whole ∙ sym (append_assoc before content after)

    at_end : b.write_pos ≡ length (before ++ content)
    at_end = omega (arith, c.writes, length-append before content)

    regroup :
        (before ++ content) ++ (bytes ++ drop (length bytes) after)
        ≡ before ++ ((content ++ bytes) ++ drop (length bytes) after)
    regroup =
        append_assoc before content (bytes ++ drop (length bytes) after)
        ∙ ap (λ l. before ++ l) (sym (append_assoc content bytes (drop (length bytes) after)))

    parts :
        take b.write_pos b.storage ++ (bytes ++ drop (b.write_pos + length bytes) b.storage)
        ≡ before ++ ((content ++ bytes) ++ drop (length bytes) after)
    parts =
        rw
          (
            whole,
            take-append (before ++ content) after b.write_pos at_end,
            drop-append_add (before ++ content) after (b.write_pos + length bytes) (length bytes)
                (omega (arith, at_end)),
          )
          regroup

-- The result of an append.
pub record Appended (b b' : Buffer) (str : List ℕ) : Type 0 where
  pub valid : IsValid b'
  pub text : contents b' ≡ contents b ++ str
  pub grown : length b'.storage ≤ length b.storage + length str + 1

-- Writing into the room.
module _ {b b₁ : Buffer} (str : List ℕ) (r : HasRoom b b₁ (length str)) where
  pub before : List ℕ
  before = take b₁.read_pos b₁.storage

  pub after : List ℕ
  after = drop (readable_bytes b₁) (drop b₁.read_pos b₁.storage)

  abbrev pub filled : List ℕ
  filled = before ++ ((contents b₁ ++ str) ++ drop (length str) after)

  old-Cut : Cut b₁ before (contents b₁) after
  unfolding before after
  old-Cut = IsValid-Cut {b = b₁} r.valid

  length-after : length b₁.storage ≡ b₁.write_pos + length after
  length-after = omega (
    arith,
    old-Cut.writes,
    ap length old-Cut.whole,
    length-append before (contents b₁ ++ after),
    length-append (contents b₁) after,
  )

  pub filled_lem : write_at b₁.storage b₁.write_pos str ≡ some filled
  filled_lem = write_at_end {b = b₁} str old-Cut (omega (arith, length-after, r.room))

  pub length-filled : length filled ≡ length b₁.storage
  length-filled = omega (
    arith,
    r.room,
    length-after,
    old-Cut.writes,
    length-append before ((contents b₁ ++ str) ++ drop (length str) after),
    length-append (contents b₁ ++ str) (drop (length str) after),
    length-append (contents b₁) str,
    length-drop (length str) after,
  )

  abbrev pub filled_buffer : Buffer
  filled_buffer = has_written (record b₁ { storage = filled }) (length str)

  filled-Cut : Cut filled_buffer before (contents b₁ ++ str) (drop (length str) after)
  filled-Cut = record {
    whole = refl;
    reads = old-Cut.reads;
    writes = omega (
      arith,
      length-after,
      r.room,
      r.valid.size,
      old-Cut.writes,
      length-append (contents b₁) str,
    );
  }

  pub Appended-filled : Appended b filled_buffer str
  Appended-filled =
      let bound : length filled ≤ max_size = omega (arith, length-filled, r.valid.size) in
      record {
        valid = Cut-IsValid filled-Cut bound;
        text = contents-Cut filled-Cut bound ∙ ap (λ l. l ++ str) r.same;
        grown = omega (arith, length-filled, r.grown);
      }

-- On a valid buffer, with the position, the length and one more byte at most 2^63 - 1, Append
-- succeeds (its assertion holds, and it writes inside the vector): the buffer is valid again, its
-- contents are those before and then the new bytes, and the vector has grown by at most one more
-- than their number.
pub append-Appended :
    {b : Buffer} (str : List ℕ)
    → IsValid b
    → b.write_pos + length str + 1 ≤ max_size
    → (b' : Buffer) × (append b str ≡ some b') × Appended b b' str
unfolding append
append-Appended {b} str v small =
    let (b₁, e, r) = ensure_writable-HasRoom {b = b} (length str) v small in
    (
      filled_buffer {b = b} {b₁ = b₁} str r,
      rw (e, filled_lem {b = b} {b₁ = b₁} str r) refl,
      Appended-filled {b = b} {b₁ = b₁} str r,
    )

-- So it is for a whole buffer that is appended: its contents are.
pub append_buffer-Appended :
    {b : Buffer} (other : Buffer)
    → IsValid b
    → IsValid other
    → b.write_pos + readable_bytes other + 1 ≤ max_size
    → (b' : Buffer) × (append_buffer b other ≡ some b') × Appended b b' (contents other)
unfolding append_buffer
append_buffer-Appended {b} other v w small =
    append-Appended {b = b} (contents other) v (omega (arith, length-contents {b = other} w))
