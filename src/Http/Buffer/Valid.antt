-- ===== src/Http/Buffer/Valid.antt =====
-- The invariant of a buffer, and the vector cut at the two positions.
use piorun.Prelude.{
  ℕ, ◌+◌, ◌-◌, ◌≤◌, ◌≡◌, refl, sym, ap, ◌∙◌, List, [], ◌++◌, arith, length, take, drop,
  length-append, length-take, length-drop, length-replicate, take-append, drop-append,
  take-append-drop,
}
use piorun.Http.Buffer.{
  Buffer, max_size, init, readable_bytes, writable_bytes, contents, retrieve_all,
}

pub record IsValid (b : Buffer) : Type 0 where
  pub ordered : b.read_pos ≤ b.write_pos
  pub within : b.write_pos ≤ length b.storage
  pub size : length b.storage ≤ max_size

-- No subtraction of the positions wraps.
pub readable_bytes_lem : {b : Buffer} → IsValid b → readable_bytes b ≡ b.write_pos - b.read_pos
readable_bytes_lem v = omega arith

pub writable_bytes_lem :
    {b : Buffer} → IsValid b → writable_bytes b ≡ length b.storage - b.write_pos
writable_bytes_lem v = omega arith

pub length-contents : {b : Buffer} → IsValid b → length (contents b) ≡ readable_bytes b
length-contents {b} v = omega (
  arith,
  length-take (readable_bytes b) (drop b.read_pos b.storage),
  length-drop b.read_pos b.storage,
)

-- The vector in three parts: what was read, the contents, and the room behind them.
pub record Cut (b : Buffer) (before content after : List ℕ) : Type 0 where
  pub whole : b.storage ≡ before ++ (content ++ after)
  pub reads : b.read_pos ≡ length before
  pub writes : b.write_pos ≡ length before + length content

pub Cut-IsValid :
    {b : Buffer} {before content after : List ℕ}
    → Cut b before content after
    → length b.storage ≤ max_size
    → IsValid b
Cut-IsValid {b} {before} {content} {after} c h = record {
  ordered = omega (arith, c.reads, c.writes);
  within = omega (
    arith,
    c.writes,
    ap length c.whole,
    length-append before (content ++ after),
    length-append content after,
  );
  size = h;
}

pub contents-Cut :
    {b : Buffer} {before content after : List ℕ}
    → Cut b before content after
    → length b.storage ≤ max_size
    → contents b ≡ content
contents-Cut {b} {before} {content} {after} c h =
    let v = Cut-IsValid {b = b} {before = before} {content = content} {after = after} c h in
    rw (c.whole, drop-append before (content ++ after) b.read_pos c.reads)
      (take-append content after (readable_bytes b)
        (omega (arith, c.reads, c.writes, readable_bytes_lem {b = b} v)))

pub IsValid-Cut :
    {b : Buffer}
    → IsValid b
    → Cut b
        (take b.read_pos b.storage)
        (contents b)
        (drop (readable_bytes b) (drop b.read_pos b.storage))
IsValid-Cut {b} v = record {
  whole = sym (
      ap (λ l. take b.read_pos b.storage ++ l)
        (take-append-drop (readable_bytes b) (drop b.read_pos b.storage))
      ∙ take-append-drop b.read_pos b.storage);
  reads = omega (arith, length-take b.read_pos b.storage);
  writes = omega (
    arith,
    length-take b.read_pos b.storage,
    length-contents {b = b} v,
    readable_bytes_lem {b = b} v,
  );
}

pub init-IsValid : (size : ℕ) → size ≤ max_size → IsValid (init size) × (contents (init size) ≡ [])
unfolding init
init-IsValid size h = (omega (arith, length-replicate {A = ℕ} size 0), refl)

pub retrieve_all-IsValid :
    {b : Buffer} → IsValid b → IsValid (retrieve_all b) × (contents (retrieve_all b) ≡ [])
unfolding retrieve_all
retrieve_all-IsValid {b} v = (omega (arith, length-replicate {A = ℕ} (length b.storage) 0), refl)
