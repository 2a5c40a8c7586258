-- ===== src/Http/Buffer/Transfer.antt =====
-- WriteFd and Retrieve: what goes out in front of the contents.
use piorun.Prelude.{
  ℕ, ◌+◌, ◌-◌, ◌≤◌, ◌<◌, ◌≡◌, refl, sym, ap, subst, ◌∙◌, inl, inr, ◌⊎◌, List, ◌++◌, some, none,
  arith, length, take, drop, length-append, length-take, length-drop, take-append-drop,
  append_assoc, leb, Bool-cases, leb→le, le→leb, leb_false→lt,
}
use piorun.Http.Buffer.{
  Buffer, readable_bytes, contents, retrieve, retrieve_until, done, write_fd, add_size,
}
use piorun.Http.Buffer.Valid.{
  IsValid, Cut, Cut-IsValid, contents-Cut, IsValid-Cut, readable_bytes_lem, length-contents,
}

abbrev advanced : Buffer → ℕ → Buffer
advanced b len = record b { read_pos = add_size b.read_pos len }

-- Taking `len` bytes from the front.
module _ {b : Buffer} (len : ℕ) (v : IsValid b) (few : len ≤ readable_bytes b) where
  before : List ℕ
  before = take b.read_pos b.storage

  after : List ℕ
  after = drop (readable_bytes b) (drop b.read_pos b.storage)

  cut : Cut b before (contents b) after
  unfolding before after
  cut = IsValid-Cut {b = b} v

  Cut-advanced :
      Cut (advanced b len) (before ++ take len (contents b)) (drop len (contents b)) after
  Cut-advanced = record {
    whole =
        cut.whole
        ∙ ap (λ l. before ++ (l ++ after)) (sym (take-append-drop len (contents b)))
        ∙ ap (λ l. before ++ l) (append_assoc (take len (contents b)) (drop len (contents b)) after)
        ∙ sym (append_assoc before (take len (contents b)) (drop len (contents b) ++ after));
    reads = omega (
      arith,
      v.ordered,
      v.within,
      v.size,
      cut.reads,
      readable_bytes_lem {b = b} v,
      length-append before (take len (contents b)),
      length-take len (contents b),
      length-contents {b = b} v,
    );
    writes = omega (
      arith,
      cut.writes,
      length-append before (take len (contents b)),
      length-take len (contents b),
      length-drop len (contents b),
      length-contents {b = b} v,
    );
  }

  IsValid-advanced : IsValid (advanced b len) × (contents (advanced b len) ≡ drop len (contents b))
  IsValid-advanced = (Cut-IsValid Cut-advanced v.size, contents-Cut Cut-advanced v.size)

-- Retrieve succeeds exactly when there are as many bytes to read; it drops them from the front of
-- the contents, and the buffer stays valid.
pub retrieve_lem :
    {b : Buffer} (len : ℕ)
    → IsValid b
    → ((len ≤ length (contents b))
        × (b' : Buffer) × (retrieve b len ≡ some b')
        × IsValid b'
        × (contents b' ≡ drop len (contents b)))
      ⊎ ((length (contents b) < len) × (retrieve b len ≡ none))
unfolding retrieve
retrieve_lem {b} len v = elim (Bool-cases (leb len (readable_bytes b))) [
  | inl e ↦
      let (valid, text) = IsValid-advanced {b = b} len v (leb→le len (readable_bytes b) e) in
      inl (
        omega (arith, length-contents {b = b} v, leb→le len (readable_bytes b) e),
        advanced b len,
        rw e refl,
        valid,
        text,
      )
  | inr e ↦
      inr
        (omega (arith, length-contents {b = b} v, leb_false→lt len (readable_bytes b) e), rw e refl)
]

-- WriteFd, when the kernel takes no more bytes than it was given: those are the first of the
-- contents, and the others stay to be sent.
pub write_fd_done :
    {b : Buffer} (len : ℕ)
    → IsValid b
    → len ≤ length (contents b)
    → let (b', result) = write_fd b (done len) in
      (result ≡ done len) × IsValid b' × (take len (contents b) ++ contents b' ≡ contents b)
unfolding write_fd
write_fd_done {b} len v few =
    let (valid, text) = IsValid-advanced {b = b} len v (omega (arith, length-contents {b = b} v)) in
    (refl, valid, rw text (take-append-drop len (contents b)))

pub write_fd_rest :
    {b : Buffer} (len : ℕ)
    → IsValid b
    → len ≤ length (contents b)
    → contents (write_fd b (done len)).0 ≡ drop len (contents b)
unfolding write_fd
write_fd_rest {b} len v few =
    (IsValid-advanced {b = b} len v (omega (arith, length-contents {b = b} v))).1

-- A bound that is `len` bytes from Peek().
pub retrieve_until-retrieve :
    (b : Buffer) (end len : ℕ) → end ≡ b.read_pos + len → retrieve_until b end ≡ retrieve b len
unfolding retrieve_until
retrieve_until-retrieve b end len e = rw (le→leb b.read_pos end (omega arith), difference) refl
  where
    difference : end - b.read_pos ≡ len
    difference = omega arith

-- Retrieve moves the position to the right by what it takes.
pub retrieve_moves :
    {b : Buffer} (len : ℕ)
    → IsValid b
    → len ≤ length (contents b)
    → let b' : Buffer = record b { read_pos = b.read_pos + len } in
      (retrieve b len ≡ some b') × IsValid b' × (contents b' ≡ drop len (contents b))
unfolding retrieve
retrieve_moves {b} len v few =
    let small : len ≤ readable_bytes b = omega (arith, few, length-contents {b = b} v) in
    let at : add_size b.read_pos len ≡ b.read_pos + len =
      omega (arith, small, v.ordered, v.within, v.size, readable_bytes_lem {b = b} v) in
    let (valid, text) = IsValid-advanced {b = b} len v small in
    (
      rw (le→leb len (readable_bytes b) small, at) refl,
      subst (λ p. IsValid (record b { read_pos = p })) at valid,
      subst (λ p. contents (record b { read_pos = p }) ≡ drop len (contents b)) at text,
    )
