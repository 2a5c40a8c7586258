-- ===== src/Http/Request/Headers.antt =====
-- The headers and the body of a request are read back.
use piorun.Prelude.{
  ℕ, zero, suc, ◌+◌, ◌≤◌, ◌<◌, ◌≡◌, refl, sym, ap, ◌∙◌, subst, inl, inr, ◌⊎◌, List, [], ◌∷◌, Option,
  some, true, false, arith, length, length-append, All, All-append, lt→leb_false, le→leb,
}
use piorun.Http.CString.{codes}
use piorun.Http.Text.{Text, same, insert}
use piorun.Http.Buffer.{Buffer, contents, readable_bytes}
use piorun.Http.Buffer.Valid.{IsValid, length-contents}
use piorun.Http.User.{Row, World}
use piorun.Http.Request.{
  in_headers, in_body, finished, Request, Result, returns, take_at, parse_header, set_header,
  parse_body, parse_post, parse_loop,
}
use piorun.Http.Request.Line.{
  IsNot, request_line, header_line, match_header_lem, match_header_empty,
}
use piorun.Http.Request.Turn.{
  turn_ended, turn_open, parse_loop-goes_on, parse_loop-returns, parse_loop-empty,
}
use piorun.Http.Request.Print.{
  IsWord, IsHeader, print_headers, header_map, line_read, with_header, with_body,
}

header_line-plain : (h : Text × Text) → IsHeader h → All (IsNot 13) (header_line h)
header_line-plain (key, value) h =
    All-append (IsNot 13) key (b':' ∷ b' ' ∷ value) h.0.1 (omega arith, (omega arith, h.1.1))

pub request_line-plain :
    (method path version : Text)
    → IsWord method
    → IsWord path
    → IsWord version
    → All (IsNot 13) (request_line method path version)
request_line-plain method path version m p v = All-append (IsNot 13) method _ m.1 (
  omega arith,
  All-append (IsNot 13) path _ p.1
      (omega arith, All-append (IsNot 13) (codes "HTTP/") version (omega arith) v.1),
)

empty-or-not : (s : Text) → (s ≡ []) ⊎ (0 < length s)
empty-or-not [] = inl refl
empty-or-not (c ∷ cs) = inr (omega arith)

read_header :
    (r : Request) (key value : Text)
    → IsHeader (key, value)
    → parse_header r (header_line (key, value)) ≡ record r { header = insert key value r.header }
unfolding parse_header set_header
read_header r key value h = rw (match_header_lem key value h.0.0 h.1.0 h.1.1) refl

end_headers : (r : Request) → parse_header r [] ≡ record r { state = in_body }
unfolding parse_header set_header
end_headers r = rw match_header_empty refl

module _ {D : Type 0} (mysql_query : ℕ → Text → D → Option (List Row) × D) (w : World D) where
  -- What parse returns: the request, with the body still in the buffer.
  unfoldable pub Reads : Option (Result D) → Request → Text → Type 0
  Reads o r left =
      (b' : Buffer) × (o ≡ some (returns true r b' w)) × IsValid b' × (contents b' ≡ left)

  take_header :
      (r : Request) (readable : ℕ) (key value : Text) (m : List (Text × Text))
      → IsHeader (key, value)
      → 2 < readable
      → take_at mysql_query in_headers readable (with_header r m) (header_line (key, value)) w
        ≡ some (true, with_header r (insert key value m), w)
  unfolding take_at
  take_header r readable key value m h large =
      rw (read_header (with_header r m) key value h, lt→leb_false readable 2 large) refl

  take_empty :
      (r : Request) (readable : ℕ) (m : List (Text × Text))
      → 2 < readable
      → take_at mysql_query in_headers readable (with_header r m) [] w
        ≡ some (true, record r { state = in_body; header = m }, w)
  unfolding take_at
  take_empty r readable m large =
      rw (end_headers (with_header r m), lt→leb_false readable 2 large) refl

  take_last :
      (r : Request) (readable : ℕ) (m : List (Text × Text))
      → readable ≤ 2
      → take_at mysql_query in_headers readable (with_header r m) [] w
        ≡ some (true, record r { state = finished; header = m }, w)
  unfolding take_at
  take_last r readable m small = rw (end_headers (with_header r m), le→leb readable 2 small) refl

  take_body :
      (r : Request) (readable : ℕ) (body : Text) (m : List (Text × Text))
      → same r.method (codes "POST") ≡ false
      → take_at mysql_query in_body readable (record r { state = in_body; header = m }) body w
        ≡ some (true, with_body r body m, w)
  unfolding take_at parse_body parse_post
  take_body r readable body m other = rw other refl

  -- The rest of a request, from its headers on; `r` has no body yet.
  module _ (method path version body : Text) (other : same method (codes "POST") ≡ false)
      (plain : All (IsNot 13) body) where
    abbrev r : Request
    r = line_read method path version

    read_body :
        (k : ℕ) (m : List (Text × Text)) {b : Buffer}
        → IsValid b
        → contents b ≡ body
        → 0 < length body
        → length body < k
        → Reads
            (parse_loop mysql_query k (record r { state = in_body; header = m }) b w)
            (with_body r body m)
            body
    unfolding Reads
    read_body zero m v e some_left h = absurd (omega arith)
    read_body (suc k) m {b} v e some_left h = (
      b,
      parse_loop-returns mysql_query k (record r { state = in_body; header = m }) {b = b} w v
          (with_body r body m) w (omega (arith, ap length e)) refl
          (turn_open mysql_query (record r { state = in_body; header = m }) (with_body r body m) b w
            w (subst (All (IsNot 13)) (sym e) plain)
            (ap
                (λ t.
                  take_at mysql_query in_body (readable_bytes b)
                    (record r { state = in_body; header = m }) t w)
                e
              ∙ take_body r (readable_bytes b) body m other)),
      v,
      e,
    )

    -- The empty line behind the headers, with a body behind it or none.
    read_end :
        (k : ℕ) (m : List (Text × Text)) {b : Buffer}
        → IsValid b
        → contents b ≡ 13 ∷ 10 ∷ body
        → length body + 2 < k
        → Reads (parse_loop mysql_query k (with_header r m) b w) (with_body r body m) body
    unfolding Reads
    read_end zero m v e h = absurd (omega arith)
    read_end (suc zero) m v e h = absurd (omega arith)
    read_end (suc (suc k)) m {b} v e h = elim (empty-or-not body) [
      | inl empty ↦
          (let (b', made, valid, left) =
              turn_ended mysql_query (with_header r m) (record r { state = finished; header = m })
                {b = b} w w [] body v e tt
                (take_last r (readable_bytes b) m
                  (omega (arith, length-contents {b = b} v, ap length e, ap length empty))) in
            (
              b',
              parse_loop-goes_on mysql_query (suc k) (with_header r m) {b = b} w v
                    (record r { state = finished; header = m }) b' w (omega (arith, ap length e))
                    refl made
                  ∙ parse_loop-empty mysql_query k (record r { state = finished; header = m })
                      {b = b'} w valid (left ∙ empty)
                  ∙ rw empty refl,
              valid,
              left,
            ))
      | inr filled ↦
          (let (b', made, valid, left) =
              turn_ended mysql_query (with_header r m) (record r { state = in_body; header = m })
                {b = b} w w [] body v e tt
                (take_empty r (readable_bytes b) m
                  (omega (arith, length-contents {b = b} v, ap length e))) in
            let (b'', read, valid', left') =
              read_body (suc k) m {b = b'} valid left filled (omega arith) in
            (
              b'',
              parse_loop-goes_on mysql_query (suc k) (with_header r m) {b = b} w v
                    (record r { state = in_body; header = m }) b' w (omega (arith, ap length e))
                    refl made
                  ∙ read,
              valid',
              left',
            ))
    ]

    pub read_headers :
        (hs : List (Text × Text)) (k : ℕ) (m : List (Text × Text)) {b : Buffer}
        → All IsHeader hs
        → IsValid b
        → contents b ≡ print_headers hs body
        → length (print_headers hs body) < k
        → Reads
            (parse_loop mysql_query k (with_header r m) b w)
            (with_body r body (header_map m hs))
            body
    unfolding Reads
    read_headers hs zero m good v e h = absurd (omega arith)
    read_headers [] (suc k) m good v e h = read_end (suc k) m v e (omega arith)
    read_headers ((key, value) ∷ hs) (suc k) m {b} good v e h =
        let size = length-append (header_line (key, value)) (13 ∷ 10 ∷ print_headers hs body) in
        let (b', made, valid, left) =
          turn_ended mysql_query (with_header r m) (with_header r (insert key value m)) {b = b} w w
            (header_line (key, value)) (print_headers hs body) v e
            (header_line-plain (key, value) good.0)
            (take_header r (readable_bytes b) key value m good.0 (
              omega (
                arith,
                length-contents {b = b} v,
                ap length e,
                size,
                length-append key (b':' ∷ b' ' ∷ value),
              ))) in
        let (b'', read, valid', left') =
          read_headers hs k (insert key value m) {b = b'} good.1 valid left (omega (arith, size)) in
        (
          b'',
          parse_loop-goes_on mysql_query k (with_header r m) {b = b} w v
                (with_header r (insert key value m)) b' w (omega (arith, ap length e, size)) refl
                made
              ∙ read,
          valid',
          left',
        )
