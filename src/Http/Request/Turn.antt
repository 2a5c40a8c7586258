-- ===== src/Http/Request/Turn.antt =====
-- One turn of parse's loop, at a line that is ended and at one that is not.
use piorun.Prelude.{
  ℕ, suc, ◌+◌, ◌≤◌, ◌<◌, ◌≡◌, refl, ap, ◌∙◌, inl, inr, List, [], ◌∷◌, ◌++◌, Option, some, true,
  false, arith, length, drop, length-append, take-append, drop-append_add, All, ◌==◌,
}
use piorun.Http.Text.{Text}
use piorun.Http.Buffer.{Buffer, contents, readable_bytes, retrieve_until}
use piorun.Http.Buffer.Valid.{IsValid, length-contents}
use piorun.Http.Buffer.Transfer.{retrieve_lem, retrieve_until-retrieve}
use piorun.Http.User.{Row, World}
use piorun.Http.Request.{
  Request, returns, goes_on, take_at, after_line, turn, is_finished, parse_loop,
}
use piorun.Http.Request.Line.{IsNot, find_crlf-append, find_crlf-none}

pub ==_positive : (n : ℕ) → 0 < n → (n == 0) ≡ false
==_positive n h = ground arith

==_nothing : (n : ℕ) → n ≡ 0 → (n == 0) ≡ true
==_nothing n h = ground arith

-- Behind `n` bytes of the contents, their rest is what is left.
retrieve_until_rest :
    {b : Buffer} (end n : ℕ) (rest : Text)
    → IsValid b
    → end ≡ b.read_pos + n
    → n ≤ length (contents b)
    → drop n (contents b) ≡ rest
    → (b' : Buffer) × (retrieve_until b end ≡ some b') × IsValid b' × (contents b' ≡ rest)
retrieve_until_rest {b} end n rest v at few e = elim (retrieve_lem {b = b} n v) [
  | inr (less, _) ↦ absurd (omega (arith, few, less))
  | inl (_, b', made, valid, text) ↦
      (b', retrieve_until-retrieve b end n at ∙ made, valid, text ∙ e)
]

module _ {D : Type 0} (mysql_query : ℕ → Text → D → Option (List Row) × D) where
  -- A turn at a line that is ended.
  pub turn_ended :
      (r r' : Request) {b : Buffer} (w w' : World D) (line rest : Text)
      → IsValid b
      → contents b ≡ line ++ (13 ∷ 10 ∷ rest)
      → All (IsNot 13) line
      → take_at mysql_query r.state (readable_bytes b) r line w ≡ some (true, r', w')
      → (b' : Buffer) × (turn mysql_query r b w ≡ some (goes_on r' b' w'))
        × IsValid b'
        × (contents b' ≡ rest)
  unfolding turn after_line
  turn_ended r r' {b} w w' line rest v text plain taken =
      let (b', made, valid, left) =
        retrieve_until_rest {b = b} (b.read_pos + length line + 2) (length line + 2) rest v
          (omega arith) (omega (arith, ap length text, length-append line (13 ∷ 10 ∷ rest)))
          (ap (λ t. drop (length line + 2) t) text
            ∙ drop-append_add line (13 ∷ 10 ∷ rest) (length line + 2) 2 refl) in
      (
        b',
        rw
            (
              text,
              find_crlf-append line rest plain,
              take-append line (13 ∷ 10 ∷ rest) (length line) refl,
              taken,
              made,
            )
            refl,
        valid,
        left,
      )

  -- A turn at the rest of the buffer, which no line end follows.
  pub turn_open :
      (r r' : Request) (b : Buffer) (w w' : World D)
      → All (IsNot 13) (contents b)
      → take_at mysql_query r.state (readable_bytes b) r (contents b) w ≡ some (true, r', w')
      → turn mysql_query r b w ≡ some (returns true r' b w')
  unfolding turn after_line
  turn_open r r' b w w' plain taken = rw (find_crlf-none (contents b) plain, taken) refl

  module _ (k : ℕ) (r : Request) {b : Buffer} (w : World D) (v : IsValid b) where
    -- The loop goes on by a turn.
    pub parse_loop-goes_on :
        (r' : Request) (b' : Buffer) (w' : World D)
        → 0 < length (contents b)
        → is_finished r.state ≡ false
        → turn mysql_query r b w ≡ some (goes_on r' b' w')
        → parse_loop mysql_query (suc k) r b w ≡ parse_loop mysql_query k r' b' w'
    unfolding parse_loop
    parse_loop-goes_on r' b' w' some_left ongoing e =
        rw (==_positive (readable_bytes b) (omega (arith, length-contents {b = b} v)), ongoing, e)
          refl

    pub parse_loop-returns :
        (r' : Request) (w' : World D)
        → 0 < length (contents b)
        → is_finished r.state ≡ false
        → turn mysql_query r b w ≡ some (returns true r' b w')
        → parse_loop mysql_query (suc k) r b w ≡ some (returns true r' b w')
    unfolding parse_loop
    parse_loop-returns r' w' some_left ongoing e =
        rw (==_positive (readable_bytes b) (omega (arith, length-contents {b = b} v)), ongoing, e)
          refl

    pub parse_loop-empty :
        contents b ≡ [] → parse_loop mysql_query (suc k) r b w ≡ some (returns true r b w)
    unfolding parse_loop
    parse_loop-empty e =
        rw (==_nothing (readable_bytes b) (omega (arith, length-contents {b = b} v, ap length e)))
          refl
