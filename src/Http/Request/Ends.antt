-- ===== src/Http/Request/Ends.antt =====
-- The loop of parse comes to its end.
use piorun.Prelude.{
  ℕ, zero, suc, ◌+◌, ◌<◌, ◌≡◌, ◌≢◌, refl, sym, ap, ◌∙◌, subst, inl, inr, ◌⊎◌, List, Option, none,
  some, Bool, true, false, arith, length, length-drop, Bool-cases, Option-cases, some_inj,
  >>=-eq-some, ◌||◌, ◌==◌,
}
use piorun.Http.Text.{Text}
use piorun.Http.Buffer.{Buffer, contents, readable_bytes, retrieve_until}
use piorun.Http.Buffer.Valid.{IsValid, length-contents}
use piorun.Http.Buffer.Transfer.{retrieve_lem, retrieve_until-retrieve}
use piorun.Http.User.{Row, World}
use piorun.Http.Request.{
  Request, Result, returns, goes_on, find_crlf, line_of, take_at, after_line, turn, is_finished,
  parse_loop, parse,
}

none_some : {b : Buffer} → ◌≢◌ {A = Option Buffer} none (some b)
none_some e = cc

-- A buffer after a turn.
pub record Shrinks (b b' : Buffer) : Type 0 where
  pub valid : IsValid b'
  pub less : length (contents b') < length (contents b)

retrieve_until-Shrinks :
    {b b' : Buffer} (end len : ℕ)
    → IsValid b
    → end ≡ b.read_pos + len + 2
    → retrieve_until b end ≡ some b'
    → Shrinks b b'
retrieve_until-Shrinks {b} {b'} end len v at e = elim (retrieve_lem {b = b} (len + 2) v) [
  | inr (_, fails) ↦
      absurd
        (none_some (sym fails ∙ sym (retrieve_until-retrieve b end (len + 2) (omega arith)) ∙ e))
  | inl (few, b'', made, valid, text) ↦
      (let same : b'' ≡ b' =
          some_inj b'' b'
            (sym made ∙ sym (retrieve_until-retrieve b end (len + 2) (omega arith)) ∙ e) in
        subst (Shrinks b) same (record {
          valid = valid;
          less = omega (arith, few, ap length text, length-drop (len + 2) (contents b));
        }))
]

module _ {D : Type 0} (mysql_query : ℕ → Text → D → Option (List Row) × D) where
  abbrev buffer_of : Result D → Buffer
  buffer_of (returns ok r b w) = b
  buffer_of (goes_on r b w) = b

  returned :
      {ok : Bool} {r r' : Request} {b b' : Buffer} {w w' : World D}
      → ◌≢◌ {A = Option (Result D)} (some (returns ok r b w)) (some (goes_on r' b' w'))
  returned e = cc

  after_line-Shrinks :
      (end : Option ℕ) (s : Bool × Request × World D) (r' : Request) (b b' : Buffer) (w' : World D)
      → IsValid b
      → after_line mysql_query end s b ≡ some (goes_on r' b' w')
      → Shrinks b b'
  unfolding after_line
  after_line-Shrinks end (false, r, w) r' b b' w' v e = absurd (returned e)
  after_line-Shrinks none (true, r, w) r' b b' w' v e = absurd (returned e)
  after_line-Shrinks (some i) (true, r, w) r' b b' w' v e =
      let (b'', made, same) =
        >>=-eq-some (retrieve_until b (b.read_pos + i + 2)) (λ x. some (goes_on r x w))
          (goes_on r' b' w') e in
      subst (Shrinks b) (ap buffer_of (some_inj _ _ same))
        (retrieve_until-Shrinks {b = b} {b' = b''} (b.read_pos + i + 2) i v refl made)

  turn-Shrinks :
      (r r' : Request) (b b' : Buffer) (w w' : World D)
      → IsValid b
      → turn mysql_query r b w ≡ some (goes_on r' b' w')
      → Shrinks b b'
  unfolding turn
  turn-Shrinks r r' b b' w w' v e =
      let (s, _, f) =
        >>=-eq-some
          (take_at mysql_query r.state (readable_bytes b) r
            (line_of (find_crlf (contents b)) (contents b)) w)
          (λ s. after_line mysql_query (find_crlf (contents b)) s b) (goes_on r' b' w') e in
      after_line-Shrinks (find_crlf (contents b)) s r' b b' w' v f

  -- A result of parse, or the end of the program.
  pub Ends : Option (Result D) → Type 0
  Ends o =
      (o ≡ none)
      ⊎ ((ok : Bool) × (r' : Request) × (b' : Buffer) × (w' : World D) × (o
            ≡ some (returns ok r' b' w')))

  parse_loop-Ends :
      (k : ℕ) (r : Request) (b : Buffer) (w : World D)
      → IsValid b
      → length (contents b) < k
      → Ends (parse_loop mysql_query k r b w)
  unfolding Ends parse_loop
  parse_loop-Ends zero r b w v h = absurd (omega arith)
  parse_loop-Ends (suc k) r b w v h =
      elim (Bool-cases ((readable_bytes b == 0) || is_finished r.state)) [
        | inl done ↦ inr (true, r, b, w, rw done refl)
        | inr more ↦ elim (Option-cases (turn mysql_query r b w)) [
          | inl fault ↦ inl (rw (more, fault) refl)
          | inr (returns ok r' b' w', e) ↦ inr (ok, r', b', w', rw (more, e) refl)
          | inr (goes_on r' b' w', e) ↦
              (let s = turn-Shrinks r r' b b' w w' v e in
                rw (more, e) (parse_loop-Ends k r' b' w' s.valid (omega (arith, s.less))))
        ]
      ]

  -- On a valid buffer, parse comes to its end from any state of the request and whatever the buffer
  -- holds: it returns, or an assertion, a wait for a connection, or an escape at the end of a body
  -- stops it. The fuel of the loop, the number of readable bytes and one, is never used up.
  pub parse-Ends :
      (r : Request) (b : Buffer) (w : World D) → IsValid b → Ends (parse mysql_query r b w)
  unfolding parse Ends
  parse-Ends r b w v = elim (Bool-cases (readable_bytes b == 0)) [
    | inl empty ↦ inr (false, r, b, w, rw empty refl)
    | inr some_left ↦ rw some_left (
        unfold Ends in
        parse_loop-Ends (readable_bytes b + 1) r b w v (omega (arith, length-contents {b = b} v)))
  ]
