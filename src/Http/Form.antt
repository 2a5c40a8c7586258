-- ===== src/Http/Form.antt =====
-- HttpRequest::ParseFromUrlencoded_ and ConverHex of src/piorun/http/httprequest.cpp: the decoder of
-- form bodies. `none` is a write behind the end of the body.
pub mod RoundTrip
pub mod Size
pub mod Tests
use piorun.Prelude.{
  ℕ, ◌+◌, ◌-◌, ◌*◌, ◌/◌, ◌%◌, List, [], ◌∷◌, ◌++◌, Option, none, some, Bool, true, false, ◌&&◌, leb,
  ltb, ◌==◌, if◌then◌else◌, ◌>>=◌,
}
use piorun.Http.Text.{Text, lookup, insert}

-- ConverHex, of a `char`: bytes from 128 on are negative, so it is a difference of two numbers.
pub conver_hex : ℕ → ℕ × ℕ
conver_hex ch =
    if leb b'A' ch && leb ch b'F'
    then (ch - b'A' + 10, 0)
    else if leb b'a' ch && leb ch b'f'
    then (ch - b'a' + 10, 0)
    else if ltb ch 128
    then (ch, 0)
    else (0, 256 - ch)

-- `num / 10 + '0'` and `num % 10 + '0'` as bytes, for num = p - q: C's division drops the fraction.
pub digit_char : (ℕ → ℕ) → ℕ → ℕ → ℕ
digit_char f p q =
    if leb q p then (f (p - q) + b'0') % 256 else (b'0' + 256 - f (q - p) % 256) % 256

-- What is put in place of the two bytes behind a '%'.
pub escape : ℕ → ℕ → ℕ × ℕ
unfolding conver_hex digit_char
escape hi lo =
    let p = (conver_hex hi).0 * 16 + (conver_hex lo).0 in
    let q = (conver_hex hi).1 * 16 + (conver_hex lo).1 in
    (digit_char (λ n. n / 10) p q, digit_char (λ n. n % 10) p q)

-- The loop at index i: the key, the bytes from j to i, what was put into post_, and the body up to i.
pub record Decoder : Type 0 where
  pub key : Text
  pub segment : Text
  pub post : List (Text × Text)
  pub done : Text

abbrev pub emit : Decoder → ℕ → Decoder
emit s c = record s { segment = s.segment ++ (c ∷ []); done = s.done ++ (c ∷ []) }

-- A turn of the loop at any byte but a '%'.
pub plain : Decoder → ℕ → Decoder
plain s c =
    if c == b'='
    then record s { key = s.segment; segment = []; done = s.done ++ (c ∷ []) }
    else if c == b'+'
    then emit s b' '
    else if c == b'&'
    then record s { post = insert s.key s.segment s.post; segment = []; done = s.done ++ (c ∷ []) }
    else emit s c

-- A turn at a '%', with the two bytes behind it.
pub percent : Decoder → ℕ → ℕ → Decoder
unfolding escape
percent s a b = emit (emit (emit s b'%') (escape a b).0) (escape a b).1

pub decode : Decoder → Text → Option Decoder
decode s [] = some s
decode s (c ∷ []) = if c == b'%' then none else some (plain s c)
decode s (c ∷ a ∷ []) = do let rest = decode (plain s c) (a ∷ []); if c == b'%' then none else rest
decode s (c ∷ a ∷ b ∷ cs) = do
  let escaped = decode (percent s a b) cs
  let rest = decode (plain s c) (a ∷ b ∷ cs)
  if c == b'%' then escaped else rest

-- The end: what is left is the value of the last key, unless the key is there or nothing is left.
pub finish_with : Option Text → Text → Decoder → Decoder
finish_with (some v) segment s = s
finish_with none [] s = s
finish_with none (c ∷ cs) s = record s { post = insert s.key (c ∷ cs) s.post }

pub finish : Decoder → Decoder
finish s = finish_with (lookup s.key s.post) s.segment s

-- ParseFromUrlencoded_, on body_ and post_.
unfoldable pub parse_from_urlencoded :
    Text → List (Text × Text) → Option (Text × List (Text × Text))
unfolding decode finish
parse_from_urlencoded [] post = some ([], post)
parse_from_urlencoded (c ∷ cs) post = do
  s ← decode (record { key = []; segment = []; post = post; done = [] }) (c ∷ cs)
  some (s.done, (finish s).post)
