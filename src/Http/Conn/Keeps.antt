-- ===== src/Http/Conn/Keeps.antt =====
-- What the functions that read a line leave alone: checked_idx_ and read_idx_.
use piorun.Prelude.{
  ℕ, ◌+◌, ◌≡◌, refl, ◌∙◌, List, [], ◌∷◌, ◌++◌, Option, none, some, Bool, true, false, length, ◌>>=◌,
  ◌==◌, drop, if◌then◌else◌,
}
use piorun.Http.Buffer.{write_at}
use piorun.Http.CString.{
  codes, c_str, find_byte, is_blank, span_blank, same_nocase, starts_nocase, atol_u32,
}
use piorun.Http.Conn.{Conn, HttpCode, put, get, post}
use piorun.Http.Conn.Request.{
  Parses, check_path, check_url, strip_scheme, parse_url, split_version, split_method,
  parse_version, parse_method, parse_request_line, parse_content, parse_headers, header_line,
  header_field,
}

-- Wherever checked_idx_ and read_idx_ are the same before, they are afterwards.
pub record Same (c c' : Conn) : Type 0 where
  pub checked : c'.checked_idx ≡ c.checked_idx
  pub read : c'.read_idx ≡ c.read_idx

unfoldable pub Keeps : Conn → Parses → Type 0
Keeps c none = Unit
Keeps c (some (code, c')) = Same c c'

module _ (c : Conn) where
  Keeps-bind {ℓ} :
      {A : Type ℓ} (o : Option A) (f : A → Parses) → ((a : A) → Keeps c (f a)) → Keeps c (o >>= f)
  unfolding Keeps
  Keeps-bind none f h = tt
  Keeps-bind (some a) f h = h a

  Keeps-some : (code : HttpCode) (c' : Conn) → Same c c' → Keeps c (some (code, c'))
  unfolding Keeps
  Keeps-some code c' s = s

  Keeps-if : (b : Bool) (x y : Parses) → Keeps c x → Keeps c y → Keeps c (if b then x else y)
  Keeps-if true x y h k = h
  Keeps-if false x y h k = k

  -- A step on a connection that is the same as `c` but for other fields.
  module _ (d : Conn) (s : Same c d) where
    Keeps-check_path : (p : ℕ) (text : List ℕ) → Keeps c (check_path d p text)
    unfolding check_path Keeps
    Keeps-check_path p [] = s
    Keeps-check_path p (ch ∷ rest) =
        Keeps-if (ch == b'/') _ _
          (Keeps-bind
            (if length (ch ∷ rest) == 1
              then write_at d.read_buf (p + 1) (codes "judge.html" ++ (0 ∷ []))
              else some d.read_buf)
            _ λ buf. record { checked = s.checked; read = s.read })
          s

    Keeps-check_url : (q : Option ℕ) → Keeps c (check_url d q)
    unfolding check_url Keeps
    Keeps-check_url none = s
    Keeps-check_url (some p) = Keeps-bind (c_str d.read_buf p) _ (Keeps-check_path p)

    -- Other fields of the connection are set.
    same : (d' : Conn) → d'.checked_idx ≡ d.checked_idx → d'.read_idx ≡ d.read_idx → Same c d'
    same d' h k = record { checked = h ∙ s.checked; read = k ∙ s.read }

    pub Keeps-parse_content : (text : ℕ) → Keeps c (parse_content d text)
    unfolding parse_content
    Keeps-parse_content text =
        Keeps-if _ _ _ (Keeps-bind _ _ λ buf. Keeps-some _ _ (same _ refl refl)) (Keeps-some _ _ s)

    Same-fields :
        (a b e f : Bool) (n : ℕ) (h : Option ℕ)
        → Same c (
            if a
            then (if b then record d { linger = true } else d)
            else if e
            then record d { content_length = n }
            else if f
            then record d { host = h }
            else d)
    Same-fields true true e f n h = same _ refl refl
    Same-fields true false e f n h = s
    Same-fields false b true f n h = same _ refl refl
    Same-fields false b false true n h = same _ refl refl
    Same-fields false b false false n h = s

    Same-header_field : (text : ℕ) (line : List ℕ) → Same c (header_field d text line)
    unfolding header_field
    Same-header_field text line =
        Same-fields (starts_nocase (codes "Connection:") line)
          (same_nocase (drop (span_blank (drop 11 line)) (drop 11 line)) (codes "keep-alive"))
          (starts_nocase (codes "Content-length:") line) (starts_nocase (codes "Host:") line)
          (atol_u32 (drop (span_blank (drop 15 line)) (drop 15 line)))
          (some (text + 5 + span_blank (drop 5 line)))

    Keeps-header_line : (text : ℕ) (line : List ℕ) → Keeps c (header_line d text line)
    unfolding header_line
    Keeps-header_line text [] =
        Keeps-if _ _ _ (Keeps-some _ _ s) (Keeps-some _ _ (same _ refl refl))
    Keeps-header_line text (ch ∷ rest) = Keeps-some _ _ (Same-header_field text (ch ∷ rest))

    pub Keeps-parse_headers : (text : ℕ) → Keeps c (parse_headers d text)
    unfolding parse_headers
    Keeps-parse_headers text = Keeps-bind _ _ (Keeps-header_line text)

  Keeps-parse_url : (d : Conn) (url : ℕ) → Same c d → Keeps c (parse_url d url)
  unfolding parse_url
  Keeps-parse_url d url s = Keeps-bind (strip_scheme d.read_buf (codes "http://") (some url)) _ λ p.
      Keeps-bind (strip_scheme d.read_buf (codes "https://") p) _
        λ q. Keeps-check_url (record d { url = q }) (same d s _ refl refl) q

  Keeps-split_version :
      (d : Conn) (url : ℕ) (o : Option ℕ) → Same c d → Keeps c (split_version d url o)
  unfolding split_version
  Keeps-split_version d url none s = Keeps-some _ _ (same d s _ refl refl)
  Keeps-split_version d url (some i) s = Keeps-bind (put d.read_buf (url + i) 0) _ λ buf.
      Keeps-bind (c_str buf (url + i + 1)) _ λ v.
        Keeps-bind (c_str buf (url + i + 1 + span_blank v)) _ λ w.
          Keeps-if (same_nocase w (codes "HTTP/1.1")) _ _
            (Keeps-parse_url _ url (same d s _ refl refl)) (Keeps-some _ _ (same d s _ refl refl))

  Keeps-parse_version : (d : Conn) (p : ℕ) → Same c d → Keeps c (parse_version d p)
  unfolding parse_version
  Keeps-parse_version d p s = Keeps-bind (c_str d.read_buf p) _ λ t.
      Keeps-bind (c_str d.read_buf (p + span_blank t)) _
        λ u. Keeps-split_version d (p + span_blank t) (find_byte is_blank u) s

  Keeps-parse_method : (d : Conn) (text p : ℕ) → Same c d → Keeps c (parse_method d text p)
  unfolding parse_method
  Keeps-parse_method d text p s = Keeps-bind (c_str d.read_buf text) _ λ m.
      Keeps-if (same_nocase m (codes "GET")) _ _
        (Keeps-parse_version (record d { method = get }) p (same d s _ refl refl))
        (Keeps-if (same_nocase m (codes "POST")) _ _
          (Keeps-parse_version (record d { method = post }) p (same d s _ refl refl))
          (Keeps-some _ _ s))

  Keeps-split_method :
      (d : Conn) (text : ℕ) (o : Option ℕ) → Same c d → Keeps c (split_method d text o)
  unfolding split_method
  Keeps-split_method d text none s = Keeps-some _ _ (same d s _ refl refl)
  Keeps-split_method d text (some i) s = Keeps-bind (put d.read_buf (text + i) 0) _ λ buf.
      Keeps-parse_method (record d { read_buf = buf; url = some (text + i + 1) }) text
        (text + i + 1) (same d s _ refl refl)

  pub Keeps-parse_request_line :
      (d : Conn) (text : ℕ) → Same c d → Keeps c (parse_request_line d text)
  unfolding parse_request_line
  Keeps-parse_request_line d text s =
      Keeps-bind (c_str d.read_buf text) _ λ t. Keeps-split_method d text (find_byte is_blank t) s
