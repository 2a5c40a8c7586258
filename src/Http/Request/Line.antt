-- ===== src/Http/Request/Line.antt =====
-- The patterns of a request line and of a header, and the end of a line.
use piorun.Prelude.{
  ℕ, ◌≡◌, ◌≢◌, refl, [], ◌∷◌, ◌++◌, some, none, false, arith, length, All, ◌==◌, ==_refl,
}
use piorun.Http.CString.{codes}
use piorun.Http.Text.{Text, has, cut_at, strip}
use piorun.Http.Request.{match_request_line, match_header, find_crlf}

-- A byte that is not `c`.
abbrev pub IsNot : ℕ → ℕ → Type 0
IsNot c x = x ≢ c

==_other : (c x : ℕ) → IsNot c x → (x == c) ≡ false
==_other c x h = ground arith

cut_at-append :
    (c : ℕ) (xs ys : Text) → All (IsNot c) xs → cut_at c (xs ++ (c ∷ ys)) ≡ some (xs, ys)
cut_at-append c [] ys h = rw (==_refl c) refl
cut_at-append c (x ∷ xs) ys h = rw (==_other c x h.0, cut_at-append c xs ys h.1) refl

strip-append : (p s : Text) → strip p (p ++ s) ≡ some s
strip-append [] s = refl
strip-append (c ∷ cs) s = rw (==_refl c, strip-append cs s) refl

has-none : (c : ℕ) (s : Text) → All (IsNot c) s → has c s ≡ false
has-none c [] h = refl
has-none c (x ∷ xs) h = rw (==_other c x h.0, has-none c xs h.1) refl

-- A request line and a header, as a client writes them.
abbrev pub request_line : Text → Text → Text → Text
request_line method path version = method ++ (b' ' ∷ (path ++ (b' ' ∷ (codes "HTTP/" ++ version))))

abbrev pub header_line : Text × Text → Text
header_line (key, value) = key ++ (b':' ∷ b' ' ∷ value)

pub match_request_line_lem :
    (method path version : Text)
    → All (IsNot b' ') method
    → All (IsNot b' ') path
    → All (IsNot b' ') version
    → match_request_line (request_line method path version) ≡ some (method, path, version)
unfolding match_request_line
match_request_line_lem method path version m p v =
    rw
      (
        cut_at-append b' ' method (path ++ (b' ' ∷ (codes "HTTP/" ++ version))) m,
        cut_at-append b' ' path (codes "HTTP/" ++ version) p,
        has-none b' ' version v,
      )
      refl

pub match_header_lem :
    (key value : Text)
    → All (IsNot b':') key
    → All (IsNot 10) value
    → All (IsNot 13) value
    → match_header (header_line (key, value)) ≡ some (key, value)
unfolding match_header
match_header_lem key value k n r =
    rw (cut_at-append b':' key (b' ' ∷ value) k, has-none 10 value n, has-none 13 value r) refl

pub match_header_empty : match_header [] ≡ none
unfolding match_header
match_header_empty = refl

pub find_crlf-append :
    (line rest : Text)
    → All (IsNot 13) line
    → find_crlf (line ++ (13 ∷ 10 ∷ rest)) ≡ some (length line)
find_crlf-append [] rest h = refl
find_crlf-append (x ∷ line) rest h = rw (==_other 13 x h.0, find_crlf-append line rest h.1) refl

pub find_crlf-none : (line : Text) → All (IsNot 13) line → find_crlf line ≡ none
find_crlf-none [] h = refl
find_crlf-none (x ∷ line) h = rw (==_other 13 x h.0, find_crlf-none line h.1) refl
