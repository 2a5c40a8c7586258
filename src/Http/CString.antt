-- ===== src/Http/CString.antt =====
-- The functions of the C library that src/piorun/http/http_conn.cc calls, on byte arrays and offsets.
-- `none` is an access outside the array; a string without a NUL in the array is one too.
use Prim.Native.Char.{code}
use Prim.Native.String.{String}
use piorun.Prelude.{
  ℕ, zero, suc, ◌+◌, ◌-◌, ◌*◌, ◌/◌, ◌%◌, ◌^◌, min, List, [], ◌∷◌, ◌++◌, Option, none, some, Bool,
  true, false, ◌&&◌, ◌||◌, leb, ltb, ◌==◌, if◌then◌else◌, drop, ◌>>=◌,
}

-- The bytes of a literal.
abbrev pub codes : String → List ℕ
codes String.[] = []
codes (String.◌∷◌ c s) = code c ∷ codes s

abbrev pub until_nul : List ℕ → Option (List ℕ)
until_nul [] = none
until_nul (c ∷ cs) = do
  let rest = until_nul cs
  if c == 0 then some [] else (do s ← rest; some (c ∷ s))

-- The string at an offset.
abbrev pub c_str : List ℕ → ℕ → Option (List ℕ)
c_str buf p = until_nul (drop p buf)

abbrev pub is_blank : ℕ → Bool
is_blank c = (c == b' ') || (c == 9)

-- Where the first byte of a kind is, for strpbrk and strchr.
abbrev pub find_byte : (ℕ → Bool) → List ℕ → Option ℕ
find_byte p [] = none
find_byte p (c ∷ cs) = do
  let rest = find_byte p cs
  if p c then some 0 else (do i ← rest; some (suc i))

-- strspn(s, " \t").
abbrev pub span_blank : List ℕ → ℕ
span_blank [] = 0
span_blank (c ∷ cs) = do let rest = span_blank cs; if is_blank c then suc rest else 0

abbrev pub lower : ℕ → ℕ
lower c = if leb b'A' c && leb c b'Z' then c + 32 else c

-- strncasecmp(s, prefix, strlen(prefix)) == 0.
abbrev pub starts_nocase : List ℕ → List ℕ → Bool
starts_nocase [] s = true
starts_nocase (c ∷ cs) [] = false
starts_nocase (c ∷ cs) (d ∷ ds) = (lower c == lower d) && starts_nocase cs ds

-- strcasecmp(s, t) == 0.
abbrev pub same_nocase : List ℕ → List ℕ → Bool
same_nocase [] [] = true
same_nocase [] (d ∷ ds) = false
same_nocase (c ∷ cs) [] = false
same_nocase (c ∷ cs) (d ∷ ds) = (lower c == lower d) && same_nocase cs ds

-- The `%d` of a number below 2^31, with the digits' number for fuel.
abbrev pub digits : ℕ → ℕ → List ℕ
digits zero n = []
digits (suc k) n = do
  let rest = digits k (n / 10)
  if ltb n 10 then (n + 48) ∷ [] else rest ++ ((n % 10 + 48) ∷ [])

abbrev pub decimal : ℕ → List ℕ
decimal n = digits 10 n

abbrev is_space : ℕ → Bool
is_space c = (c == b' ') || (leb 9 c && leb c 13)

abbrev is_digit : ℕ → Bool
is_digit c = leb b'0' c && leb c b'9'

abbrev skip_space : List ℕ → List ℕ
skip_space [] = []
skip_space (c ∷ cs) = do let rest = skip_space cs; if is_space c then rest else c ∷ cs

-- The number that the leading digits stand for, behind those read before.
abbrev digits_value : ℕ → List ℕ → ℕ
digits_value n [] = n
digits_value n (c ∷ cs) = do
  let rest = digits_value (n * 10 + (c - b'0')) cs
  if is_digit c then rest else n

-- atol, which stops at the ends of `long`, and the conversion of its result to uint32_t.
abbrev signed_value : List ℕ → ℕ
signed_value [] = 0
signed_value (c ∷ cs) =
    if c == b'-'
    then (2 ^ 32 - min (digits_value 0 cs) (2 ^ 63) % 2 ^ 32) % 2 ^ 32
    else if c == b'+'
    then min (digits_value 0 cs) (2 ^ 63 - 1) % 2 ^ 32
    else min (digits_value 0 (c ∷ cs)) (2 ^ 63 - 1) % 2 ^ 32

abbrev pub atol_u32 : List ℕ → ℕ
atol_u32 s = signed_value (skip_space s)
