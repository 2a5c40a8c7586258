-- ===== src/Http/Form/Tests.antt =====
-- Runs of the decoder, and the theorems at concrete bodies.
use piorun.Prelude.{◌≡◌, refl, [], ◌∷◌, ◌++◌, some, none, arith}
use piorun.Http.CString.{codes}
use piorun.Http.Text.{Text, same, lookup, insert}
use piorun.Http.Form.{
  conver_hex, digit_char, escape, plain, percent, decode, finish_with, finish,
  parse_from_urlencoded,
}
use piorun.Http.Form.RoundTrip.{insert_all, parse-print_form}

-- `%41`, which stands for an `A`.
escaped :
    parse_from_urlencoded (codes "k=%41") []
    ≡ some (codes "k=%" ++ (136 ∷ b'1' ∷ []), (codes "k", b'%' ∷ 136 ∷ b'1' ∷ []) ∷ [])
unfolding parse_from_urlencoded decode plain percent escape conver_hex digit_char finish finish_with
    lookup insert same
escaped = refl

-- An escape at the end of the body is written behind it.
cut_off : parse_from_urlencoded (codes "k=%4") [] ≡ none
unfolding parse_from_urlencoded decode plain
cut_off = refl

new_key : lookup (codes "c") (insert_all [] ((codes "a", codes "b d") ∷ [])) ≡ none
unfolding lookup insert same
new_key = refl

parse-print_form_example :
    (body' : Text) × (parse_from_urlencoded (codes "a=b+d&c=e") []
      ≡ some
          (body', insert (codes "c") (codes "e") (insert_all [] ((codes "a", codes "b d") ∷ []))))
parse-print_form_example =
    parse-print_form ((codes "a", codes "b d") ∷ []) (codes "c") b'e' [] [] (omega arith)
      (omega arith) (omega arith) new_key
