-- ===== src/Http/Form/Size.antt =====
-- How the decoder treats the body: it writes over it, and every escape stays three bytes long.
use piorun.Prelude.{
  ℕ, ◌+◌, ◌≡◌, refl, sym, ap, ◌∙◌, List, [], ◌∷◌, ◌++◌, Option, some, false, arith, length,
  length-append, ◌==◌, some_inj, >>=-eq-some,
}
use piorun.Http.Text.{Text}
use piorun.Http.Form.{Decoder, escape, plain, percent, decode, finish, parse_from_urlencoded}

pub decode-plain :
    (s : Decoder) (c : ℕ) (cs : Text)
    → (c == b'%') ≡ false
    → decode s (c ∷ cs) ≡ decode (plain s c) cs
unfolding decode
decode-plain s c [] e = rw e refl
decode-plain s c (a ∷ []) e = rw e refl
decode-plain s c (a ∷ b ∷ cs) e = rw e refl

length-plain : (s : Decoder) (c : ℕ) → length (plain s c).done ≡ length s.done + 1
unfolding plain
length-plain s c = ground (arith, length-append s.done (c ∷ []), length-append s.done (b' ' ∷ []))

length-percent : (s : Decoder) (a b : ℕ) → length (percent s a b).done ≡ length s.done + 3
unfolding percent
length-percent s a b = omega (
  arith,
  length-append s.done (b'%' ∷ []),
  length-append (s.done ++ (b'%' ∷ [])) ((escape a b).0 ∷ []),
  length-append ((s.done ++ (b'%' ∷ [])) ++ ((escape a b).0 ∷ [])) ((escape a b).1 ∷ []),
)

decode-size :
    (s t : Decoder) (body : Text)
    → decode s body ≡ some t
    → length t.done ≡ length s.done + length body
unfolding decode
decode-size s t [] e = ground arith
decode-size s t (c ∷ []) e = ground (arith, length-plain s c)
decode-size s t (c ∷ a ∷ []) e =
    ground (arith, length-plain s c, decode-size (plain s c) t (a ∷ []))
decode-size s t (c ∷ a ∷ b ∷ cs) e = ground (
  arith,
  length-plain s c,
  length-percent s a b,
  decode-size (plain s c) t (a ∷ b ∷ cs),
  decode-size (percent s a b) t cs,
)

-- What ParseFromUrlencoded_ leaves in body_ is as long as it was: no escape becomes the one byte that it
-- stands for.
pub parse_from_urlencoded-length :
    (body body' : Text) (post post' : List (Text × Text))
    → parse_from_urlencoded body post ≡ some (body', post')
    → length body' ≡ length body
unfolding parse_from_urlencoded
parse_from_urlencoded-length [] body' post post' e = ground arith
parse_from_urlencoded-length (c ∷ cs) body' post post' e =
    ap (λ (p : Text × List (Text × Text)). length p.0) (sym (some_inj _ _ step.2))
    ∙ omega (arith, decode-size first step.0 (c ∷ cs) step.1)
  where
    first : Decoder
    first = record { key = []; segment = []; post = post; done = [] }

    step :
        (s : Decoder) × (decode first (c ∷ cs) ≡ some s)
        × (◌≡◌ {A = Option (Text × List (Text × Text))}
            (some (s.done, (finish s).post))
            (some (body', post')))
    step =
        >>=-eq-some (decode first (c ∷ cs)) (λ s. some (s.done, (finish s).post)) (body', post') e
