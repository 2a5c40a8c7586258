-- ===== src/Http/Form/RoundTrip.antt =====
-- A form without escapes, as a browser sends it, is read back.
use piorun.Prelude.{
  ℕ, ◌≡◌, ◌≢◌, refl, sym, ap, ◌∙◌, List, [], ◌∷◌, ◌++◌, Option, some, none, false, arith, All, ◌==◌,
  if◌then◌else◌, append_assoc, append-nil, ◌>>=◌,
}
use piorun.Http.Text.{Text, lookup, insert}
use piorun.Http.Form.{Decoder, emit, plain, decode, finish_with, finish, parse_from_urlencoded}
use piorun.Http.Form.Size.{decode-plain}

-- A byte that stands for itself, or is a blank.
abbrev pub IsField : ℕ → Type 0
IsField x = ((x ≢ b'=') × (x ≢ b'&')) × ((x ≢ b'%') × (x ≢ b'+'))

abbrev to_plus : ℕ → ℕ
to_plus c = if c == b' ' then b'+' else c

abbrev pub encode : Text → Text
encode [] = []
encode (c ∷ cs) = to_plus c ∷ encode cs

-- `a=b&c=d`, with the last pair by itself.
abbrev pub print_form : List (Text × Text) → Text → Text → Text
print_form [] key value = encode key ++ (b'=' ∷ encode value)
print_form ((k, v) ∷ ps) key value =
    encode k ++ (b'=' ∷ (encode v ++ (b'&' ∷ print_form ps key value)))

abbrev pub insert_all : List (Text × Text) → List (Text × Text) → List (Text × Text)
insert_all post [] = post
insert_all post ((k, v) ∷ ps) = insert_all (insert k v post) ps

abbrev pub IsPair : Text × Text → Type 0
IsPair (k, v) = All IsField k × All IsField v

plain-field : (s : Decoder) (c : ℕ) → IsField c → plain s (to_plus c) ≡ emit s c
unfolding plain
plain-field s c h = ground arith

field-percent : (c : ℕ) → IsField c → (to_plus c == b'%') ≡ false
field-percent c h = ground arith

abbrev emit_all : Decoder → Text → Decoder
emit_all s text = record s { segment = s.segment ++ text; done = s.done ++ text }

decode-encode :
    (s : Decoder) (text rest : Text)
    → All IsField text
    → decode s (encode text ++ rest) ≡ decode (emit_all s text) rest
decode-encode s [] rest h = rw (append-nil s.segment, append-nil s.done) refl
decode-encode s (c ∷ cs) rest h =
    decode-plain s (to_plus c) (encode cs ++ rest) (field-percent c h.0)
    ∙ ap (λ t. decode t (encode cs ++ rest)) (plain-field s c h.0)
    ∙ decode-encode (emit s c) cs rest h.1
    ∙ rw (append_assoc s.segment (c ∷ []) cs, append_assoc s.done (c ∷ []) cs) refl

plain_equals :
    (s : Decoder)
    → plain s b'=' ≡ record s { key = s.segment; segment = []; done = s.done ++ (b'=' ∷ []) }
unfolding plain
plain_equals s = refl

plain_and :
    (s : Decoder)
    → plain s b'&' ≡ record s {
      post = insert s.key s.segment s.post;
      segment = [];
      done = s.done ++ (b'&' ∷ []);
    }
unfolding plain
plain_and s = refl

-- The decoder in front of a key.
abbrev before_key : Text → List (Text × Text) → Text → Decoder
before_key key post done = record { key = key; segment = []; post = post; done = done }

decode-pair :
    (key done : Text) (post : List (Text × Text)) (k v rest : Text)
    → All IsField k
    → All IsField v
    → (done' : Text) × (decode (before_key key post done) (encode k ++ (b'=' ∷ (encode v ++ rest)))
        ≡ decode (record { key = k; segment = v; post = post; done = done' }) rest)
decode-pair key done post k v rest h g = (
  ((done ++ k) ++ (b'=' ∷ [])) ++ v,
  decode-encode (before_key key post done) k (b'=' ∷ (encode v ++ rest)) h
      ∙ decode-plain (emit_all (before_key key post done) k) b'=' (encode v ++ rest) refl
      ∙ ap (λ t. decode t (encode v ++ rest)) (plain_equals (emit_all (before_key key post done) k))
      ∙ decode-encode (before_key k post ((done ++ k) ++ (b'=' ∷ []))) v rest g,
)

decode-nil : (s : Decoder) → decode s [] ≡ some s
unfolding decode
decode-nil s = refl

decode-form :
    (ps : List (Text × Text)) (key value last done : Text) (post : List (Text × Text))
    → All IsPair ps
    → All IsField key
    → All IsField value
    → (done' : Text) × (decode (before_key last post done) (print_form ps key value)
        ≡ some (record { key = key; segment = value; post = insert_all post ps; done = done' }))
decode-form [] key value last done post good k v =
    let (done', e) = decode-pair last done post key value [] k v in
    (
      done',
      ap (λ t. decode (before_key last post done) (encode key ++ (b'=' ∷ t)))
            (sym (append-nil (encode value)))
          ∙ e
          ∙ decode-nil _,
    )
decode-form ((k, v) ∷ ps) key value last done post good kf vf =
    let (done₁, e) =
      decode-pair last done post k v (b'&' ∷ print_form ps key value) good.0.0 good.0.1 in
    let (done₂, f) =
      decode-form ps key value k (done₁ ++ (b'&' ∷ [])) (insert k v post) good.1 kf vf in
    (
      done₂,
      e
          ∙ decode-plain (record { key = k; segment = v; post = post; done = done₁ }) b'&'
              (print_form ps key value) refl
          ∙ ap (λ t. decode t (print_form ps key value))
              (plain_and (record { key = k; segment = v; post = post; done = done₁ }))
          ∙ f,
    )

finish_new :
    (key : Text) (c : ℕ) (cs done : Text) (post : List (Text × Text))
    → lookup key post ≡ none
    → (finish (record { key = key; segment = c ∷ cs; post = post; done = done })).post
      ≡ insert key (c ∷ cs) post
unfolding finish finish_with
finish_new key c cs done post e = rw e refl

finish_empty :
    (o : Option Text) (key : Text) (post : List (Text × Text))
    → (finish_with o [] (before_key key post [])).post ≡ post
unfolding finish_with
finish_empty none key post = refl
finish_empty (some v) key post = refl

parse_from_urlencoded_lem :
    (body : Text) (post : List (Text × Text))
    → parse_from_urlencoded body post
      ≡ (decode (before_key [] post []) body >>= λ s. some (s.done, (finish s).post))
unfolding parse_from_urlencoded finish decode
parse_from_urlencoded_lem [] post =
    ap (λ p. some ([], p)) (sym (finish_empty (lookup [] post) [] post))
parse_from_urlencoded_lem (c ∷ cs) post = refl

-- A form without escapes is read back: its keys and values have none of '=', '&', '%' and '+', and
-- blanks are sent as '+'. The pairs go into post_ in order, a later one in place of an earlier one of
-- its key. The last pair has to have a value and a key that is not there yet.
pub parse-print_form :
    (ps : List (Text × Text)) (key : Text) (c : ℕ) (cs : Text) (post : List (Text × Text))
    → All IsPair ps
    → All IsField key
    → All IsField (c ∷ cs)
    → lookup key (insert_all post ps) ≡ none
    → (body' : Text) × (parse_from_urlencoded (print_form ps key (c ∷ cs)) post
        ≡ some (body', insert key (c ∷ cs) (insert_all post ps)))
parse-print_form ps key c cs post good k v fresh =
    let (done, e) = decode-form ps key (c ∷ cs) [] [] post good k v in
    (
      done,
      parse_from_urlencoded_lem (print_form ps key (c ∷ cs)) post
          ∙ rw (e, finish_new key c cs done (insert_all post ps) fresh) refl,
    )
