-- ===== src/Http/Response/Reply.antt =====
-- The reply that MakeResponse puts into the buffer.
use piorun.Prelude.{
  ℕ, suc, ◌+◌, ◌≤◌, ◌≡◌, refl, sym, ap, ◌∙◌, List, [], ◌∷◌, ◌++◌, Option, some, none, true, false,
  arith, length, append_assoc, append-nil, ◌>>=◌,
}
use piorun.Http.Buffer.{Buffer, max_size, contents, append}
use piorun.Http.Buffer.Valid.{IsValid}
use piorun.Http.Buffer.Append.{append-Appended}
use piorun.Http.Response.{
  Response, FileSystem, append_all, resolve, known_code, state_line, add_state_line, header_texts,
  add_header, content_length, error_body, error_content, file_not_found, reads_minus_one,
  add_mapped, add_content, make_response,
}

abbrev pub concat : List (List ℕ) → List ℕ
concat [] = []
concat (t ∷ ts) = t ++ concat ts

-- The bytes by which the texts can make the vector grow.
abbrev pub cost : List (List ℕ) → ℕ
cost [] = 0
cost (t ∷ ts) = length t + 1 + cost ts

-- Several calls of Append.
pub record AppendedAll (b : Buffer) (texts : List (List ℕ)) : Type 0 where
  pub result : Buffer
  pub returns : append_all b texts ≡ some result
  pub valid : IsValid result
  pub text : contents result ≡ contents b ++ concat texts
  pub grown : length result.storage ≤ length b.storage + cost texts

append_all-AppendedAll :
    (texts : List (List ℕ)) {b : Buffer}
    → IsValid b
    → length b.storage + cost texts ≤ max_size
    → AppendedAll b texts
unfolding append_all
append_all-AppendedAll [] {b} v h = record {
  result = b;
  returns = refl;
  valid = v;
  text = sym (append-nil (contents b));
  grown = omega arith;
}
append_all-AppendedAll (t ∷ ts) {b} v h =
    let (b', made, a) = append-Appended {b = b} t v (omega (arith, v.within)) in
    let rest = append_all-AppendedAll ts {b = b'} a.valid (omega (arith, a.grown)) in
    record {
      result = rest.result;
      returns = rw made rest.returns;
      valid = rest.valid;
      text = rest.text ∙ ap (λ l. l ++ concat ts) a.text ∙ append_assoc (contents b) t (concat ts);
      grown = omega (arith, rest.grown, a.grown);
    }

cost-append : (xs ys : List (List ℕ)) → cost (xs ++ ys) ≡ cost xs + cost ys
cost-append [] ys = omega arith
cost-append (x ∷ xs) ys = omega (arith, cost-append xs ys)

concat-append : (xs ys : List (List ℕ)) → concat (xs ++ ys) ≡ concat xs ++ concat ys
concat-append [] ys = refl
concat-append (x ∷ xs) ys =
    ap (λ l. x ++ l) (concat-append xs ys) ∙ sym (append_assoc x (concat xs) (concat ys))

abbrev pub error_texts : ℕ → List (List ℕ)
error_texts code =
    content_length (length (error_body code file_not_found)) ∷ error_body code file_not_found ∷ []

-- How a reply ends, for the file that is to be its body: with the length of the file, which is mapped;
-- or with an error page, if the file cannot be opened or its first bytes read as -1.
pub data Ending (fs : FileSystem) (r : Response) (code : ℕ)
    : List (List ℕ) → Response → Type 0 where
  served :
      (bytes : List ℕ)
      → fs.opens (r.src_dir ++ r.path) ≡ true
      → fs.mmap (r.src_dir ++ r.path) r.file_stat.st_size ≡ some bytes
      → reads_minus_one bytes ≡ false
      → Ending fs r code
          (content_length r.file_stat.st_size ∷ [])
          (record r { mm_file = some bytes })
  refused : fs.opens (r.src_dir ++ r.path) ≡ false → Ending fs r code (error_texts code) r
  misread :
      (bytes : List ℕ)
      → fs.opens (r.src_dir ++ r.path) ≡ true
      → fs.mmap (r.src_dir ++ r.path) r.file_stat.st_size ≡ some bytes
      → reads_minus_one bytes ≡ true
      → Ending fs r code (error_texts code) (record r { descriptors = suc r.descriptors })

bind_some {ℓ κ} :
    {A : Type ℓ} {B : Type κ} (q : Option A) (f : A → Option B)
    → (q >>= f) ≡ ((q >>= λ a. some a) >>= f)
bind_some none f = refl
bind_some (some a) f = refl

add_content-Ending :
    {fs : FileSystem} {r r' : Response} {code : ℕ} {texts : List (List ℕ)} (b : Buffer)
    → Ending fs r code texts r'
    → add_content fs r code b ≡ (append_all b texts >>= λ b'. some (r', b'))
unfolding add_content add_mapped error_content append_all
add_content-Ending {fs} {r} {r'} {code} b (served bytes o m f) =
    rw (o, m, f)
      (bind_some (append b (content_length r.file_stat.st_size))
        (λ b'. some (record r { mm_file = some bytes }, b')))
add_content-Ending b (refused o) = rw o refl
add_content-Ending b (misread bytes o m f) = rw (o, m, f) refl

-- The head of a reply.
abbrev pub head_texts : Response → List (List ℕ)
head_texts r = state_line (known_code r.code) ∷ header_texts r

abbrev pub coded : Response → Response
coded r = record r { code = some (known_code r.code) }

pub make_response_found :
    {fs : FileSystem} (r found : Response) {r' : Response} {texts : List (List ℕ)} {b : Buffer}
    → resolve fs r ≡ found
    → IsValid b
    → Ending fs (coded found) (known_code found.code) texts r'
    → length b.storage + cost (head_texts found ++ texts) ≤ max_size
    → (b' : Buffer) × (make_response fs r b ≡ some (r', b'))
      × IsValid b'
      × (contents b' ≡ contents b ++ concat (head_texts found ++ texts))
unfolding make_response add_state_line add_header
make_response_found {fs} r found {r'} {texts} {b} chosen v ending h =
    let line = state_line (known_code (found).code) in
    let headers = header_texts (found) in
    let size = cost-append headers texts in
    let (b₁, made, a₁) = append-Appended {b = b} line v (omega (arith, v.within, size)) in
    let a₂ = append_all-AppendedAll headers {b = b₁} a₁.valid (omega (arith, a₁.grown, size)) in
    let a₃ =
      append_all-AppendedAll texts {b = a₂.result} a₂.valid
        (omega (arith, a₁.grown, a₂.grown, size)) in
    (
      a₃.result,
      rw (chosen, made, a₂.returns, add_content-Ending a₂.result ending, a₃.returns) refl,
      a₃.valid,
      a₃.text
          ∙ ap (λ l. l ++ concat texts)
              (a₂.text
                ∙ ap (λ l. l ++ concat headers) a₁.text
                ∙ append_assoc (contents b) line (concat headers))
          ∙ append_assoc (contents b) (line ++ concat headers) (concat texts)
          ∙ ap (λ l. contents b ++ l)
              (append_assoc line (concat headers) (concat texts)
                ∙ ap (λ l. line ++ l) (sym (concat-append headers texts))),
    )

-- From any state of the response, on a valid buffer with room for the reply, whose file can be opened and
-- mapped or cannot be opened: MakeResponse succeeds, leaves the buffer valid, and has put behind its
-- contents the state line of the code that was chosen, the headers, and the ending: the length of the
-- file with an empty line, and the file is mapped; or, if it cannot be opened or reads as -1, an error
-- page with its length before it, and nothing is mapped.
pub make_response_lem :
    {fs : FileSystem} (r : Response) {r' : Response} {texts : List (List ℕ)} {b : Buffer}
    → IsValid b
    → Ending fs (coded (resolve fs r)) (known_code (resolve fs r).code) texts r'
    → length b.storage + cost (head_texts (resolve fs r) ++ texts) ≤ max_size
    → (b' : Buffer) × (make_response fs r b ≡ some (r', b'))
      × IsValid b'
      × (contents b' ≡ contents b ++ concat (head_texts (resolve fs r) ++ texts))
make_response_lem {fs} r v ending h = make_response_found r (resolve fs r) refl v ending h
