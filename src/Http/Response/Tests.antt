-- ===== src/Http/Response/Tests.antt =====
-- Runs of MakeResponse, and the theorems at concrete files.
use piorun.Prelude.{
  ℕ, ◌+◌, ◌≤◌, ◌≡◌, refl, List, [], ◌∷◌, ◌++◌, some, none, Bool, true, false, if◌then◌else◌, ◌==◌,
  arith, length,
}
use piorun.Http.CString.{codes}
use piorun.Http.Text.{lookup, same}
use piorun.Http.Buffer.{Buffer, max_size, contents}
use piorun.Http.Buffer.Valid.{IsValid}
use piorun.Http.Response.{
  Response, FileSystem, choose_code, error_html, error_html_with, resolve, known_code, state_line,
  status_text, to_string, content_length, get_file_type, make_response,
}
use piorun.Http.Response.Reply.{cost, served, concat, head_texts, make_response_lem}

-- Every path is a file of these bytes. A length of 0 cannot be mapped.
abbrev pub filled : List ℕ → FileSystem
filled bytes = record {
  stat = λ path. some (record { st_size = length bytes; is_dir = false; others_read = true });
  opens = λ path. true;
  mmap = λ path size. if size == 0 then none else some bytes;
}

abbrev pub asking : Response
asking = record {
  code = some 200;
  is_keep_alive = false;
  path = codes "/a";
  src_dir = codes "/srv";
  mm_file = none;
  file_stat = record { st_size = 0; is_dir = false; others_read = false };
  descriptors = 3;
}

abbrev pub empty_buffer : Buffer
empty_buffer = record { storage = []; read_pos = 0; write_pos = 0 }

abbrev found : Response
found = record asking { file_stat = record { st_size = 2; is_dir = false; others_read = true } }

found_lem : resolve (filled (1 ∷ 2 ∷ [])) asking ≡ found
unfolding resolve choose_code error_html error_html_with
found_lem = refl

make_response_lem_example :
    (b' : Buffer) × (make_response (filled (1 ∷ 2 ∷ [])) asking empty_buffer
      ≡ some (record found { mm_file = some (1 ∷ 2 ∷ []) }, b'))
    × IsValid b'
    × (contents b' ≡ concat (head_texts found ++ (content_length 2 ∷ [])))
unfolding resolve choose_code error_html error_html_with known_code state_line status_text to_string
    content_length get_file_type
make_response_lem_example =
    make_response_lem {fs = filled (1 ∷ 2 ∷ [])} asking {b = empty_buffer} (omega arith)
      (served (1 ∷ 2 ∷ []) refl refl refl) (omega arith)

abbrev pub index_page : Bool → List ℕ → Response
index_page keep path = record found { is_keep_alive = keep; path = path }

pub index_page_fits :
    (keep : Bool) (path : List ℕ)
    → path ≡ codes "/index.html"
    → 0 + cost (head_texts (index_page keep path) ++ (content_length 2 ∷ [])) ≤ max_size
unfolding known_code state_line status_text to_string content_length get_file_type lookup same
index_page_fits true path e = rw e (omega arith)
index_page_fits false path e = rw e (omega arith)

pub not_found_fits :
    0
      + cost (
          head_texts (record found { code = some 404; path = codes "/404.html" })
          ++ (content_length 2 ∷ []))
    ≤ max_size
unfolding known_code state_line status_text to_string content_length get_file_type lookup same
not_found_fits = omega arith
