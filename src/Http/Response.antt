-- ===== src/Http/Response.antt =====
-- src/piorun/http/httpresponse.cpp, include/http/httpresponse.h: HttpResponse, which writes the head of a
-- reply into a buffer and maps the file that is its body. The file system is a parameter. `none` is a
-- read of unmapped memory, or an Append that fails.
pub mod Tables
pub mod Reply
pub mod Fault
pub mod Tests
use piorun.Prelude.{
  ℕ, suc, ◌+◌, ◌-◌, List, [], ◌∷◌, ◌++◌, Option, none, some, Bool, true, false, not, ◌&&◌, ◌||◌,
  ◌==◌, if◌then◌else◌, length, ◌>>=◌,
}
use piorun.Http.CString.{codes, digits}
use piorun.Http.Text.{same, lookup}
use piorun.Http.Buffer.{Buffer, append}
use piorun.Http.Response.Tables.{suffix_type, code_status, code_path}

-- What MakeResponse reads of a `struct stat`.
pub record FileStat : Type 0 where
  pub st_size : ℕ
  pub is_dir : Bool
  pub others_read : Bool

-- The file system: stat, open, and mmap of an open file with a length; `none` is a failure. A mapping is
-- shown by the bytes of its pages, of which there is one at least.
pub record FileSystem : Type 0 where
  pub stat : List ℕ → Option FileStat
  pub opens : List ℕ → Bool
  pub mmap : List ℕ → ℕ → Option (List ℕ)

-- code_ is none for -1. `descriptors` counts the files that the process holds open.
pub record Response : Type 0 where
  pub code : Option ℕ
  pub is_keep_alive : Bool
  pub path : List ℕ
  pub src_dir : List ℕ
  pub mm_file : Option (List ℕ)
  pub file_stat : FileStat
  pub descriptors : ℕ

abbrev no_stat : FileStat
no_stat = record { st_size = 0; is_dir = false; others_read = false }

pub unmap_file : Response → Response
unmap_file r = record r { mm_file = none }

-- Init; none if the assertion that there is a source directory fails.
unfoldable pub init : Response → List ℕ → List ℕ → Bool → Option ℕ → Option Response
init r [] path is_keep_alive code = none
init r (c ∷ cs) path is_keep_alive code = some (record r {
  code = code;
  is_keep_alive = is_keep_alive;
  path = path;
  src_dir = c ∷ cs;
  mm_file = none;
  file_stat = no_stat;
})

-- A sequence of calls of Append.
pub append_all : Buffer → List (List ℕ) → Option Buffer
append_all b [] = some b
append_all b (text ∷ texts) = do b' ← append b text; append_all b' texts

abbrev pub crlf : List ℕ
crlf = 13 ∷ 10 ∷ []

-- to_string of a number below 2^64.
pub to_string : ℕ → List ℕ
to_string n = digits 20 n

-- find_last_of('.') and substr: the text from the last dot on.
abbrev pub last_suffix : List ℕ → Option (List ℕ)
last_suffix [] = none
last_suffix (c ∷ cs) = elim (last_suffix cs) [
  | some s ↦ some s
  | none ↦ if c == b'.' then some (c ∷ cs) else none
]

pub get_file_type : List ℕ → List ℕ
get_file_type path = elim (last_suffix path) [
  | none ↦ codes "text/plain"
  | some suffix ↦ elim (lookup suffix suffix_type) [ some kind ↦ kind | none ↦ codes "text/plain" ]
]

-- The code that a file asks for, in MakeResponse.
unfoldable pub choose_code : Option FileStat → Option ℕ → ℕ
choose_code none code = 404
choose_code (some s) code =
    if s.is_dir
    then 404
    else if not s.others_read
    then 403
    else elim code [ none ↦ 200 | some c ↦ c ]

-- A call of stat into mmFileStat_, which a failure leaves as it was.
abbrev pub restat : Option FileStat → FileStat → FileStat
restat none old = old
restat (some s) old = s

module _ (fs : FileSystem) where
  pub error_html_with : Option (List ℕ) → Response → Response
  error_html_with none r = r
  error_html_with (some path) r = record r {
    path = path;
    file_stat = restat (fs.stat (r.src_dir ++ path)) r.file_stat;
  }

  -- ErrorHtml_, with the code that was chosen.
  pub error_html : ℕ → Response → Response
  error_html code r = error_html_with (code_path code) (record r { code = some code })

  -- MakeResponse up to ErrorHtml_.
  pub resolve : Response → Response
  unfolding choose_code error_html
  resolve r =
      let found = fs.stat (r.src_dir ++ r.path) in
      error_html (choose_code found r.code) (record r { file_stat = restat found r.file_stat })

-- AddStateLine_: an unknown code becomes 400.
pub known_code : Option ℕ → ℕ
known_code none = 400
known_code (some code) = elim (code_status code) [ some status ↦ code | none ↦ 400 ]

pub status_text : ℕ → List ℕ
status_text code = elim (code_status code) [ some status ↦ status | none ↦ codes "Bad Request" ]

pub state_line : ℕ → List ℕ
unfolding to_string status_text
state_line code = codes "HTTP/1.1 " ++ (to_string code ++ (codes " " ++ (status_text code ++ crlf)))

pub add_state_line : Response → Buffer → Option (Response × Buffer)
add_state_line r b = do
  let code = known_code r.code
  b' ← append b (state_line code)
  some (record r { code = some code }, b')

abbrev pub header_texts : Response → List (List ℕ)
header_texts r =
    codes "Connection: "
      ∷ (if r.is_keep_alive
          then (codes "keep-alive" ++ crlf) ∷ (codes "keep-alive: max=6, timeout=120" ++ crlf) ∷ []
          else (codes "close" ++ crlf) ∷ [])
    ++ ((codes "Content-type: " ++ (get_file_type r.path ++ crlf)) ∷ [])

pub add_header : Response → Buffer → Option Buffer
add_header r b = append_all b (header_texts r)

pub content_length : ℕ → List ℕ
unfolding to_string
content_length n = codes "Content-length: " ++ (to_string n ++ (crlf ++ crlf))

pub error_body : ℕ → List ℕ → List ℕ
unfolding to_string status_text
error_body code message =
    codes "<html><title>Error</title><body bgcolor="
    ++ ((b'"' ∷ codes "ffffff")
        ++ ((b'"' ∷ b'>' ∷ [])
            ++ (to_string code
                ++ (codes " : "
                    ++ (status_text code
                        ++ ((10 ∷ codes "<p>")
                            ++ (message
                                ++ codes "</p><hr><em>TinyWebServer</em></body></html>")))))))

-- ErrorContent, for a code that is set.
pub error_content : ℕ → List ℕ → Buffer → Option Buffer
error_content code message b =
    append_all b (content_length (length (error_body code message)) ∷ error_body code message ∷ [])

abbrev pub file_not_found : List ℕ
file_not_found = codes "File NotFound!"

-- `*mmRet == -1`: the first four bytes of the mapping are all ones.
abbrev pub reads_minus_one : List ℕ → Bool
reads_minus_one (a ∷ b ∷ c ∷ d ∷ rest) = (a == 255) && ((b == 255) && ((c == 255) && (d == 255)))
reads_minus_one _ = false

-- AddContent_ behind mmap. Only the last way closes the file.
pub add_mapped : Response → ℕ → Option (List ℕ) → Buffer → Option (Response × Buffer)
add_mapped r code none b = none
add_mapped r code (some bytes) b =
    if reads_minus_one bytes
    then (do
      b' ← error_content code file_not_found b
      some (record r { descriptors = suc r.descriptors }, b'))
    else (do
      b' ← append b (content_length r.file_stat.st_size)
      some (record r { mm_file = some bytes }, b'))

module _ (fs : FileSystem) where
  -- AddContent_, with the code that AddStateLine_ has set.
  pub add_content : Response → ℕ → Buffer → Option (Response × Buffer)
  add_content r code b =
      if fs.opens (r.src_dir ++ r.path)
      then add_mapped r code (fs.mmap (r.src_dir ++ r.path) r.file_stat.st_size) b
      else (do b' ← error_content code file_not_found b; some (r, b'))

  pub make_response : Response → Buffer → Option (Response × Buffer)
  make_response r b = do
    let found = resolve fs r
    s ← add_state_line found b
    b' ← add_header s.0 s.1
    add_content s.0 (known_code found.code) b'
