-- ===== src/Http/Server/Process.antt =====
-- process: from the bytes of a request to the bytes of the reply.
use piorun.Prelude.{
  ℕ, ◌+◌, ◌^◌, ◌≤◌, ◌<◌, ◌≡◌, refl, ap, ◌∙◌, inr, List, [], ◌∷◌, ◌++◌, Option, some, none, true,
  false, arith, length, take, All, lt→ltb, ◌==◌,
}
use piorun.Http.CString.{codes}
use piorun.Http.Buffer.{Buffer, max_size, contents, readable_bytes}
use piorun.Http.Buffer.Valid.{IsValid, length-contents}
use piorun.Http.User.{Row, World}
use piorun.Http.Request.{Request, finished, is_keep_alive, parse_path}
use piorun.Http.Request
use piorun.Http.Request.Print.{IsWord, IsHeader, print, header_map}
use piorun.Http.Request.Headers.{Reads}
use piorun.Http.Request.RoundTrip.{parse-print}
use piorun.Http.Response.{Response, FileStat, FileSystem, content_length, reads_minus_one}
use piorun.Http.Response
use piorun.Http.Response.Reply.{concat, cost, served, coded, head_texts, make_response_found}
use piorun.Http.Response.Fault.{resolve_regular}
use piorun.Http.Server.{Server, pending, set_parts, reply, answer, process}
use piorun.Http.Server.Write.{IsReady}

-- A file that is served: regular, read by all, not empty, opened and mapped.
pub record Serves (fs : FileSystem) (path : List ℕ) (s : FileStat) (bytes : List ℕ) : Type 0 where
  pub found : fs.stat path ≡ some s
  pub regular : s.is_dir ≡ false
  pub open_to_all : s.others_read ≡ true
  pub opened : fs.opens path ≡ true
  pub whole : fs.mmap path s.st_size ≡ some bytes
  pub no_minus_one : reads_minus_one bytes ≡ false
  pub filled : 0 < s.st_size
  pub fits : s.st_size ≤ length bytes
  pub small : s.st_size < 2 ^ 63

-- The response that answers a request, before MakeResponse and with its file.
abbrev answering : Response → List ℕ → Request → Response
answering old src_dir r = record old {
  code = some 200;
  is_keep_alive = is_keep_alive r;
  path = r.path;
  src_dir = src_dir;
  mm_file = none;
  file_stat = record { st_size = 0; is_dir = false; others_read = false };
}

abbrev pub with_file : Response → List ℕ → Request → FileStat → Response
with_file old src_dir r s = record (answering old src_dir r) { file_stat = s }

abbrev pub reply_texts : Response → List (List ℕ)
reply_texts found = head_texts found ++ (content_length found.file_stat.st_size ∷ [])

pub set_parts-IsReady :
    (s : Server) (r : Response) (b : Buffer) (bytes : List ℕ)
    → IsValid b
    → 0 < r.file_stat.st_size
    → r.file_stat.st_size ≤ length bytes
    → r.file_stat.st_size < 2 ^ 63
    → let s' = set_parts s (record r { mm_file = some bytes }) b in
      IsReady s' × (pending s' ≡ contents b ++ take r.file_stat.st_size bytes)
unfolding set_parts
set_parts-IsReady s r b bytes v filled fits small = rw (lt→ltb 0 r.file_stat.st_size filled) (
  record { buffer = v; both = refl; head = inr (refl, refl); within = omega arith; small = small },
  refl,
)

pub set_parts-read_buff :
    (s : Server) (r : Response) (b : Buffer) → (set_parts s r b).read_buff ≡ s.read_buff
unfolding set_parts
set_parts-read_buff s r b = ground arith

==_positive : (n : ℕ) → 0 < n → (n == 0) ≡ false
==_positive n h = ground arith

-- The request that parse makes of a GET.
abbrev pub get_request : List ℕ → List ℕ → List (List ℕ × List ℕ) → Request
get_request path version headers = record Request.init {
  state = finished;
  method = codes "GET";
  path = parse_path path;
  version = version;
  header = header_map [] headers;
}

module _ {D : Type 0} (mysql_query : ℕ → List ℕ → D → Option (List Row) × D) (fs : FileSystem) where
  reply-Serves :
      (s : Server) (r : Request) (read_buff : Buffer) (c : ℕ) (cs : List ℕ) (st : FileStat)
      (bytes : List ℕ)
      → IsValid s.write_buff
      → contents s.write_buff ≡ []
      → Serves fs ((c ∷ cs) ++ r.path) st bytes
      → length s.write_buff.storage + cost (reply_texts (with_file s.response (c ∷ cs) r st))
        ≤ max_size
      → (s' : Server) × (reply mysql_query fs (c ∷ cs) s true r read_buff ≡ some s')
        × IsReady s'
        × (pending s'
            ≡ concat (reply_texts (with_file s.response (c ∷ cs) r st)) ++ take st.st_size bytes)
        × (s'.read_buff ≡ read_buff)
  unfolding reply Response.init
  reply-Serves s r read_buff c cs st bytes v empty f h =
      let old = answering s.response (c ∷ cs) r in
      let found = with_file s.response (c ∷ cs) r st in
      let (b', made, valid, text) =
        make_response_found old found {texts = content_length st.st_size ∷ []} {b = s.write_buff}
          (resolve_regular fs old st f.found f.regular f.open_to_all) v
          (served bytes f.opened f.whole f.no_minus_one) h in
      let s₁ : Server = record s { request = r; read_buff = read_buff } in
      let (ready, sends) =
        set_parts-IsReady s₁ (coded found) b' bytes valid f.filled f.fits f.small in
      (
        set_parts s₁ (record (coded found) { mm_file = some bytes }) b',
        rw made refl,
        ready,
        sends
            ∙ ap (λ l. l ++ take st.st_size bytes)
                (text ∙ ap (λ l. l ++ concat (reply_texts found)) empty),
        set_parts-read_buff s₁ (record (coded found) { mm_file = some bytes }) b',
      )

  -- The read buffer holds a GET request, as a client writes it, and no more; the write buffer is empty; the
  -- file that its path names below the source directory is regular, readable by all, not empty, can be
  -- opened and mapped, and does not begin with four bytes of all ones; and the write buffer can
  -- grow to the head of the reply. Then process returns true, the read buffer is empty, the pool and
  -- the database are as they were, and what is to go out is the head of a reply with code 200, the
  -- connection as the request asks for it, the type and the length of the file, and then the file.
  pub process_get :
      (s : Server) (w : World D) (c : ℕ) (cs path version : List ℕ)
      (headers : List (List ℕ × List ℕ)) (st : FileStat) (bytes : List ℕ)
      → IsValid s.read_buff
      → contents s.read_buff ≡ print (codes "GET") path version headers []
      → IsWord path
      → IsWord version
      → All IsHeader headers
      → IsValid s.write_buff
      → contents s.write_buff ≡ []
      → Serves fs ((c ∷ cs) ++ parse_path path) st bytes
      → length s.write_buff.storage
          + cost (reply_texts (with_file s.response (c ∷ cs) (get_request path version headers) st))
        ≤ max_size
      → (s' : Server) × (process mysql_query fs (c ∷ cs) s w ≡ some (true, s', w))
        × IsReady s'
        × (pending s'
            ≡ concat
                (reply_texts (with_file s.response (c ∷ cs) (get_request path version headers) st))
              ++ take st.st_size bytes)
        × (contents s'.read_buff ≡ [])
  unfolding process answer Reads
  process_get s w c cs path version headers st bytes rv holds p v hs wv empty f h =
      let (b, parsed, _, left) =
        parse-print mysql_query w (codes "GET") path version headers [] {b = s.read_buff}
          (omega arith) p v hs tt (λ e. cc) rv holds in
      let (s', made, ready, sends, kept) =
        reply-Serves s (get_request path version headers) b c cs st bytes wv empty f h in
      (
        s',
        rw
            (
              ==_positive (readable_bytes s.read_buff)
                  (omega (arith, length-contents {b = s.read_buff} rv, ap length holds)),
              parsed,
              made,
            )
            refl,
        ready,
        sends,
        ap contents kept ∙ left,
      )
