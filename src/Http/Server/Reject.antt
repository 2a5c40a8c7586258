-- ===== src/Http/Server/Reject.antt =====
-- process on a request whose first line is no request line.
use piorun.Prelude.{
  ℕ, ◌+◌, ◌≤◌, ◌<◌, ◌≡◌, refl, ap, ◌∙◌, List, [], ◌∷◌, ◌++◌, Option, some, none, true, false, arith,
  length, take, ◌==◌, append-nil,
}
use piorun.Http.CString.{codes}
use piorun.Http.Buffer.{max_size, contents, readable_bytes}
use piorun.Http.Buffer.Valid.{IsValid}
use piorun.Http.User.{Row, World}
use piorun.Http.Request.{Request, match_request_line, find_crlf, line_of}
use piorun.Http.Request
use piorun.Http.Request.Reject.{parse-rejected}
use piorun.Http.Response.{Response, FileStat, FileSystem, choose_code, content_length}
use piorun.Http.Response
use piorun.Http.Response.Reply.{concat, cost, served, coded, make_response_found}
use piorun.Http.Response.Fault.{resolve_missing}
use piorun.Http.Server.{Server, pending, set_parts, reply, answer, process}
use piorun.Http.Server.Write.{IsReady}
use piorun.Http.Server.Process.{Serves, reply_texts, set_parts-IsReady, set_parts-read_buff}

-- The response to no request: it has no path.
abbrev refusing : Response → List ℕ → Response
refusing old src_dir = record old {
  code = some 400;
  is_keep_alive = false;
  path = [];
  src_dir = src_dir;
  mm_file = none;
  file_stat = record { st_size = 0; is_dir = false; others_read = false };
}

-- The page for 404.
abbrev pub not_found : Response → List ℕ → FileStat → Response
not_found old src_dir s = record (refusing old src_dir) {
  code = some 404;
  path = codes "/404.html";
  file_stat = s;
}

positive : (n : ℕ) → 0 < n → (n == 0) ≡ false
positive n h = ground arith

module _ {D : Type 0} (mysql_query : ℕ → List ℕ → D → Option (List Row) × D) (fs : FileSystem) where
  refuse-Serves :
      (s : Server) (c : ℕ) (cs : List ℕ) (dir st : FileStat) (bytes : List ℕ)
      → IsValid s.write_buff
      → contents s.write_buff ≡ []
      → fs.stat (c ∷ cs) ≡ some dir
      → dir.is_dir ≡ true
      → Serves fs ((c ∷ cs) ++ codes "/404.html") st bytes
      → length s.write_buff.storage + cost (reply_texts (not_found s.response (c ∷ cs) st))
        ≤ max_size
      → (s' : Server) × (reply mysql_query fs (c ∷ cs) s false Request.init s.read_buff ≡ some s')
        × IsReady s'
        × (pending s'
            ≡ concat (reply_texts (not_found s.response (c ∷ cs) st)) ++ take st.st_size bytes)
        × (s'.read_buff ≡ s.read_buff)
  unfolding reply Response.init choose_code
  refuse-Serves s c cs dir st bytes v empty d isdir f h =
      let old = refusing s.response (c ∷ cs) in
      let found = not_found s.response (c ∷ cs) st in
      let chosen : choose_code (fs.stat ((c ∷ cs) ++ [])) (some 400) ≡ 404 =
        rw (append-nil cs, d, isdir) refl in
      let (b', made, valid, text) =
        make_response_found old found {texts = content_length st.st_size ∷ []} {b = s.write_buff}
          (resolve_missing fs old st chosen f.found) v
          (served bytes f.opened f.whole f.no_minus_one) h in
      let s₁ : Server = record s { request = Request.init } in
      let (ready, sends) =
        set_parts-IsReady s₁ (coded found) b' bytes valid f.filled f.fits f.small in
      (
        set_parts s₁ (record (coded found) { mm_file = some bytes }) b',
        rw made refl,
        ready,
        sends
            ∙ ap (λ l. l ++ take st.st_size bytes)
                (text ∙ ap (λ l. l ++ concat (reply_texts found)) empty),
        set_parts-read_buff s₁ (record (coded found) { mm_file = some bytes }) b',
      )

  -- The read buffer holds something, but its first line, or all of it if no line is ended, is no request
  -- line; the write buffer is empty and can grow to the head of the reply; the source directory is a
  -- directory; and its page /404.html is regular, readable by all, not empty, can be opened and mapped,
  -- and does not begin with four bytes of all ones. Then process returns true, and leaves the pool and
  -- the database alone and the text in the read buffer; and what is to go out is a reply that
  -- closes the connection, with code 404 and that page, not with the code 400 that process asks for.
  pub process_rejects :
      (s : Server) (w : World D) (c : ℕ) (cs : List ℕ) (dir st : FileStat) (bytes : List ℕ)
      → 0 < readable_bytes s.read_buff
      → match_request_line (line_of (find_crlf (contents s.read_buff)) (contents s.read_buff))
        ≡ none
      → IsValid s.write_buff
      → contents s.write_buff ≡ []
      → fs.stat (c ∷ cs) ≡ some dir
      → dir.is_dir ≡ true
      → Serves fs ((c ∷ cs) ++ codes "/404.html") st bytes
      → length s.write_buff.storage + cost (reply_texts (not_found s.response (c ∷ cs) st))
        ≤ max_size
      → (s' : Server) × (process mysql_query fs (c ∷ cs) s w ≡ some (true, s', w))
        × IsReady s'
        × (pending s'
            ≡ concat (reply_texts (not_found s.response (c ∷ cs) st)) ++ take st.st_size bytes)
        × (s'.read_buff ≡ s.read_buff)
  unfolding process answer
  process_rejects s w c cs dir st bytes some_read no_match v empty d isdir f h =
      let (s', made, ready, sends, kept) = refuse-Serves s c cs dir st bytes v empty d isdir f h in
      (
        s',
        rw
            (
              positive (readable_bytes s.read_buff) some_read,
              parse-rejected mysql_query s.read_buff w some_read no_match,
              made,
            )
            refl,
        ready,
        sends,
        kept,
      )
