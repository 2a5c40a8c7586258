-- ===== src/Http/Response/Fault.antt =====
-- The file that MakeResponse chooses.
use piorun.Prelude.{◌≡◌, refl, ◌++◌, some, true, false}
use piorun.Http.CString.{codes}
use piorun.Http.Response.{
  Response, FileStat, FileSystem, choose_code, error_html, error_html_with, resolve,
}

module _ (fs : FileSystem) (r : Response) (s : FileStat) where
  -- A response to a request that was read.
  abbrev pub asked : Response
  asked = record r { code = some 200 }

  pub resolve_regular :
      fs.stat (r.src_dir ++ r.path) ≡ some s
      → s.is_dir ≡ false
      → s.others_read ≡ true
      → resolve fs asked ≡ record asked { file_stat = s }
  unfolding resolve choose_code error_html error_html_with
  resolve_regular found d o = rw (found, d, o) refl

  -- A file that is missing, or is a directory, is answered by the page for 404.
  pub resolve_missing :
      choose_code (fs.stat (r.src_dir ++ r.path)) r.code ≡ 404
      → fs.stat (r.src_dir ++ codes "/404.html") ≡ some s
      → resolve fs r ≡ record r { code = some 404; path = codes "/404.html"; file_stat = s }
  unfolding resolve error_html error_html_with
  resolve_missing chosen page = rw (chosen, page) refl
