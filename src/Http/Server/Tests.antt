-- ===== src/Http/Server/Tests.antt =====
-- The theorems on the server's connection at concrete connections.
use piorun.Prelude.{if◌then◌else◌, ℕ, ◌≡◌, refl, inr, List, [], ◌∷◌, ◌++◌, some, true, false, arith}
use piorun.Http.CString.{codes}
use piorun.Http.Buffer.{contents, done}
use piorun.Http.Request.{Request, init, is_keep_alive, parse_path}
use piorun.Http.Request.Tests.{
  one_user, idle, holding, get_root, get_root-IsValid, root_path, no_request_line,
}
use piorun.Http.Text.{same}
use piorun.Http.Response.{FileStat, FileSystem}
use piorun.Http.Response.Reply.{concat}
use piorun.Http.Response.Tests.{filled, asking, empty_buffer, index_page_fits, not_found_fits}
use piorun.Http.Server.{Server, pending, write, process}
use piorun.Http.Server.Write.{IsReady, write_sends}
use piorun.Http.Server.Reject.{not_found, process_rejects}
use piorun.Http.Server.Process.{Serves, with_file, reply_texts, get_request, process_get}

abbrev open_server : Server
open_server = record {
  fd = 5;
  is_close = false;
  iov_cnt = 0;
  head = record { iov_base = 0; iov_len = 0 };
  file = record { iov_base = 0; iov_len = 0 };
  read_buff = holding get_root;
  write_buff = empty_buffer;
  request = init;
  response = asking;
}

abbrev two_bytes : FileStat
two_bytes = record { st_size = 2; is_dir = false; others_read = true }

two_bytes-Serves : (path : List ℕ) → Serves (filled (1 ∷ 2 ∷ [])) path two_bytes (1 ∷ 2 ∷ [])
two_bytes-Serves path = record {
  found = refl;
  regular = refl;
  open_to_all = refl;
  opened = refl;
  whole = refl;
  no_minus_one = refl;
  filled = omega arith;
  fits = omega arith;
  small = omega arith;
}

abbrev root_request : Request
root_request = get_request (codes "/") (codes "1.1") ((codes "Host", codes "a b") ∷ [])

abbrev root_reply : List (List ℕ)
root_reply = reply_texts (with_file asking (codes "/srv") root_request two_bytes)

process_get_example :
    (s' : Server) × (process one_user (filled (1 ∷ 2 ∷ [])) (codes "/srv") open_server idle
      ≡ some (true, s', idle))
    × IsReady s'
    × (pending s' ≡ concat root_reply ++ (1 ∷ 2 ∷ []))
    × (contents s'.read_buff ≡ [])
process_get_example =
    process_get one_user (filled (1 ∷ 2 ∷ [])) open_server idle b'/' (codes "srv") (codes "/")
      (codes "1.1") ((codes "Host", codes "a b") ∷ []) two_bytes (1 ∷ 2 ∷ []) get_root-IsValid refl
      (omega arith) (omega arith) (omega arith) (omega arith) refl
      (two_bytes-Serves (codes "/srv" ++ parse_path (codes "/")))
      (index_page_fits (is_keep_alive root_request) (parse_path (codes "/")) root_path)

-- Three bytes of a head and two of a file are to go out.
abbrev replying : Server
replying = record open_server {
  iov_cnt = 2;
  head = record { iov_base = 0; iov_len = 3 };
  file = record { iov_base = 0; iov_len = 2 };
  write_buff = holding (7 ∷ 8 ∷ 9 ∷ []);
  response = record asking { mm_file = some (1 ∷ 2 ∷ []) };
}

replying-IsReady : IsReady replying
replying-IsReady = record {
  buffer = omega arith;
  both = refl;
  head = inr (refl, refl);
  within = omega arith;
  small = omega arith;
}

write_sends_example :
    (s' : Server) × (write replying (done 4) ≡ some (s', done 4))
    × IsReady s'
    × (pending s' ≡ 2 ∷ [])
write_sends_example = write_sends replying 4 replying-IsReady (omega arith) (omega arith)

-- A directory `/srv`, and a file of two bytes at any other path.
abbrev rooted : FileSystem
rooted = record {
  stat = λ path. some (
      if same path (codes "/srv")
      then record { st_size = 9; is_dir = true; others_read = true }
      else two_bytes);
  opens = λ path. true;
  mmap = λ path size. some (1 ∷ 2 ∷ []);
}

rooted-Serves : Serves rooted (codes "/srv/404.html") two_bytes (1 ∷ 2 ∷ [])
unfolding same
rooted-Serves = record {
  found = refl;
  regular = refl;
  open_to_all = refl;
  opened = refl;
  whole = refl;
  no_minus_one = refl;
  filled = omega arith;
  fits = omega arith;
  small = omega arith;
}

root_dir :
    rooted.stat (codes "/srv") ≡ some (record { st_size = 9; is_dir = true; others_read = true })
unfolding same
root_dir = refl

-- A connection that was sent "GET".
abbrev cut_short : Server
cut_short = record open_server { read_buff = holding (codes "GET") }

process_rejects_example :
    (s' : Server) × (process one_user rooted (codes "/srv") cut_short idle ≡ some (true, s', idle))
    × IsReady s'
    × (pending s'
        ≡ concat (reply_texts (not_found asking (codes "/srv") two_bytes)) ++ (1 ∷ 2 ∷ []))
    × (s'.read_buff ≡ holding (codes "GET"))
process_rejects_example =
    process_rejects one_user rooted cut_short idle b'/' (codes "srv")
      (record { st_size = 9; is_dir = true; others_read = true }) two_bytes (1 ∷ 2 ∷ [])
      (omega arith) no_request_line (omega arith) refl root_dir refl rooted-Serves not_found_fits
