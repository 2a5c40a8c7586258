-- ===== src/Http/Server.antt =====
-- src/piorun/http/httpconn.cc, include/http/httpconn.h: HttpConn, a connection of the server, which reads
-- a request from one buffer and writes the reply from another one and from the file. `none` is a failed
-- assertion or an access outside of memory.
pub mod Write
pub mod Process
pub mod Reject
pub mod Tests
use piorun.Prelude.{
  ℕ, zero, suc, ◌+◌, ◌-◌, List, [], ◌∷◌, ◌++◌, Option, none, some, Bool, true, false, ◌&&◌, ltb,
  ◌==◌, if◌then◌else◌, length, take, drop, ◌>>=◌,
}
use piorun.Http.Buffer.{
  Buffer, add_size, contents, readable_bytes, retrieve, retrieve_all, IoResult, failed, done,
  read_fd,
}
use piorun.Http.User.{Row, World}
use piorun.Http.Request.{Request, Result, returns, goes_on, is_keep_alive, parse}
use piorun.Http.Request
use piorun.Http.Response.{Response, FileSystem, unmap_file, make_response}
use piorun.Http.Response

-- A part of a gathered write: where it starts, as an offset into the write buffer's vector or into the
-- file, and its length.
pub record Iovec : Type 0 where
  pub iov_base : ℕ
  pub iov_len : ℕ

pub record Server : Type 0 where
  pub fd : ℕ
  pub is_close : Bool
  pub iov_cnt : ℕ
  pub head : Iovec
  pub file : Iovec
  pub read_buff : Buffer
  pub write_buff : Buffer
  pub request : Request
  pub response : Response

-- init, with userCount.
pub init : Server → ℕ → ℕ → Option (Server × ℕ)
unfolding retrieve_all
init s zero user_count = none
init s (suc fd) user_count = some (
  record s {
    fd = suc fd;
    write_buff = retrieve_all s.write_buff;
    read_buff = retrieve_all s.read_buff;
    is_close = false;
  },
  user_count + 1,
)

-- Close, with userCount and the file descriptor that it closes.
pub close : Server → ℕ → Server × ℕ × Option ℕ
close s user_count =
    let unmapped : Server = record s { response = unmap_file s.response } in
    if s.is_close
    then (unmapped, user_count, none)
    else (record unmapped { is_close = true }, user_count - 1, some s.fd)

-- read, with what the kernel delivers.
pub read : Server → IoResult (List ℕ) → Option (Server × IoResult ℕ)
read s delivered = do r ← read_fd s.read_buff delivered; some (record s { read_buff = r.0 }, r.1)

abbrev pub to_write_bytes : Server → ℕ
to_write_bytes s = add_size s.head.iov_len s.file.iov_len

-- The step of write behind the head: `rest` bytes of the file were sent, and the head if it was left.
pub sent_file : Server → ℕ → Server
unfolding retrieve_all
sent_file s rest =
    let s' : Server = record s {
      file = record { iov_base = s.file.iov_base + rest; iov_len = s.file.iov_len - rest };
    } in
    if s.head.iov_len == 0 then s' else record s' {
      write_buff = retrieve_all s.write_buff;
      head = record { iov_base = s.head.iov_base; iov_len = 0 };
    }

pub sent_head : Server → ℕ → Option Server
sent_head s len = do
  b ← retrieve s.write_buff len
  some (record s {
    write_buff = b;
    head = record { iov_base = s.head.iov_base + len; iov_len = s.head.iov_len - len };
  })

-- write, with the result of writev1.
pub write : Server → IoResult ℕ → Option (Server × IoResult ℕ)
write s (failed errno) = some (s, failed errno)
write s (done zero) = some (s, done zero)
write s (done (suc n)) =
    if to_write_bytes s == 0
    then some (s, done (suc n))
    else if ltb s.head.iov_len (suc n)
    then some (sent_file s (suc n - s.head.iov_len), done (suc n))
    else (do s' ← sent_head s (suc n); some (s', done (suc n)))

-- The bytes of the mapped file.
abbrev pub mapped : Response → List ℕ
mapped r = elim r.mm_file [ none ↦ [] | some bytes ↦ bytes ]

-- The bytes that the two parts stand for.
abbrev pub pending : Server → List ℕ
pending s =
    take s.head.iov_len (drop s.head.iov_base s.write_buff.storage)
    ++ take s.file.iov_len (drop s.file.iov_base (mapped s.response))

abbrev pub is_mapped : Option (List ℕ) → Bool
is_mapped none = false
is_mapped (some bytes) = true

-- The end of process: the two parts of the reply.
pub set_parts : Server → Response → Buffer → Server
set_parts s response b =
    let s' : Server = record s {
      response = response;
      write_buff = b;
      head = record { iov_base = b.read_pos; iov_len = readable_bytes b };
      iov_cnt = 1;
    } in
    if ltb 0 response.file_stat.st_size && is_mapped response.mm_file
    then record s' {
      file = record { iov_base = 0; iov_len = response.file_stat.st_size };
      iov_cnt = 2;
    }
    else s'

module _ {D : Type 0} (mysql_query : ℕ → List ℕ → D → Option (List Row) × D) (fs : FileSystem)
    (src_dir : List ℕ) where
  -- process behind parse: the reply to a request that was read, or to one that was not.
  pub reply : Server → Bool → Request → Buffer → Option Server
  reply s ok r read_buff = do
    response ←
        Response.init s.response src_dir r.path (if ok then is_keep_alive r else false)
          (some (if ok then 200 else 400))
    made ← make_response fs response s.write_buff
    some (set_parts (record s { request = r; read_buff = read_buff }) made.0 made.1)

  pub answer : Server → Result D → Option (Bool × Server × World D)
  answer s (returns ok r b w) = do s' ← reply s ok r b; some (true, s', w)
  answer s (goes_on r b w) = none

  pub process : Server → World D → Option (Bool × Server × World D)
  process s w =
      if readable_bytes s.read_buff == 0
      then some (false, record s { request = Request.init }, w)
      else (do t ← parse mysql_query Request.init s.read_buff w; answer s t)
