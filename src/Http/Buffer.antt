-- ===== src/Http/Buffer.antt =====
-- src/piorun/http/buffer.cpp, include/http/buffer.h: the growing byte buffer of a connection.
-- Bytes are numbers, pointers are offsets into the vector. `none` is a failed assertion, a
-- std::length_error, or an access outside the vector; memory does not run out.
pub mod Valid
pub mod Space
pub mod Append
pub mod Transfer
pub mod ReadFd
pub mod Queue
pub mod Tests
use piorun.Prelude.{
  ℕ, ◌+◌, ◌-◌, ◌%◌, ◌^◌, List, [], ◌∷◌, ◌++◌, Option, none, some, Bool, ltb, leb, ◌==◌,
  if◌then◌else◌, length, take, drop, replicate, ◌>>=◌, ◌>>◌, assert,
}

pub record Buffer : Type 0 where
  pub storage : List ℕ
  pub read_pos : ℕ
  pub write_pos : ℕ

abbrev pub size_mod : ℕ
size_mod = 2 ^ 64

-- size_t addition and subtraction.
abbrev pub add_size : ℕ → ℕ → ℕ
add_size a b = (a + b) % size_mod

abbrev pub sub_size : ℕ → ℕ → ℕ
sub_size a b = (a + size_mod - b) % size_mod

-- std::vector<char>::resize beyond max_size() throws.
abbrev pub max_size : ℕ
max_size = 2 ^ 63 - 1

abbrev pub resize : List ℕ → ℕ → Option (List ℕ)
resize s n = if leb n max_size then some (take n s ++ replicate (n - length s) 0) else none

-- Writes `bytes` at `pos`, as std::copy and the kernel do.
abbrev pub write_at : List ℕ → ℕ → List ℕ → Option (List ℕ)
write_at s pos bytes =
    if leb (pos + length bytes) (length s)
    then some (take pos s ++ (bytes ++ drop (pos + length bytes) s))
    else none

pub init : ℕ → Buffer
init size = record { storage = replicate size 0; read_pos = 0; write_pos = 0 }

abbrev pub readable_bytes : Buffer → ℕ
readable_bytes b = sub_size b.write_pos b.read_pos

abbrev pub writable_bytes : Buffer → ℕ
writable_bytes b = sub_size (length b.storage) b.write_pos

abbrev pub prependable_bytes : Buffer → ℕ
prependable_bytes b = b.read_pos

-- The bytes from Peek() on, ReadableBytes() of them.
abbrev pub contents : Buffer → List ℕ
contents b = take (readable_bytes b) (drop b.read_pos b.storage)

pub retrieve : Buffer → ℕ → Option Buffer
retrieve b len = do
  assert (leb len (readable_bytes b))
  some (record b { read_pos = add_size b.read_pos len })

-- `end` is an offset, as Peek() is.
pub retrieve_until : Buffer → ℕ → Option Buffer
unfolding retrieve
retrieve_until b end = do assert (leb b.read_pos end); retrieve b (end - b.read_pos)

unfoldable pub retrieve_all : Buffer → Buffer
retrieve_all b = record { storage = replicate (length b.storage) 0; read_pos = 0; write_pos = 0 }

pub retrieve_all_to_str : Buffer → List ℕ × Buffer
unfolding retrieve_all
retrieve_all_to_str b = (contents b, retrieve_all b)

abbrev pub has_written : Buffer → ℕ → Buffer
has_written b len = record b { write_pos = add_size b.write_pos len }

pub make_space : Buffer → ℕ → Option Buffer
make_space b len =
    if ltb (add_size (writable_bytes b) (prependable_bytes b)) len
    then (do
      s ← resize b.storage (add_size (add_size b.write_pos len) 1)
      some (record b { storage = s }))
    else (do
      let readable = readable_bytes b
      s ← write_at b.storage 0 (contents b)
      let b' : Buffer = record { storage = s; read_pos = 0; write_pos = add_size 0 readable }
      assert (readable == readable_bytes b')
      some b')

pub ensure_writable : Buffer → ℕ → Option Buffer
ensure_writable b len = do
  b' ← if ltb (writable_bytes b) len then make_space b len else some b
  assert (leb len (writable_bytes b'))
  some b'

pub append : Buffer → List ℕ → Option Buffer
append b str = do
  b' ← ensure_writable b (length str)
  s ← write_at b'.storage b'.write_pos str
  some (has_written (record b' { storage = s }) (length str))

-- Append(const Buffer&), of another buffer.
pub append_buffer : Buffer → Buffer → Option Buffer
append_buffer b other = append b (contents other)

-- What a system call returns: -1 with errno, or what it transferred.
pub data IoResult (A : Type 0) : Type 0 where
  failed : ℕ → IoResult A
  done : A → IoResult A

-- ReadFd, with the bytes that readv1 delivers: the first WritableBytes() of them into the vector,
-- the others into the array on the stack. The result is the return value, or the saved errno.
pub read_fd : Buffer → IoResult (List ℕ) → Option (Buffer × IoResult ℕ)
read_fd b (failed errno) = some (b, failed errno)
read_fd b (done bytes) =
    let writable = writable_bytes b in
    let len = length bytes in
    (do
      s ← write_at b.storage b.write_pos (take writable bytes)
      b' ←
          if leb len writable
          then some (has_written (record b { storage = s }) len)
          else append (record b { storage = s; write_pos = length s }) (drop writable bytes)
      some (b', done len))

-- WriteFd, with the number of bytes that write takes; what it is given is `contents b`.
pub write_fd : Buffer → IoResult ℕ → Buffer × IoResult ℕ
write_fd b (failed errno) = (b, failed errno)
write_fd b (done len) = (record b { read_pos = add_size b.read_pos len }, done len)
