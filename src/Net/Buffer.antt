-- ===== src/Net/Buffer.antt =====
-- burger/net/IBuffer.h, burger/net/Buffer.h and burger/net/Buffer.cc. A pointer into the buffer is its
-- index from `begin()`. A call that fails an `assert` or leaves the vector is `none`. A signed
-- integer stands as its two's complement pattern.
pub mod Ints
pub mod Valid
pub mod Queue
mod Tests
pub mod Refine
pub mod Search
pub mod IntLaws
pub mod ReadFd
use burger.Common.{
  ℕ, suc, ◌+◌, ◌&&◌, Option, none, some, List, [], ◌∷◌, ltb, leb, ◌==◌, if◌then◌else◌, ◌>>=◌, ◌>>◌,
  assert, add64, sub64, length, read_bytes, write_bytes, resize,
}

abbrev pub cheap_prepend : ℕ
cheap_prepend = 8

abbrev pub initial_size : ℕ
initial_size = 1024

pub record Buffer : Type 0 where
  pub bytes : List ℕ
  pub reader : ℕ
  pub writer : ℕ

abbrev pub readable_bytes : Buffer → ℕ
readable_bytes b = sub64 b.writer b.reader

abbrev pub writable_bytes : Buffer → ℕ
writable_bytes b = sub64 (length b.bytes) b.writer

abbrev pub prependable_bytes : Buffer → ℕ
prependable_bytes b = b.reader

-- The constructor's members, without its checks.
abbrev pub fresh : List ℕ → Buffer
fresh bytes = record { bytes = bytes; reader = cheap_prepend; writer = cheap_prepend }

unfoldable pub init : ℕ → Option Buffer
init size = do
  bytes ← resize 0 (add64 cheap_prepend size) []
  let b = fresh bytes
  assert (readable_bytes b == 0)
  assert (writable_bytes b == size)
  assert (prependable_bytes b == cheap_prepend)
  some b

unfoldable pub has_written : ℕ → Buffer → Option Buffer
has_written len b = do
  assert (leb len (writable_bytes b))
  some (record b { writer = add64 b.writer len })

-- `std::search` for "\r\n" and `memchr`: the offset of the first match.
unfoldable pub search_crlf : List ℕ → Option ℕ
search_crlf [] = none
search_crlf (x ∷ []) = none
search_crlf (x ∷ y ∷ r) =
    if x == 13 && y == 10 then some 0 else (search_crlf (y ∷ r) >>= λ n. some (suc n))

unfoldable pub search_byte : ℕ → List ℕ → Option ℕ
search_byte c [] = none
search_byte c (x ∷ r) = if x == c then some 0 else (search_byte c r >>= λ n. some (suc n))

-- A match at an offset is the pointer `start + offset`; no match is the null pointer.
abbrev pub pointer : ℕ → Option ℕ → Option ℕ
pointer start none = none
pointer start (some n) = some (start + n)

unfoldable pub find_crlf : Buffer → Option (Option ℕ)
find_crlf b = do
  s ← read_bytes b.bytes b.reader (sub64 b.writer b.reader)
  some (pointer b.reader (search_crlf s))

unfoldable pub find_crlf_from : ℕ → Buffer → Option (Option ℕ)
find_crlf_from start b = do
  assert (leb b.reader start)
  assert (leb start b.writer)
  s ← read_bytes b.bytes start (sub64 b.writer start)
  some (pointer start (search_crlf s))

unfoldable pub find_eol : Buffer → Option (Option ℕ)
find_eol b = do
  s ← read_bytes b.bytes b.reader (readable_bytes b)
  some (pointer b.reader (search_byte 10 s))

unfoldable pub find_eol_from : ℕ → Buffer → Option (Option ℕ)
find_eol_from start b = do
  assert (leb b.reader start)
  assert (leb start b.writer)
  s ← read_bytes b.bytes start (sub64 b.writer start)
  some (pointer start (search_byte 10 s))

unfoldable pub retrieve_all : Buffer → Buffer
retrieve_all b = record b { reader = cheap_prepend; writer = cheap_prepend }

unfoldable pub retrieve : ℕ → Buffer → Option Buffer
unfolding retrieve_all
retrieve len b = do
  assert (leb len (readable_bytes b))
  some (
      if ltb len (readable_bytes b)
      then record b { reader = add64 b.reader len }
      else retrieve_all b)

unfoldable pub retrieve_until : ℕ → Buffer → Option Buffer
retrieve_until end b = do
  assert (leb b.reader end)
  assert (leb end b.writer)
  retrieve (sub64 end b.reader) b

unfoldable pub retrieve_as_string : ℕ → Buffer → Option (List ℕ × Buffer)
retrieve_as_string len b = do
  assert (leb len (readable_bytes b))
  res ← read_bytes b.bytes b.reader len
  b' ← retrieve len b
  some (res, b')

unfoldable pub retrieve_all_as_string : Buffer → Option (List ℕ × Buffer)
unfolding retrieve_as_string
retrieve_all_as_string b = retrieve_as_string (readable_bytes b) b

-- The bytes `[from, from + n)` move to index 8; the copy's source and target may overlap.
unfoldable pub make_space : ℕ → Buffer → Option Buffer
make_space len b =
    if ltb (add64 (writable_bytes b) (prependable_bytes b)) (add64 len cheap_prepend)
    then (resize 0 (add64 b.writer len) b.bytes >>= λ bytes. some (record b { bytes = bytes }))
    else (do
      assert (ltb cheap_prepend b.reader)
      content ← read_bytes b.bytes b.reader (sub64 b.writer b.reader)
      bytes ← write_bytes b.bytes cheap_prepend content
      let b' : Buffer = record {
        bytes = bytes;
        reader = cheap_prepend;
        writer = add64 cheap_prepend (readable_bytes b);
      }
      assert (readable_bytes b == readable_bytes b')
      some b')

unfoldable pub ensure_writable_bytes : ℕ → Buffer → Option Buffer
ensure_writable_bytes len b = do
  b' ← (if ltb (writable_bytes b) len then make_space len b else some b)
  assert (leb len (writable_bytes b'))
  some b'

unfoldable pub append : List ℕ → Buffer → Option Buffer
append text b = do
  b' ← ensure_writable_bytes (length text) b
  bytes ← write_bytes b'.bytes b'.writer text
  has_written (length text) (record b' { bytes = bytes })

unfoldable pub prepend : List ℕ → Buffer → Option Buffer
prepend text b = do
  assert (leb (length text) (prependable_bytes b))
  let reader = sub64 b.reader (length text)
  bytes ← write_bytes b.bytes reader text
  some (record b { bytes = bytes; reader = reader })

-- `other` takes the content, and the two are swapped.
unfoldable pub shrink : ℕ → Buffer → Option Buffer
shrink reserve b = do
  other ← init initial_size
  other' ← ensure_writable_bytes (add64 (readable_bytes b) reserve) other
  content ← read_bytes b.bytes b.reader (readable_bytes b)
  append content other'

-- `swap` exchanges the three members.
unfoldable pub swap : Buffer → Buffer → Buffer × Buffer
swap a b = (b, a)
