-- ===== src/Net/RingBuffer.antt =====
-- burger/net/RingBuffer.h and burger/net/RingBuffer.cc. A pointer into the buffer is its index from
-- `begin()`, `size_t` wraps, and a failed `assert`, an access outside the vector and a remainder by
-- zero are `none`.
pub mod Ints
pub mod ReadFd
pub mod Linear
pub mod Wrapped
mod Tests
use burger.Common.{
  ℕ, zero, suc, ◌+◌, ◌*◌, ◌%◌, Bool, true, false, ◌&&◌, ◌||◌, Option, none, some, List, [], ◌∷◌,
  ◌++◌, ltb, leb, ◌==◌, if◌then◌else◌, ◌>>=◌, ◌>>◌, assert, add64, sub64, length, take, drop,
  get_elem?, slice, write_at, read_bytes, write_bytes, resize,
}
use burger.Net.Buffer.{cheap_prepend, initial_size, search_crlf, search_byte}

pub record Ring : Type 0 where
  pub bytes : List ℕ
  pub reader : ℕ
  pub writer : ℕ
  pub capacity : ℕ
  pub total : ℕ
  pub has_data : Bool

abbrev pub readable_bytes : Ring → ℕ
readable_bytes r =
    if r.has_data
    then (if ltb r.reader r.writer
        then sub64 r.writer r.reader
        else sub64 r.capacity (sub64 r.reader r.writer))
    else 0

abbrev pub writable_bytes : Ring → ℕ
writable_bytes r =
    if r.has_data
    then (if ltb r.reader r.writer
        then (if ltb (2 * cheap_prepend) r.reader
            then add64 (sub64 r.total r.writer) (sub64 r.reader (2 * cheap_prepend))
            else sub64 r.total r.writer)
        else (if leb cheap_prepend (sub64 r.reader r.writer)
            then sub64 (sub64 r.reader r.writer) cheap_prepend
            else 0))
    else r.capacity

abbrev pub prependable_bytes : Ring → ℕ
prependable_bytes r =
    if r.has_data
    then (if ltb r.reader r.writer || r.writer == cheap_prepend
        then r.reader
        else sub64 r.reader r.writer)
    else cheap_prepend

unfoldable pub init : ℕ → Option Ring
init size = do
  bytes ← resize 0 (add64 cheap_prepend size) []
  let r : Ring = record {
    bytes = bytes;
    reader = cheap_prepend;
    writer = cheap_prepend;
    capacity = size;
    total = add64 cheap_prepend size;
    has_data = false;
  }
  assert (readable_bytes r == 0)
  assert (writable_bytes r == size)
  assert (prependable_bytes r == cheap_prepend)
  some r

unfoldable pub swap : Ring → Ring → Ring × Ring
swap a b = (b, a)

abbrev pub remainder : ℕ → ℕ → Option ℕ
remainder a b = if b == 0 then none else some (a % b)

unfoldable pub has_written : ℕ → Ring → Option Ring
has_written len r = do
  assert (leb len (writable_bytes r))
  writer ← remainder (add64 r.writer len) r.capacity
  some (record r { writer = writer; has_data = ltb 0 len || r.has_data })

-- `std::search` for "\r\n" between two pointers: the first match, or the end.
abbrev pub search_between : List ℕ → ℕ → ℕ → Option ℕ
search_between bytes start stop = do
  s ← read_bytes bytes start (sub64 stop start)
  some (elim (search_crlf s) [ none ↦ stop | some n ↦ start + n ])

-- `memchr` for a newline.
abbrev pub newline_between : List ℕ → ℕ → ℕ → Option (Option ℕ)
newline_between bytes start stop = do
  s ← read_bytes bytes start (sub64 stop start)
  some (elim (search_byte 10 s) [ none ↦ none | some n ↦ some (start + n) ])

abbrev pub byte_is : Option ℕ → ℕ → Bool
byte_is none c = false
byte_is (some x) c = x == c

abbrev pub null_at : ℕ → ℕ → Option ℕ
null_at stop p = if p == stop then none else some p

-- The search that goes round the end of the vector.
abbrev pub crlf_round : ℕ → Ring → Option ℕ
crlf_round start r = do
  crlf ← search_between r.bytes start (length r.bytes)
  if crlf == length r.bytes
      then (if byte_is (get_elem? r.bytes (sub64 (length r.bytes) 1)) 13
            && byte_is (get_elem? r.bytes cheap_prepend) 10
          then some (sub64 (length r.bytes) 1)
          else search_between r.bytes cheap_prepend r.writer)
      else some crlf

unfoldable pub find_crlf : Ring → Option (Option ℕ)
find_crlf r =
    if r.has_data
    then (do
      crlf ←
          (if ltb r.reader r.writer
            then search_between r.bytes r.reader r.writer
            else crlf_round r.reader r)
      some (null_at r.writer crlf))
    else some none

unfoldable pub find_crlf_from : ℕ → Ring → Option (Option ℕ)
find_crlf_from start r =
    if r.has_data
    then (do
      crlf ←
          (if ltb r.reader r.writer || leb start r.writer
            then search_between r.bytes start r.writer
            else crlf_round start r)
      some (null_at r.writer crlf))
    else some none

abbrev pub or_else : Option ℕ → Option (Option ℕ) → Option (Option ℕ)
or_else none other = other
or_else (some p) other = some (some p)

unfoldable pub find_eol : Ring → Option (Option ℕ)
find_eol r =
    if r.has_data
    then (if ltb r.reader r.writer
        then newline_between r.bytes r.reader (add64 r.reader (readable_bytes r))
        else (do
          eol ← newline_between r.bytes r.reader (length r.bytes)
          or_else eol (newline_between r.bytes cheap_prepend r.writer)))
    else some none

unfoldable pub find_eol_from : ℕ → Ring → Option (Option ℕ)
find_eol_from start r =
    if r.has_data
    then newline_between r.bytes start
        (if ltb r.reader r.writer || leb start r.writer then r.writer else length r.bytes)
    else some none

unfoldable pub retrieve_all : Ring → Ring
retrieve_all r = record r { reader = cheap_prepend; writer = cheap_prepend; has_data = false }

unfoldable pub retrieve : ℕ → Ring → Option Ring
unfolding retrieve_all
retrieve len r = do
  assert (leb len (readable_bytes r))
  if ltb len (readable_bytes r)
      then (remainder (add64 r.reader len) r.capacity >>= λ reader.
          some (record r { reader = reader }))
      else some (retrieve_all r)

unfoldable pub retrieve_until : ℕ → Ring → Option Ring
retrieve_until p r =
    if r.has_data
    then (if leb r.reader p then retrieve (sub64 p r.reader) r else (do
      assert (leb p r.writer)
      r' ← retrieve (sub64 (length r.bytes) r.reader) r
      retrieve (sub64 p cheap_prepend) r'))
    else some r

-- The bytes that `retrieveAsString` copies, in one part or in two.
abbrev pub copy_out : ℕ → Ring → Option (List ℕ)
copy_out len r =
    if ltb r.reader r.writer || leb (add64 r.reader len) r.total
    then read_bytes r.bytes r.reader len
    else (do
      let first = sub64 r.total r.reader
      a ← read_bytes r.bytes r.reader first
      b ← read_bytes r.bytes cheap_prepend (sub64 len first)
      some (a ++ b))

unfoldable pub retrieve_as_string : ℕ → Ring → Option (List ℕ × Ring)
retrieve_as_string len r = do
  assert (leb len (readable_bytes r))
  res ← copy_out len r
  r' ← retrieve len r
  some (res, (if readable_bytes r' == 0 then record r' { has_data = false } else r'))

unfoldable pub retrieve_all_as_string : Ring → Option (List ℕ × Ring)
unfolding retrieve_as_string
retrieve_all_as_string r = retrieve_as_string (readable_bytes r) r

-- `ensureWritableBytes` and `append` over the `makeSpace` that they call.
unfoldable pub ensure_with : (ℕ → Ring → Option Ring) → ℕ → Ring → Option Ring
ensure_with make len r = do
  r' ← (if ltb (writable_bytes r) len then make len r else some r)
  assert (leb len (writable_bytes r'))
  some r'

-- The bytes of `append`, in one part or in two.
abbrev pub copy_in : List ℕ → Ring → Option (List ℕ)
copy_in text r =
    if ltb r.reader r.writer && ltb r.total (add64 r.writer (length text))
    then (do
      let first = sub64 r.total r.writer
      bytes ← write_bytes r.bytes r.writer (take first text)
      write_bytes bytes cheap_prepend (drop first text))
    else write_bytes r.bytes r.writer text

unfoldable pub append_with : (ℕ → Ring → Option Ring) → List ℕ → Ring → Option Ring
append_with make text r = do
  r' ← ensure_with make (length text) r
  bytes ← copy_in text r'
  has_written (length text) (record r' { bytes = bytes })

-- In its last branch `makeSpace` fills a new ring, which has no data and so does not come back to that
-- branch: two levels are enough.
unfoldable pub make_space_at : ℕ → ℕ → Ring → Option Ring
make_space_at zero len r = none
make_space_at (suc depth) len r =
    if r.has_data
    then (if ltb r.reader r.writer
        then (resize 0 (add64 r.writer len) r.bytes >>= λ bytes. some (record r {
          bytes = bytes;
          total = length bytes;
          capacity = sub64 (length bytes) cheap_prepend;
        }))
        else (do
          other ← init initial_size
          other' ← ensure_with (make_space_at depth) (add64 (readable_bytes r) len) other
          (text, _) ← retrieve_all_as_string r
          append_with (make_space_at depth) text other'))
    else (resize 0 (add64 cheap_prepend len) r.bytes >>= λ bytes. some (record r {
      bytes = bytes;
      reader = cheap_prepend;
      writer = cheap_prepend;
      total = length bytes;
      capacity = sub64 (length bytes) cheap_prepend;
    }))

unfoldable pub make_space : ℕ → Ring → Option Ring
unfolding make_space_at
make_space = make_space_at 2

unfoldable pub ensure_writable_bytes : ℕ → Ring → Option Ring
unfolding ensure_with
ensure_writable_bytes = ensure_with make_space

unfoldable pub append : List ℕ → Ring → Option Ring
unfolding append_with
append = append_with make_space

unfoldable pub prepend : List ℕ → Ring → Option Ring
prepend text r = do
  assert (leb (length text) (prependable_bytes r))
  let reader = sub64 r.reader (length text)
  bytes ← write_bytes r.bytes reader text
  some (record r { bytes = bytes; reader = reader })

unfoldable pub shrink : ℕ → Ring → Option Ring
shrink reserve r = do
  other ← init initial_size
  other' ← ensure_writable_bytes (add64 (readable_bytes r) reserve) other
  (text, _) ← retrieve_all_as_string r
  append text other'
