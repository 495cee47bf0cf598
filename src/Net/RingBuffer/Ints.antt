-- ===== src/Net/RingBuffer/Ints.antt =====
-- The integers of burger/net/RingBuffer.h and burger/net/RingBuffer.cc at their four widths.
use burger.Common.{
  ℕ, Option, some, ◌++◌, leb, if◌then◌else◌, ◌>>=◌, ◌>>◌, assert, sub64, read_bytes,
}
use burger.Net.Endian.{host_to_network, network_to_host}
use burger.Net.Buffer.{cheap_prepend}
use burger.Net.RingBuffer.{Ring, readable_bytes, retrieve, append}

-- `k` bytes, read in one part or round the end of the vector.
abbrev pub peek_int : ℕ → Ring → Option ℕ
peek_int k r = do
  assert (leb k (readable_bytes r))
  let len = sub64 r.total r.reader
  be ←
      (if leb k len then read_bytes r.bytes r.reader k else (do
        a ← read_bytes r.bytes r.reader len
        b ← read_bytes r.bytes cheap_prepend (sub64 k len)
        some (a ++ b)))
  some (network_to_host be)

unfoldable pub retrieve_int64 : Ring → Option Ring
retrieve_int64 r = retrieve 8 r

unfoldable pub retrieve_int32 : Ring → Option Ring
retrieve_int32 r = retrieve 4 r

unfoldable pub retrieve_int16 : Ring → Option Ring
retrieve_int16 r = retrieve 2 r

unfoldable pub retrieve_int8 : Ring → Option Ring
retrieve_int8 r = retrieve 1 r

unfoldable pub peek_int64 : Ring → Option ℕ
peek_int64 r = peek_int 8 r

unfoldable pub peek_int32 : Ring → Option ℕ
peek_int32 r = peek_int 4 r

unfoldable pub peek_int16 : Ring → Option ℕ
peek_int16 r = peek_int 2 r

-- One byte is read in place.
unfoldable pub peek_int8 : Ring → Option ℕ
peek_int8 r = do
  assert (leb 1 (readable_bytes r))
  be ← read_bytes r.bytes r.reader 1
  some (network_to_host be)

abbrev pub read_int : (Ring → Option ℕ) → (Ring → Option Ring) → Ring → Option (ℕ × Ring)
read_int peek retrieve_int r = do res ← peek r; r' ← retrieve_int r; some (res, r')

unfoldable pub read_int64 : Ring → Option (ℕ × Ring)
unfolding peek_int64 retrieve_int64
read_int64 r = read_int peek_int64 retrieve_int64 r

unfoldable pub read_int32 : Ring → Option (ℕ × Ring)
unfolding peek_int32 retrieve_int32
read_int32 r = read_int peek_int32 retrieve_int32 r

unfoldable pub read_int16 : Ring → Option (ℕ × Ring)
unfolding peek_int16 retrieve_int16
read_int16 r = read_int peek_int16 retrieve_int16 r

unfoldable pub read_int8 : Ring → Option (ℕ × Ring)
unfolding peek_int8 retrieve_int8
read_int8 r = read_int peek_int8 retrieve_int8 r

unfoldable pub append_int64 : ℕ → Ring → Option Ring
append_int64 x r = append (host_to_network 8 x) r

unfoldable pub append_int32 : ℕ → Ring → Option Ring
append_int32 x r = append (host_to_network 4 x) r

unfoldable pub append_int16 : ℕ → Ring → Option Ring
append_int16 x r = append (host_to_network 2 x) r

unfoldable pub append_int8 : ℕ → Ring → Option Ring
append_int8 x r = append (host_to_network 1 x) r
