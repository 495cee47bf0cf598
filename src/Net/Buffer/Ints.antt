-- ===== src/Net/Buffer/Ints.antt =====
-- The integers of burger/net/Buffer.h and burger/net/Buffer.cc: `peekInt`, `readInt`, `retrieveInt` and
-- `appendInt` at their widths of 8, 4, 2 and 1 bytes.
use burger.Common.{ℕ, Option, some, leb, ◌>>=◌, ◌>>◌, assert, read_bytes}
use burger.Net.Endian.{host_to_network, network_to_host}
use burger.Net.Buffer.{Buffer, readable_bytes, retrieve, append}

-- What the members of each family share, for `k` bytes.
abbrev pub peek_int : ℕ → Buffer → Option ℕ
peek_int k b = do
  assert (leb k (readable_bytes b))
  be ← read_bytes b.bytes b.reader k
  some (network_to_host be)

abbrev pub read_int : (Buffer → Option ℕ) → (Buffer → Option Buffer) → Buffer → Option (ℕ × Buffer)
read_int peek retrieve_int b = do res ← peek b; b' ← retrieve_int b; some (res, b')

abbrev pub append_int : ℕ → ℕ → Buffer → Option Buffer
append_int k x b = append (host_to_network k x) b

unfoldable pub retrieve_int64 : Buffer → Option Buffer
retrieve_int64 b = retrieve 8 b

unfoldable pub retrieve_int32 : Buffer → Option Buffer
retrieve_int32 b = retrieve 4 b

unfoldable pub retrieve_int16 : Buffer → Option Buffer
retrieve_int16 b = retrieve 2 b

unfoldable pub retrieve_int8 : Buffer → Option Buffer
retrieve_int8 b = retrieve 1 b

unfoldable pub peek_int64 : Buffer → Option ℕ
peek_int64 b = peek_int 8 b

unfoldable pub peek_int32 : Buffer → Option ℕ
peek_int32 b = peek_int 4 b

unfoldable pub peek_int16 : Buffer → Option ℕ
peek_int16 b = peek_int 2 b

unfoldable pub peek_int8 : Buffer → Option ℕ
peek_int8 b = peek_int 1 b

unfoldable pub read_int64 : Buffer → Option (ℕ × Buffer)
unfolding peek_int64 retrieve_int64
read_int64 b = read_int peek_int64 retrieve_int64 b

unfoldable pub read_int32 : Buffer → Option (ℕ × Buffer)
unfolding peek_int32 retrieve_int32
read_int32 b = read_int peek_int32 retrieve_int32 b

unfoldable pub read_int16 : Buffer → Option (ℕ × Buffer)
unfolding peek_int16 retrieve_int16
read_int16 b = read_int peek_int16 retrieve_int16 b

unfoldable pub read_int8 : Buffer → Option (ℕ × Buffer)
unfolding peek_int8 retrieve_int8
read_int8 b = read_int peek_int8 retrieve_int8 b

unfoldable pub append_int64 : ℕ → Buffer → Option Buffer
append_int64 x b = append_int 8 x b

unfoldable pub append_int32 : ℕ → Buffer → Option Buffer
append_int32 x b = append_int 4 x b

unfoldable pub append_int16 : ℕ → Buffer → Option Buffer
append_int16 x b = append_int 2 x b

unfoldable pub append_int8 : ℕ → Buffer → Option Buffer
append_int8 x b = append_int 1 x b
