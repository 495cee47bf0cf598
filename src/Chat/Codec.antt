-- ===== src/Chat/Codec.antt =====
-- examples/chat/codec.h: messages framed by a length of four bytes in network byte order. The
-- callback's messages are returned in order, and so is whether the connection was shut down.
pub mod Frames
mod Tests
use burger.Common.{
  ℕ, zero, suc, ◌+◌, ◌%◌, ◌^◌, Bool, true, false, ◌&&◌, ◌||◌, Option, none, some, List, [], ◌∷◌,
  ltb, leb, if◌then◌else◌, ◌>>=◌, add64, length, read_bytes,
}
use burger.Net.Endian.{host_to_network, network_to_host}
use burger.Net.Buffer.{Buffer, init, initial_size, readable_bytes, retrieve, append, prepend}

abbrev pub header_len : ℕ
header_len = 4

-- `len > 65536 || len < 0` for the `int32_t` with this pattern.
abbrev pub invalid_length : ℕ → Bool
invalid_length len = (ltb 65536 len && ltb len (2 ^ 31)) || leb (2 ^ 31) len

-- The messages, whether the loop ended in `shutdown`, and the buffer. `none` is a fault, or fuel
-- that ran out: each round takes at least the four bytes of a header.
unfoldable pub decode_loop : ℕ → Buffer → Option (List (List ℕ) × Bool × Buffer)
decode_loop zero b = none
decode_loop (suc fuel) b =
    if leb header_len (readable_bytes b)
    then (do
      be ← read_bytes b.bytes b.reader 4
      let len = network_to_host be
      if invalid_length len
          then some ([], true, b)
          else if leb (add64 len header_len) (readable_bytes b)
          then (do
            b₁ ← retrieve header_len b
            message ← read_bytes b₁.bytes b₁.reader len
            b₂ ← retrieve len b₁
            (messages, shut, b₃) ← decode_loop fuel b₂
            some (message ∷ messages, shut, b₃))
          else some ([], false, b))
    else some ([], false, b)

unfoldable pub decode : Buffer → Option (List (List ℕ) × Bool × Buffer)
decode b = decode_loop (suc (readable_bytes b)) b

-- The buffer that `wrapAndSend` hands to the connection.
unfoldable pub wrap : List ℕ → Option Buffer
wrap text = do
  b ← init initial_size
  b' ← append text b
  prepend (host_to_network 4 (length text % 2 ^ 32)) b'
