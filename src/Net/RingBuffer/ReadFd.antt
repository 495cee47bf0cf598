-- ===== src/Net/RingBuffer/ReadFd.antt =====
-- `RingBuffer::readFd` of burger/net/RingBuffer.cc. It offers both parts of the vector to `readv` always.
use burger.Common.{
  ℕ, ◌+◌, true, not, ◌||◌, Option, some, ltb, leb, if◌then◌else◌, ◌>>=◌, add64, sub64, length, take,
  drop, write_bytes,
}
use burger.Net.SocketsOps.{Received, got, failed}
use burger.Net.Buffer.ReadFd.{extra_size}
use burger.Net.RingBuffer.{Ring, writable_bytes, append}

abbrev pub free_run : Ring → ℕ
free_run r =
    if not r.has_data || ltb r.writer r.reader then writable_bytes r else sub64 r.total r.writer

-- The kernel fills the free run first, and the stack buffer with the rest. `writer` does not wrap here.
abbrev pub received : Received → Ring → Option (Received × Ring)
received (failed e) r = some (failed e, r)
received (got text) r = do
  bytes ← write_bytes r.bytes r.writer (take (free_run r) text)
  let r' : Ring = record r { bytes = bytes; has_data = true }
  r'' ←
      (if leb (length text) (free_run r)
        then some (record r' { writer = add64 r.writer (length text) })
        else append (drop (free_run r) text) (record r' { writer = add64 r.writer (free_run r) }))
  some (got text, r'')

unfoldable pub read_fd : (ℕ → Received) → Ring → Option (Received × Ring)
read_fd readv r = received (readv (free_run r + extra_size)) r
