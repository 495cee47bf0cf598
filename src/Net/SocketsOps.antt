-- ===== src/Net/SocketsOps.antt =====
-- What the calls of burger/net/SocketsOps.cc into the kernel answer: each is a result that the caller of
-- a model supplies.
use burger.Common.{ℕ, List}

-- `read` and `readv`: the bytes that arrived, none at the end of the stream, or -1 and `errno`.
pub data Received : Type 0 where
  got : List ℕ → Received
  failed : ℕ → Received

-- `write`: how many bytes were taken, or -1 and `errno`.
pub data Sent : Type 0 where
  wrote : ℕ → Sent
  refused : ℕ → Sent
