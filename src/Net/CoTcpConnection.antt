-- ===== src/Net/CoTcpConnection.antt =====
-- burger/net/CoTcpConnection.cc: a connection that a coroutine reads and writes as if its calls blocked. What
-- the calls of `write` and `readv` answer is an argument; they are the ones of burger/net/Hook.cc, which
-- wait. `none` is an access outside an object or a failed assert.
pub mod Sends
mod Tests
use burger.Common.{
  ℕ, zero, suc, ◌+◌, ◌-◌, ◌≤◌, ◌%◌, ◌^◌, Bool, true, false, Option, none, some, List, [], ◌∷◌, ◌++◌,
  if◌then◌else◌, ◌>>=◌, ◌>>◌, leb, ◌==◌, add64, sub64, length, take, drop,
}
use burger.Net.SocketsOps.{Received, got, failed, Sent, wrote, refused}
use burger.Net.Buffer.{Buffer, readable_bytes, retrieve, retrieve_all_as_string}
use burger.Net.Buffer.ReadFd.{read_fd}

abbrev pub ewouldblock : ℕ
ewouldblock = 11

-- The loop of `sendInProc` has sent all, has more to send behind the last answer, or gave up.
pub data Status : Type 0 where
  finished waiting broken : Status

pub record Out : Type 0 where
  pub sent : List ℕ
  pub status : Status

abbrev pub out : Status → List ℕ → Option Out
out status sent = some (record { sent = sent; status = status })

-- `memory` is the object that `start` points into; `size` is a `size_t`. What was sent is kept in
-- `sent`.
unfoldable pub write_loop : List Sent → List ℕ → ℕ → ℕ → List ℕ → Option Out
write_loop answers memory start zero sent = out finished sent
write_loop [] memory start (suc size) sent = out waiting sent
write_loop (wrote n ∷ answers) memory start (suc size) sent =
    let rest =
      write_loop answers memory (add64 start n) (sub64 (suc size) n)
        (sent ++ take n (take (suc size) (drop start memory))) in
    if leb (start + suc size) (length memory) then rest else none
write_loop (refused e ∷ answers) memory start (suc size) sent =
    let rest = write_loop answers memory start (suc size) sent in
    if leb (start + suc size) (length memory)
    then (if e == ewouldblock then rest else out broken sent)
    else none

-- `tasks` are the messages that other threads handed to the processor.
pub record CoTcpConnection : Type 0 where
  pub quit : Bool
  pub tasks : List (List ℕ)

abbrev pub broke : Status → CoTcpConnection → CoTcpConnection
broke finished c = c
broke waiting c = c
broke broken c = record c { quit = true }

-- What was sent, whether the loop waits for more answers, and the connection.
abbrev pub give_up : CoTcpConnection → Option Out → Option (Out × CoTcpConnection)
give_up c none = none
give_up c (some o) = some (o, broke o.status c)

unfoldable pub send_in_proc :
    List Sent → List ℕ → ℕ → ℕ → CoTcpConnection → Option (Out × CoTcpConnection)
unfolding write_loop
send_in_proc answers memory start size c =
    if c.quit
    then some (record { sent = []; status = finished }, c)
    else give_up c (write_loop answers memory start size [])

-- A string, behind whose end a zero stands.
unfoldable pub send_message : List Sent → List ℕ → CoTcpConnection → Option (Out × CoTcpConnection)
unfolding send_in_proc
send_message answers message c = send_in_proc answers (message ++ 0 ∷ []) 0 (length message) c

-- `send` of a string.
unfoldable pub send : Bool → List Sent → List ℕ → CoTcpConnection → Option (Out × CoTcpConnection)
unfolding send_message
send in_proc answers message c =
    if in_proc
    then send_message answers message c
    else some
        (record { sent = []; status = finished }, record c { tasks = c.tasks ++ message ∷ [] })

-- `send` of a buffer's pointer.
unfoldable pub send_all :
    Bool → List Sent → Buffer → CoTcpConnection → Option (Out × Buffer × CoTcpConnection)
unfolding send
send_all in_proc answers b c = do
  (message, b') ← retrieve_all_as_string b
  (o, c') ← send in_proc answers message c
  some (o, b', c')

-- What of a buffer is dropped; a loop that still waits has not come to it.
abbrev pub retrieve_after :
    ℕ → Buffer → Out × CoTcpConnection → Option (Out × Buffer × CoTcpConnection)
retrieve_after size b (o, c) = elim o.status [
  | waiting ↦ some (o, b, c)
  | finished ↦ (retrieve size b >>= λ b'. some (o, b', c))
  | broken ↦ (retrieve size b >>= λ b'. some (o, b', c))
]

-- `send` of a shared buffer in the processor's thread.
unfoldable pub send_buffer_in_proc :
    List Sent → ℕ → Buffer → CoTcpConnection → Option (Out × Buffer × CoTcpConnection)
unfolding send_in_proc
send_buffer_in_proc answers size b c =
    send_in_proc answers b.bytes b.reader size c >>= retrieve_after size b

abbrev pub shutdown : CoTcpConnection → CoTcpConnection
shutdown c = record c { quit = true }

unfoldable pub recv : (ℕ → Received) → Buffer → CoTcpConnection → Option (Received × Buffer)
recv readv b c = if c.quit then some (got [], b) else read_fd readv b
