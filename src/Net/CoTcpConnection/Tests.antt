-- ===== src/Net/CoTcpConnection/Tests.antt =====
-- Sends of a coroutine's connection, and the theorems at them.
use burger.Common.{◌≡◌, refl, true, false, some, List, [], ◌∷◌, ℕ}
use burger.Net.SocketsOps.{Sent, wrote, refused}
use burger.Net.Buffer.{retrieve, retrieve_all}
use burger.Net.CoTcpConnection.{
  CoTcpConnection, finished, broken, ewouldblock, write_loop, send_in_proc, send_message, send,
  send_buffer_in_proc,
}

abbrev conn : CoTcpConnection
conn = record { quit = false; tasks = [] }

abbrev hello : List ℕ
hello = 104 ∷ 101 ∷ 108 ∷ 108 ∷ 111 ∷ []

-- The peer resets behind two bytes.
abbrev reset_answers : List Sent
reset_answers = refused ewouldblock ∷ wrote 2 ∷ refused 104 ∷ wrote 3 ∷ []

reset_sent :
    send true reset_answers hello conn
    ≡ some (record { sent = 104 ∷ 101 ∷ []; status = broken }, record conn { quit = true })
unfolding send send_message send_in_proc write_loop
reset_sent = refl

-- The bytes sent of a buffer leave it.
buffer_sent :
    send_buffer_in_proc
      (wrote 2 ∷ wrote 1 ∷ [])
      3
      (record { bytes = 0 ∷ hello; reader = 1; writer = 6 })
      conn
    ≡ some (
      record { sent = 104 ∷ 101 ∷ 108 ∷ []; status = finished },
      record { bytes = 0 ∷ hello; reader = 4; writer = 6 },
      conn,
    )
unfolding send_buffer_in_proc send_in_proc write_loop retrieve retrieve_all
buffer_sent = refl

abbrev parts : List Sent
parts = wrote 2 ∷ refused ewouldblock ∷ wrote 3 ∷ []
