-- ===== src/Net/TcpConnection/Tests.antt =====
-- The connection's theorems at concrete connections.
use burger.Common.{ℕ, ◌≤◌, ◌≡◌, ◌≢◌, refl, true, false, some, List, [], ◌∷◌, arith, replicate}
use burger.Net.SocketsOps.{wrote}
use burger.Net.Buffer.{Buffer}
use burger.Net.Buffer.Valid.{IsValid}
use burger.Net.TcpConnection.{
  Conn, connecting, connected, disconnecting, disconnected, send_in_loop, force_close_in_loop,
  connect_established, connection_callback, close_callback,
}
use burger.Net.TcpConnection.Stream.{Inv, Took, send_in_loop-Took}
use burger.Net.TcpConnection.Lifecycle.{
  Reach, here, next, established, forced_in_loop, closes, Reach-forwards,
}

abbrev empty : Buffer
empty = record { bytes = replicate 12 0; reader = 8; writer = 8 }

-- Two bytes wait to be written.
abbrev waiting_bytes : Buffer
waiting_bytes = record {
  bytes = 0 ∷ 0 ∷ 0 ∷ 0 ∷ 0 ∷ 0 ∷ 0 ∷ 0 ∷ 5 ∷ 6 ∷ 0 ∷ 0 ∷ [];
  reader = 8;
  writer = 10;
}

abbrev fresh : Conn
fresh = record {
  status = connecting;
  events = record { reading = false; writing = false };
  tied = false;
  input = empty;
  output = empty;
  high_water = 64;
  on_write_complete = true;
  on_high_water = true;
  queued = [];
  log = [];
  sent = [];
}

abbrev up : Conn
up = record fresh {
  status = connected;
  tied = true;
  events = record { reading = true; writing = false };
  log = connection_callback ∷ [];
}

abbrev waiting : Conn
waiting = record up {
  status = disconnecting;
  events = record { reading = true; writing = true };
  output = waiting_bytes;
}

abbrev text : List ℕ
text = 1 ∷ 2 ∷ 3 ∷ 4 ∷ 5 ∷ []

empty-IsValid : IsValid empty
empty-IsValid = omega arith

up-Inv : Inv up
up-Inv = record { valid = empty-IsValid; idle = λ w. refl }

waiting-Inv : Inv waiting
waiting-Inv = record { valid = omega arith; idle = λ w. cc }

-- The kernel takes two bytes of five.
send_in_loop-Took_example :
    (c : Conn) × (send_in_loop (λ n. wrote 2) text up ≡ some c) × Took text up c
send_in_loop-Took_example =
    send_in_loop-Took (λ n. wrote 2) text up (omega arith) refl up-Inv (omega arith)

abbrev down : Conn
down = record up {
  status = disconnected;
  events = record { reading = false; writing = false };
  log = connection_callback ∷ connection_callback ∷ close_callback ∷ [];
}

fresh-Reach : Reach fresh down
unfolding connect_established force_close_in_loop
fresh-Reach = next (next {d = fresh} here (established refl)) (forced_in_loop closes_now)
  where
    closes_now : force_close_in_loop up ≡ some down
    closes_now = refl

Reach-forwards_example :
    (0 ≤ 3) × (closes down.log ≤ 1) × (disconnected ≢ disconnected → closes down.log ≡ 0)
Reach-forwards_example = Reach-forwards fresh-Reach refl
