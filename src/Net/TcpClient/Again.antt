-- ===== src/Net/TcpClient/Again.antt =====
-- burger/net/TcpClient.cc: what a client can do once its connection is closed.
use burger.Common.{ℕ, ◌≡◌, refl, ap, ◌∙◌, true, false, ◌&&◌, none, some, [], ◌∷◌, ◌++◌, ==_refl}
use burger.Net.Connector.{
  Connector, connected, connecting, start, restart, start_in_loop, connecting_on, opened,
  on_its_way, connect as connect_socket, init_retry_delay_ms,
}
use burger.Net.TcpClient.{TcpClient, destroyed, remove_connection, connect, is_current}

-- A connector that has handed its connection over starts again as a new one.
restart_lem :
    (fd errno : ℕ) (c : Connector)
    → c.channel ≡ none
    → on_its_way errno ≡ true
    → restart fd errno c
      ≡ some (record c {
        connect = true;
        status = connecting;
        channel = some fd;
        delay = init_retry_delay_ms;
        log = c.log ++ opened fd ∷ [];
      })
unfolding restart start_in_loop connect_socket connecting_on
restart_lem fd errno c e h = rw (h, e) refl

start_connected :
    (fd errno : ℕ) (c : Connector) → c.status ≡ connected → start true fd errno c ≡ none
unfolding start start_in_loop
start_connected fd errno c e = rw (e) refl

abbrev pub gone : ℕ → TcpClient → TcpClient
gone id c = record c { connection = none; log = c.log ++ destroyed id ∷ [] }

is_current_lem :
    (id : ℕ) (c : TcpClient) → c.connection ≡ some id → is_current id c.connection ≡ true
is_current_lem id c e = ap (is_current id) e ∙ ==_refl id

-- A client that is to retry connects again at once, on a new descriptor and with the first delay.
pub reconnect_lem :
    (id fd errno : ℕ) (c : TcpClient)
    → c.connection ≡ some id
    → c.connector.channel ≡ none
    → on_its_way errno ≡ true
    → (c.retry && c.connect) ≡ true
    → remove_connection id fd errno c
      ≡ some (record (gone id c) {
        connector = record c.connector {
          connect = true;
          status = connecting;
          channel = some fd;
          delay = init_retry_delay_ms;
          log = c.connector.log ++ opened fd ∷ [];
        };
      })
unfolding remove_connection
reconnect_lem id fd errno c e h w b =
    rw (is_current_lem id c e, b, restart_lem fd errno c.connector h w) refl

-- When the connection of a client that is not to retry is closed, while its connector is in the
-- connected state in which it handed the connection over, the client forgets the connection, and
-- its next connect in the loop fails the assert of startInLoop.
pub connect_again :
    (id fd errno : ℕ) (c : TcpClient)
    → c.connection ≡ some id
    → c.connector.status ≡ connected
    → (c.retry && c.connect) ≡ false
    → (remove_connection id fd errno c ≡ some (gone id c))
      × (connect true fd errno (gone id c) ≡ none)
unfolding remove_connection connect
connect_again id fd errno c e s b =
    (rw (is_current_lem id c e, b) refl, rw (start_connected fd errno c.connector s) refl)
