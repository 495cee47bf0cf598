-- ===== src/Net/TcpClient/Tests.antt =====
-- A client that connects, is closed and connects again, and the theorem at it.
use burger.Common.{ℕ, ◌≡◌, refl, some, none, true, false, List, [], ◌∷◌, Option, ◌>>=◌}
use burger.Net.Connector.{
  init as init_connector, start as start_connector, start_in_loop, connect as connect_socket,
  connecting_on, handle_write, remove_and_reset_channel, settle, connected, opened, handed,
}
use burger.Net.TcpClient.{
  TcpClient, Event, established, new_client, connect, handle_connector_write, new_connection,
  remove_connection,
}
use burger.Net.TcpClient.Again.{gone, connect_again}

abbrev ids : TcpClient → Option (Option ℕ × List Event)
ids c = some (c.connection, c.log)

connected_once :
    (connect true 5 115 new_client >>= handle_connector_write 0 false >>= ids)
    ≡ some (some 1, established 1 ∷ [])
unfolding connect init_connector start_connector start_in_loop connect_socket connecting_on
    handle_connector_write handle_write remove_and_reset_channel settle new_connection
connected_once = refl

-- A client whose connection 1 was made over descriptor 5.
abbrev client : TcpClient
client = record {
  connector = record {
    connect = true;
    status = connected;
    channel = none;
    delay = 500;
    queued = [];
    timers = [];
    log = opened 5 ∷ handed 5 ∷ [];
  };
  retry = false;
  connect = true;
  next_conn_id = 2;
  connection = some 1;
  log = established 1 ∷ [];
}

connect_again_example :
    (remove_connection 1 6 115 client ≡ some (gone 1 client))
    × (connect true 6 115 (gone 1 client) ≡ none)
connect_again_example = connect_again 1 6 115 client refl refl refl
