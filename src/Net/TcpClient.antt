-- ===== src/Net/TcpClient.antt =====
-- burger/net/TcpClient.h, burger/net/TcpClient.cc: a client's one connection, over its connector. A connection is the
-- number that ends its name. What happens to connections is logged; `none` is a failed assert, or
-- an overflow of the `int` that counts connections.
pub mod Again
mod Tests
use burger.Common.{
  ℕ, suc, ◌+◌, ◌^◌, ltb, Bool, true, false, ◌&&◌, Option, none, some, List, [], ◌∷◌, ◌++◌,
  if◌then◌else◌, ◌==◌, ◌>>=◌, ◌>>◌, assert,
}
use burger.Net.Connector.{
  Connector, init as init_connector, start as start_connector, stop as stop_connector, restart,
  handle_write, is_connecting, handed, Event as ConnectorEvent, opened, closed,
}

pub data Event : Type 0 where
  established shut destroyed force_closed close_callback_set : ℕ → Event

pub record TcpClient : Type 0 where
  pub connector : Connector
  pub retry : Bool
  pub connect : Bool
  pub next_conn_id : ℕ
  pub connection : Option ℕ
  pub log : List Event

abbrev pub new_client : TcpClient
new_client = record {
  connector = init_connector;
  retry = false;
  connect = true;
  next_conn_id = 1;
  connection = none;
  log = [];
}

abbrev pub enable_retry : TcpClient → TcpClient
enable_retry c = record c { retry = true }

-- `fd` and `errno` answer a call of `connect` that the connector makes at once.
unfoldable pub connect : Bool → ℕ → ℕ → TcpClient → Option TcpClient
connect in_loop fd errno c = start_connector in_loop fd errno c.connector >>= λ connector.
    some (record c { connect = true; connector = connector })

abbrev pub shut_event : Option ℕ → List Event
shut_event none = []
shut_event (some id) = shut id ∷ []

unfoldable pub disconnect : TcpClient → TcpClient
disconnect c = record c { connect = false; log = c.log ++ shut_event c.connection }

unfoldable pub stop : TcpClient → TcpClient
stop c = record c { connect = false; connector = stop_connector c.connector }

unfoldable pub new_connection : TcpClient → Option TcpClient
new_connection c =
    assert (ltb (c.next_conn_id + 1) (2 ^ 31))
    >> some (record c {
      next_conn_id = c.next_conn_id + 1;
      connection = some c.next_conn_id;
      log = c.log ++ established c.next_conn_id ∷ [];
    })

abbrev pub is_current : ℕ → Option ℕ → Bool
is_current id none = false
is_current id (some current) = id == current

-- The callback of a connection that is closed; `destroyed` is queued.
unfoldable pub remove_connection : ℕ → ℕ → ℕ → TcpClient → Option TcpClient
remove_connection id fd errno c =
    let c' : TcpClient = record c { connection = none; log = c.log ++ destroyed id ∷ [] } in
    assert (is_current id c.connection)
    >> (if c.retry && c.connect
        then (restart fd errno c.connector >>= λ connector.
            some (record c' { connector = connector }))
        else some c')

abbrev pub was_handed : List ConnectorEvent → Bool
was_handed [] = false
was_handed (handed fd ∷ []) = true
was_handed (opened fd ∷ []) = false
was_handed (closed fd ∷ []) = false
was_handed (e ∷ f ∷ log) = was_handed (f ∷ log)

-- The connector's socket can be written: a connection that it hands over is the client's.
unfoldable pub handle_connector_write : ℕ → Bool → TcpClient → Option TcpClient
unfolding new_connection
handle_connector_write err self c = handle_write err self c.connector >>= λ connector.
    (let c' : TcpClient = record c { connector = connector } in
      if is_connecting c.connector.status && was_handed connector.log
      then new_connection c'
      else some c')

-- The destructor. `unique` says that nothing else holds the connection.
abbrev pub finish_with : Bool → Option ℕ → TcpClient → TcpClient
finish_with unique none c = record c { connector = stop_connector c.connector }
finish_with unique (some id) c = record c {
  log = c.log ++ close_callback_set id ∷ (if unique then force_closed id ∷ [] else []);
}

unfoldable pub finish : Bool → TcpClient → TcpClient
finish unique c = finish_with unique c.connection c
