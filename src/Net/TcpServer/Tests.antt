-- ===== src/Net/TcpServer/Tests.antt =====
-- A server with two loops, and the theorems at its states.
use burger.Common.{◌+◌, ◌≤◌, ◌≡◌, refl, true, some, [], ◌∷◌}
use burger.Net.TcpServer.{
  Pool, Conn, Server, established, destroyed, start_pool, init_pool, get_next_loop, new_connection,
  remove_connection_in_loop, erase,
}
use burger.Net.TcpServer.Books.{
  start, Reach, here, next, accepts, removes, established_count, destroyed_count, live_count,
  Reach-books,
}

abbrev two : Pool
two = record { base_loop = 1; started = true; num_threads = 2; next = 0; loops = 10 ∷ 20 ∷ [] }

pool_started : start_pool (10 ∷ 20 ∷ []) (record (init_pool 1) { num_threads = 2 }) ≡ some two
unfolding start_pool init_pool
pool_started = refl

abbrev conn : Conn
conn = record { name = 1; fd = 7; loop = 10 }

abbrev one : Server
one = record {
  pool = record two { next = 1 };
  next_conn_id = 2;
  connections = conn ∷ [];
  log = established conn ∷ [];
}

abbrev closed : Server
closed = record one { connections = []; log = established conn ∷ destroyed conn ∷ [] }

closed_reached : Reach (start two) closed
unfolding new_connection get_next_loop erase remove_connection_in_loop
closed_reached = next {t = one} (next here (accepts 7 refl)) (removes conn refl)

Reach-books_example :
    (established_count 1 closed.log
      ≡ destroyed_count 1 closed.log + live_count 1 closed.connections)
    × (established_count 1 closed.log ≤ 1)
Reach-books_example = Reach-books 1 two closed_reached
