-- ===== src/Net/TcpServer.antt =====
-- burger/net/EventLoopThreadPool.cc and burger/net/TcpServer.cc: the loops that connections are dealt to, and
-- the map of connections. A loop is its number; a connection's name is the number that ends it,
-- since the rest is the same for all of a server. A failed `assert` is `none`, and so is the overflow
-- of the `int` that counts the connections.
pub mod Rotation
pub mod Books
mod Tests
use burger.Common.{
  ℕ, suc, ◌+◌, ◌^◌, ◌≡◌, Bool, true, false, not, ◌&&◌, ◌||◌, Option, none, some, List, [], ◌∷◌,
  ◌++◌, leb, ltb, ◌==◌, if◌then◌else◌, ◌>>=◌, ◌>>◌, assert, length, take, get_elem?,
}

pub record Pool : Type 0 where
  pub base_loop : ℕ
  pub started : Bool
  pub num_threads : ℕ
  pub next : ℕ
  pub loops : List ℕ

unfoldable pub init_pool : ℕ → Pool
init_pool base = record { base_loop = base; started = false; num_threads = 0; next = 0; loops = [] }

-- `threads` are the loops that the threads give, in the order in which they are started.
unfoldable pub start_pool : List ℕ → Pool → Option Pool
start_pool threads p =
    assert (not p.started)
    >> some (record p { started = true; loops = p.loops ++ take p.num_threads threads })

unfoldable pub get_next_loop : Pool → Option (ℕ × Pool)
get_next_loop p =
    if length p.loops == 0
    then some (p.base_loop, p)
    else (get_elem? p.loops p.next >>= λ l.
        some (l, record p { next = if leb (length p.loops) (suc p.next) then 0 else suc p.next }))

pub record Conn : Type 0 where
  pub name : ℕ
  pub fd : ℕ
  pub loop : ℕ

pub data Event : Type 0 where
  established destroyed : Conn → Event

-- `next_conn_id` is an `int`; `log` has the functors that the connections' loops are handed.
pub record Server : Type 0 where
  pub pool : Pool
  pub next_conn_id : ℕ
  pub connections : List Conn
  pub log : List Event

-- `std::map::erase`: the number of entries removed, and the rest.
unfoldable pub erase : ℕ → List Conn → ℕ × List Conn
erase name [] = (0, [])
erase name (c ∷ cs) =
    let (n, rest) = erase name cs in if c.name == name then (suc n, rest) else (n, c ∷ rest)

unfoldable pub new_connection : ℕ → Server → Option Server
unfolding get_next_loop erase
new_connection fd s = do
  (io_loop, pool) ← get_next_loop s.pool
  assert (ltb (suc s.next_conn_id) (2 ^ 31))
  let conn : Conn = record { name = s.next_conn_id; fd = fd; loop = io_loop }
  some (record s {
    pool = pool;
    next_conn_id = suc s.next_conn_id;
    connections = conn ∷ (erase conn.name s.connections).1;
    log = s.log ++ (established conn ∷ []);
  })

unfoldable pub remove_connection_in_loop : Conn → Server → Option Server
remove_connection_in_loop conn s = do
  let (n, rest) = erase conn.name s.connections
  assert (n == 1)
  some (record s { connections = rest; log = s.log ++ (destroyed conn ∷ []) })
