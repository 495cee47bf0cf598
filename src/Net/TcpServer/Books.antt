-- ===== src/Net/TcpServer/Books.antt =====
-- The connections of burger/net/TcpServer.cc over every order of its calls.
use burger.Common.{
  ℕ, ◌+◌, ◌≤◌, ◌≡◌, refl, Bool, true, false, some, List, [], ◌∷◌, ◌++◌, arith, if◌then◌else◌, ◌==◌,
  >>=-eq-some,
}
use burger.Net.TcpServer.{
  Pool, Conn, Event, established, destroyed, Server, get_next_loop, new_connection,
  remove_connection_in_loop, erase,
}

abbrev pub start : Pool → Server
start pool = record { pool = pool; next_conn_id = 1; connections = []; log = [] }

-- One call that does not stop the program.
pub data Step (s s' : Server) : Type 0 where
  accepts : (fd : ℕ) → new_connection fd s ≡ some s' → Step s s'
  removes : (conn : Conn) → remove_connection_in_loop conn s ≡ some s' → Step s s'

pub data Reach (s : Server) : Server → Type 0 where
  here : Reach s s
  next : {t u : Server} → Reach s t → Step t u → Reach s u

abbrev pub one_if : Bool → ℕ
one_if true = 1
one_if false = 0

-- How often a name was established, how often destroyed, and how often it is in the map.
abbrev pub established_count : ℕ → List Event → ℕ
established_count name [] = 0
established_count name (established c ∷ log) = one_if (c.name == name) + established_count name log
established_count name (destroyed c ∷ log) = established_count name log

abbrev pub destroyed_count : ℕ → List Event → ℕ
destroyed_count name [] = 0
destroyed_count name (established c ∷ log) = destroyed_count name log
destroyed_count name (destroyed c ∷ log) = one_if (c.name == name) + destroyed_count name log

abbrev pub live_count : ℕ → List Conn → ℕ
live_count name [] = 0
live_count name (c ∷ cs) = one_if (c.name == name) + live_count name cs

module _ (name : ℕ) where
  established_count-append :
      (log rest : List Event)
      → established_count name (log ++ rest)
        ≡ established_count name log + established_count name rest
  established_count-append [] rest = omega arith
  established_count-append (established c ∷ log) rest =
      omega (arith, established_count-append log rest)
  established_count-append (destroyed c ∷ log) rest = established_count-append log rest

  destroyed_count-append :
      (log rest : List Event)
      → destroyed_count name (log ++ rest) ≡ destroyed_count name log + destroyed_count name rest
  destroyed_count-append [] rest = omega arith
  destroyed_count-append (established c ∷ log) rest = destroyed_count-append log rest
  destroyed_count-append (destroyed c ∷ log) rest = omega (arith, destroyed_count-append log rest)

  erase-count :
      (n : ℕ) (cs : List Conn)
      → ((erase n cs).0 ≡ live_count n cs)
        × (live_count name (erase n cs).1 ≡ (if n == name then 0 else live_count name cs))
  unfolding erase
  erase-count n [] = (refl, ground arith)
  erase-count n (c ∷ cs) = let (a, b) = erase-count n cs in (ground arith, ground arith)

  record Kept (s : Server) : Type 0 where
    books :
        established_count name s.log ≡ destroyed_count name s.log + live_count name s.connections
    single : established_count name s.log ≤ 1
    unused : s.next_conn_id ≤ name → established_count name s.log ≡ 0

  new_connection-Kept : (fd : ℕ) (s s' : Server) → Kept s → new_connection fd s ≡ some s' → Kept s'
  unfolding new_connection
  new_connection-Kept fd s s' k h =
      let ((l, pool), e, f) = >>=-eq-some (get_next_loop s.pool) _ h in
      let c : Conn = record { name = s.next_conn_id; fd = fd; loop = l } in
      let (a, b) = erase-count s.next_conn_id s.connections in
      ground (
        arith,
        k,
        b,
        established_count-append s.log (established c ∷ []),
        destroyed_count-append s.log (established c ∷ []),
      )

  remove_connection_in_loop-Kept :
      (conn : Conn) (s s' : Server) → Kept s → remove_connection_in_loop conn s ≡ some s' → Kept s'
  unfolding remove_connection_in_loop
  remove_connection_in_loop-Kept conn s s' k h =
      let (a, b) = erase-count conn.name s.connections in
      ground (
        arith,
        k,
        a,
        b,
        established_count-append s.log (destroyed conn ∷ []),
        destroyed_count-append s.log (destroyed conn ∷ []),
      )

  Step-Kept : {s s' : Server} → Step s s' → Kept s → Kept s'
  Step-Kept {s} {s'} (accepts fd h) k = new_connection-Kept fd s s' k h
  Step-Kept {s} {s'} (removes conn h) k = remove_connection_in_loop-Kept conn s s' k h

  Reach-Kept : {s s' : Server} → Reach s s' → Kept s → Kept s'
  Reach-Kept here k = k
  Reach-Kept (next r m) k = Step-Kept m (Reach-Kept r k)

  -- Over any sequence of connections made and removed that stops a new server neither by a failed
  -- assert nor by an overflow of the int nextConnId_, a name is established at most once, and it
  -- was established as often as it was destroyed and is in the map.
  pub Reach-books :
      (pool : Pool) {s : Server}
      → Reach (start pool) s
      → (established_count name s.log ≡ destroyed_count name s.log + live_count name s.connections)
        × (established_count name s.log ≤ 1)
  Reach-books pool r =
      let k = Reach-Kept r (record { books = refl; single = omega arith; unused = λ h. refl }) in
      (k.books, k.single)
