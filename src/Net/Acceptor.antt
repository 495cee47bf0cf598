-- ===== src/Net/Acceptor.antt =====
-- burger/net/Acceptor.h, burger/net/Acceptor.cc: the descriptor that accepts, and the spare one that is given up
-- when the process has no more. What `accept` and `open` answer is an argument; what becomes of
-- descriptors is logged.
pub mod Balance
mod Tests
use burger.Common.{
  ℕ, Bool, true, false, Option, none, some, List, [], ◌∷◌, ◌++◌, if◌then◌else◌, ◌==◌, ◌>>=◌, ◌>>◌,
  assert, ltb,
}

pub data Event : Type 0 where
  opened closed handed : ℕ → Event

-- `accept`: a descriptor, or -1 and `errno`.
pub data Accepted : Type 0 where
  accepted : ℕ → Accepted
  refused : ℕ → Accepted

abbrev pub emfile : ℕ
emfile = 24

-- `idle` is `none` when it is -1, and `reading` is what its channel watches.
pub record Acceptor : Type 0 where
  pub idle : Option ℕ
  pub listening : Bool
  pub reading : Bool
  pub has_callback : Bool
  pub log : List Event

-- The constructor asserts that the spare descriptor is positive.
abbrev pub init : Option ℕ → Option Acceptor
init none = none
init (some fd) =
    assert (ltb 0 fd)
    >> some (record {
      idle = some fd;
      listening = false;
      reading = false;
      has_callback = false;
      log = opened fd ∷ [];
    })

abbrev pub set_new_connection_callback : Acceptor → Acceptor
set_new_connection_callback a = record a { has_callback = true }

abbrev pub listen : Acceptor → Acceptor
listen a = record a { listening = true; reading = true }

-- `close` of a descriptor, and nothing for -1.
abbrev pub close_event : Option ℕ → List Event
close_event none = []
close_event (some fd) = closed fd ∷ []

abbrev pub open_event : Option ℕ → List Event
open_event none = []
open_event (some fd) = opened fd ∷ []

-- The spare descriptor makes way for a connection, which is closed; then it is opened again.
unfoldable pub spare : Option ℕ → Option ℕ → Option ℕ → List Event → Option ℕ × List Event
spare idle conn again log =
    (again, log ++ close_event idle ++ open_event conn ++ close_event conn ++ open_event again)

abbrev pub spared : Acceptor → Option ℕ × List Event → Acceptor
spared a (idle, log) = record a { idle = idle; log = log }

-- `conn` and `again` are what `accept` and `open` answer when the spare descriptor is used.
unfoldable pub handle_read : Accepted → Option ℕ → Option ℕ → Acceptor → Acceptor
unfolding spare
handle_read (accepted fd) conn again a = record a {
  log = a.log ++ opened fd ∷ (if a.has_callback then handed fd else closed fd) ∷ [];
}
handle_read (refused errno) conn again a =
    if errno == emfile then spared a (spare a.idle conn again a.log) else a

-- The destructor.
abbrev pub finish : Acceptor → Acceptor
finish a = record a { reading = false; log = a.log ++ close_event a.idle }
