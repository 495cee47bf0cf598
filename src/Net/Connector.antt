-- ===== src/Net/Connector.antt =====
-- burger/net/Connector.h and burger/net/Connector.cc. The kernel's answers are arguments, functors handed to
-- `queueInLoop` and timers handed to `runAfter` are queues, and what becomes of the sockets is
-- logged. A failed `assert` and a null channel are `none`.
pub mod Sockets
pub mod Backoff
mod Tests
use burger.Common.{
  ℕ, ◌*◌, Bool, true, false, not, ◌&&◌, ◌||◌, Option, none, some, List, [], ◌∷◌, ◌++◌, min, ◌==◌,
  if◌then◌else◌, ◌>>=◌, ◌>>◌, assert,
}

pub data Status : Type 0 where
  disconnected connecting connected : Status

pub data Functor : Type 0 where
  starts_in_loop stops_in_loop resets_channel : Functor

pub data Event : Type 0 where
  opened closed handed : ℕ → Event

-- `channel` is the descriptor of `channel_`, `timers` the delays given to `runAfter`.
pub record Connector : Type 0 where
  pub connect : Bool
  pub status : Status
  pub channel : Option ℕ
  pub delay : ℕ
  pub queued : List Functor
  pub timers : List ℕ
  pub log : List Event

abbrev pub max_retry_delay_ms : ℕ
max_retry_delay_ms = 30 * 1000

abbrev pub init_retry_delay_ms : ℕ
init_retry_delay_ms = 500

unfoldable pub init : Connector
init = record {
  connect = false;
  status = disconnected;
  channel = none;
  delay = init_retry_delay_ms;
  queued = [];
  timers = [];
  log = [];
}

abbrev pub is_disconnected : Status → Bool
is_disconnected disconnected = true
is_disconnected connecting = false
is_disconnected connected = false

abbrev pub is_connecting : Status → Bool
is_connecting connecting = true
is_connecting disconnected = false
is_connecting connected = false

abbrev pub is_none : Option ℕ → Bool
is_none none = true
is_none (some fd) = false

abbrev pub note : Event → Connector → Connector
note ev c = record c { log = c.log ++ (ev ∷ []) }

abbrev pub queue : Functor → Connector → Connector
queue f c = record c { queued = c.queued ++ (f ∷ []) }

-- `sockets::connect`: the errors after which the connection is on its way, and those to try again.
abbrev pub on_its_way : ℕ → Bool
on_its_way errno = errno == 0 || errno == 115 || errno == 4 || errno == 106

abbrev pub to_retry : ℕ → Bool
to_retry errno = errno == 11 || errno == 98 || errno == 99 || errno == 111 || errno == 101

unfoldable pub connecting_on : ℕ → Connector → Option Connector
connecting_on fd c =
    assert (is_none c.channel) >> some (record c { status = connecting; channel = some fd })

unfoldable pub retry : ℕ → Connector → Connector
retry fd c =
    let c' = note (closed fd) (record c { status = disconnected }) in
    if c.connect
    then record c' {
      timers = c.timers ++ (c.delay ∷ []);
      delay = min (c.delay * 2) max_retry_delay_ms;
    }
    else c'

-- The new socket, and the error of `connect` on it.
unfoldable pub connect : ℕ → ℕ → Connector → Option Connector
unfolding retry connecting_on
connect fd errno c =
    let c' = note (opened fd) c in
    if on_its_way errno
    then connecting_on fd c'
    else if to_retry errno
    then some (retry fd c')
    else some (note (closed fd) c')

unfoldable pub start_in_loop : ℕ → ℕ → Connector → Option Connector
unfolding connect
start_in_loop fd errno c =
    assert (is_disconnected c.status) >> (if c.connect then connect fd errno c else some c)

unfoldable pub start : Bool → ℕ → ℕ → Connector → Option Connector
unfolding start_in_loop
start in_loop fd errno c =
    let c' : Connector = record c { connect = true } in
    if in_loop then start_in_loop fd errno c' else some (queue starts_in_loop c')

unfoldable pub restart : ℕ → ℕ → Connector → Option Connector
unfolding start_in_loop
restart fd errno c =
    start_in_loop fd errno
      (record c { status = disconnected; delay = init_retry_delay_ms; connect = true })

unfoldable pub stop : Connector → Connector
stop c = queue stops_in_loop (record c { connect = false })

unfoldable pub remove_and_reset_channel : Connector → Option (ℕ × Connector)
remove_and_reset_channel c = c.channel >>= λ fd. some (fd, queue resets_channel c)

unfoldable pub reset_channel : Connector → Connector
reset_channel c = record c { channel = none }

unfoldable pub stop_in_loop : Connector → Option Connector
unfolding remove_and_reset_channel
stop_in_loop c =
    if is_connecting c.status
    then (remove_and_reset_channel (record c { status = disconnected }) >>= λ (fd, c').
        some (note (closed fd) c'))
    else some c

-- `handleWrite` once the channel is removed. `err` is SO_ERROR of the socket, `self` whether it is
-- connected to itself.
unfoldable pub settle : ℕ → Bool → ℕ → Connector → Connector
unfolding retry
settle err self fd c =
    if not (err == 0) || self
    then retry fd c
    else (let c' : Connector = record c { status = connected } in
        if c.connect then note (handed fd) c' else note (closed fd) c')

unfoldable pub handle_write : ℕ → Bool → Connector → Option Connector
unfolding remove_and_reset_channel settle
handle_write err self c =
    if is_connecting c.status
    then (remove_and_reset_channel c >>= λ (fd, c'). some (settle err self fd c'))
    else (assert (is_disconnected c.status) >> some c)

unfoldable pub handle_error : Connector → Option Connector
unfolding remove_and_reset_channel retry
handle_error c =
    if is_connecting c.status
    then (remove_and_reset_channel c >>= λ (fd, c'). some (retry fd c'))
    else some c

-- The loop runs the functor at the front of its queue. `fd` and `errno` answer it when it connects.
unfoldable pub run_front : List Functor → ℕ → ℕ → Connector → Option Connector
unfolding start_in_loop stop_in_loop reset_channel
run_front [] fd errno c = some c
run_front (starts_in_loop ∷ fs) fd errno c = start_in_loop fd errno (record c { queued = fs })
run_front (stops_in_loop ∷ fs) fd errno c = stop_in_loop (record c { queued = fs })
run_front (resets_channel ∷ fs) fd errno c = some (reset_channel (record c { queued = fs }))

unfoldable pub run_functor : ℕ → ℕ → Connector → Option Connector
unfolding run_front
run_functor fd errno c = run_front c.queued fd errno c
