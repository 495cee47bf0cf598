-- ===== src/Net/TcpConnection.antt =====
-- burger/net/TcpConnection.h and burger/net/TcpConnection.cc. A call into the kernel takes its answer from
-- an argument. Callbacks that run and functors handed to `queueInLoop` are logged in order; a
-- failed `assert` is `none`. The poller's side of a change of events is in Net/Epoll.antt.
pub mod Stream
pub mod Lifecycle
mod Tests
use burger.Common.{
  ℕ, ◌+◌, Bool, true, false, not, ◌&&◌, ◌||◌, Option, none, some, List, [], ◌∷◌, ◌++◌, ltb, leb,
  ◌==◌, if◌then◌else◌, ◌>>=◌, ◌>>◌, assert, sub64, add64, length, take, drop,
}
use burger.Net.SocketsOps.{Received, got, failed, Sent, wrote, refused}
use burger.Net.Buffer.{
  Buffer, readable_bytes, append, retrieve, retrieve_all_as_string, retrieve_all, fresh,
}
use burger.Net.Buffer.ReadFd.{read_fd}
use burger.Net.Channel.{Events, none_event}

pub data Status : Type 0 where
  connecting connected disconnecting disconnected : Status

-- What the loop is asked to run later.
pub data Functor : Type 0 where
  write_complete : Functor
  high_water_mark : ℕ → Functor
  sends : List ℕ → Functor
  shuts_down : Functor
  force_closes : Functor

-- What the user's callbacks and the socket see at once.
pub data Event : Type 0 where
  connection_callback message_callback close_callback shutdown_write channel_removed error_logged :
      Event

-- `sent` is what the kernel has taken from this connection so far.
pub record Conn : Type 0 where
  pub status : Status
  pub events : Events
  pub tied : Bool
  pub input : Buffer
  pub output : Buffer
  pub high_water : ℕ
  pub on_write_complete : Bool
  pub on_high_water : Bool
  pub queued : List Functor
  pub log : List Event
  pub sent : List ℕ

abbrev pub is_connected : Status → Bool
is_connected connected = true
is_connected connecting = false
is_connected disconnecting = false
is_connected disconnected = false

abbrev pub is_connecting : Status → Bool
is_connecting connecting = true
is_connecting connected = false
is_connecting disconnecting = false
is_connecting disconnected = false

abbrev pub is_disconnecting : Status → Bool
is_disconnecting disconnecting = true
is_disconnecting connecting = false
is_disconnecting connected = false
is_disconnecting disconnected = false

abbrev pub is_disconnected : Status → Bool
is_disconnected disconnected = true
is_disconnected connecting = false
is_disconnected connected = false
is_disconnected disconnecting = false

abbrev pub is_open : Status → Bool
is_open s = is_connected s || is_disconnecting s

abbrev pub note : Event → Conn → Conn
note ev c = record c { log = c.log ++ (ev ∷ []) }

abbrev pub queue : Functor → Conn → Conn
queue f c = record c { queued = c.queued ++ (f ∷ []) }

abbrev pub ewouldblock : ℕ
ewouldblock = 11

abbrev pub epipe : ℕ
epipe = 32

abbrev pub econnreset : ℕ
econnreset = 104

-- The direct write of `sendInLoop`: the bytes taken, `faultError`, and the connection.
abbrev pub attempt : Sent → List ℕ → Conn → ℕ × Bool × Conn
attempt (wrote n) text c = (
  n,
  false,
  record c {
    sent = c.sent ++ take n text;
    queued =
        if sub64 (length text) n == 0 && c.on_write_complete
        then c.queued ++ (write_complete ∷ [])
        else c.queued;
  },
)
attempt (refused errno) text c =
    (0, not (errno == ewouldblock) && (errno == epipe || errno == econnreset), c)

-- The queue with the high-water callback, if these bytes take the output buffer over the mark.
abbrev pub queued_with : ℕ → Conn → List Functor
queued_with remaining c =
    let old_len = readable_bytes c.output in
    if leb c.high_water (add64 old_len remaining) && ltb old_len c.high_water && c.on_high_water
    then c.queued ++ (high_water_mark (add64 old_len remaining) ∷ [])
    else c.queued

-- What was not written goes to the output buffer.
abbrev pub keep_rest : ℕ → Bool → List ℕ → Conn → Option Conn
keep_rest nwrote fault text c =
    let remaining = sub64 (length text) nwrote in
    assert (leb remaining (length text))
    >> (if not fault && ltb 0 remaining
        then (append (drop nwrote text) c.output >>= λ output. some (record c {
          queued = queued_with remaining c;
          output = output;
          events = record { reading = c.events.reading; writing = true };
        }))
        else some c)

unfoldable pub send_in_loop : (ℕ → Sent) → List ℕ → Conn → Option Conn
send_in_loop kernel text c =
    if is_disconnected c.status
    then some c
    else if not c.events.writing && readable_bytes c.output == 0
    then (let (n, fault, c') = attempt (kernel (length text)) text c in keep_rest n fault text c')
    else keep_rest 0 false text c

-- `send(const std::string&)`. `in_loop` says whether the caller is the loop's thread.
unfoldable pub send : Bool → (ℕ → Sent) → List ℕ → Conn → Option Conn
send in_loop kernel text c =
    if is_connected c.status
    then (if in_loop then send_in_loop kernel text c else some (queue (sends text) c))
    else some c

unfoldable pub shutdown_in_loop : Conn → Conn
shutdown_in_loop c = if not c.events.writing then note shutdown_write c else c

unfoldable pub shutdown : Bool → Conn → Conn
unfolding shutdown_in_loop
shutdown in_loop c =
    if is_connected c.status
    then (let c' : Conn = record c { status = disconnecting } in
        if in_loop then shutdown_in_loop c' else queue shuts_down c')
    else c

unfoldable pub force_close : Conn → Conn
force_close c =
    if is_open c.status then queue force_closes (record c { status = disconnecting }) else c

unfoldable pub handle_close : Conn → Option Conn
handle_close c = do
  assert (is_open c.status)
  let c' : Conn = record c { status = disconnected; events = none_event }
  some (note close_callback (note connection_callback c'))

unfoldable pub force_close_in_loop : Conn → Option Conn
unfolding handle_close
force_close_in_loop c = if is_open c.status then handle_close c else some c

unfoldable pub connect_established : Conn → Option Conn
connect_established c = do
  assert (is_connecting c.status)
  some (
      note connection_callback (record c {
        status = connected;
        tied = true;
        events = record { reading = true; writing = c.events.writing };
      }))

-- `Channel::remove` asserts that the channel watches nothing.
unfoldable pub connect_destroyed : Conn → Option Conn
connect_destroyed c =
    let c' : Conn =
      if is_connected c.status
      then note connection_callback (record c { status = disconnected; events = none_event })
      else c in
    assert (not c'.events.reading && not c'.events.writing) >> some (note channel_removed c')

abbrev pub is_empty : List ℕ → Bool
is_empty [] = true
is_empty (x ∷ xs) = false

abbrev pub after_read : Received → Conn → Option Conn
after_read (failed errno) c = some (note error_logged c)
after_read (got text) c = if is_empty text then handle_close c else some (note message_callback c)

-- The message callback is logged; what it does to the connection is a later call.
unfoldable pub handle_read : (ℕ → Received) → Conn → Option Conn
unfolding handle_close
handle_read kernel c = do
  (r, input) ← read_fd kernel c.input
  after_read r (record c { input = input })

-- The bytes from `peek()` on, as many as can be read.
abbrev pub bytes_of : Buffer → List ℕ
bytes_of b = take (readable_bytes b) (drop b.reader b.bytes)

abbrev pub drained : Conn → Conn
drained c =
    let c' : Conn = record c { events = record { reading = c.events.reading; writing = false } } in
    let c'' : Conn = if c.on_write_complete then queue write_complete c' else c' in
    if is_disconnecting c.status then shutdown_in_loop c'' else c''

abbrev pub after_write : Sent → Conn → Option Conn
after_write (refused errno) c = some (note error_logged c)
after_write (wrote n) c =
    if ltb 0 n
    then (retrieve n c.output >>= λ output.
        (let c' : Conn = record c {
          output = output;
          sent = c.sent ++ take n (bytes_of c.output);
        } in
          some (if readable_bytes output == 0 then drained c' else c')))
    else some (note error_logged c)

unfoldable pub handle_write : (ℕ → Sent) → Conn → Option Conn
unfolding shutdown_in_loop
handle_write kernel c =
    if c.events.writing then after_write (kernel (readable_bytes c.output)) c else some c
