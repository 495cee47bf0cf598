-- ===== src/Net/TcpConnection/Lifecycle.antt =====
-- The states of a connection of burger/net/TcpConnection.cc, over every order of its calls.
use burger.Common.{
  ℕ, suc, ◌+◌, ◌≤◌, ◌≡◌, ◌≢◌, refl, sym, ◌∙◌, inl, inr, Bool, false, not, ◌&&◌, some, List, [], ◌∷◌,
  ◌++◌, arith, ◌==◌, >>=-eq-some, Bool-cases, if_true, if_false, length,
}
use burger.Net.SocketsOps.{Received, got, failed, Sent, wrote, refused}
use burger.Net.Buffer.{readable_bytes}
use burger.Net.Buffer.ReadFd.{read_fd}
use burger.Net.TcpConnection.{
  Status, connecting, connected, disconnecting, disconnected, Conn, Event, connection_callback,
  message_callback, close_callback, shutdown_write, channel_removed, error_logged, is_disconnected,
  send_in_loop, send, shutdown, shutdown_in_loop, force_close, force_close_in_loop, handle_close,
  handle_read, handle_write, connect_established, connect_destroyed, after_write, after_read,
  attempt, keep_rest,
}

-- One call on the connection that does not stop the program.
pub data Step (c c' : Conn) : Type 0 where
  established : connect_established c ≡ some c' → Step c c'
  sent :
      (in_loop : Bool) (kernel : ℕ → Sent) (text : List ℕ)
      → send in_loop kernel text c ≡ some c'
      → Step c c'
  sent_in_loop :
      (kernel : ℕ → Sent) (text : List ℕ) → send_in_loop kernel text c ≡ some c' → Step c c'
  shut : (in_loop : Bool) → shutdown in_loop c ≡ c' → Step c c'
  shut_in_loop : shutdown_in_loop c ≡ c' → Step c c'
  forced : force_close c ≡ c' → Step c c'
  forced_in_loop : force_close_in_loop c ≡ some c' → Step c c'
  read : (kernel : ℕ → Received) → handle_read kernel c ≡ some c' → Step c c'
  written : (kernel : ℕ → Sent) → handle_write kernel c ≡ some c' → Step c c'
  destroyed : connect_destroyed c ≡ some c' → Step c c'

pub data Reach (c : Conn) : Conn → Type 0 where
  here : Reach c c
  next : {d e : Conn} → Reach c d → Step d e → Reach c e

-- How far a connection is on its way.
abbrev pub rank : Status → ℕ
rank connecting = 0
rank connected = 1
rank disconnecting = 2
rank disconnected = 3

abbrev pub weight : Status → ℕ
weight connecting = 0
weight connected = 0
weight disconnecting = 0
weight disconnected = 1

-- How often the close callback has run.
abbrev pub closes : List Event → ℕ
closes [] = 0
closes (close_callback ∷ log) = suc (closes log)
closes (_ ∷ log) = closes log

closes-append : (log rest : List Event) → closes (log ++ rest) ≡ closes log + closes rest
closes-append [] rest = omega arith
closes-append (close_callback ∷ log) rest = omega (arith, closes-append log rest)
closes-append (_ ∷ log) rest = closes-append log rest

-- A call moves the connection forwards only, and runs the close callback just when it closes it.
pub record Moves (c c' : Conn) : Type 0 where
  pub forwards : rank c.status ≤ rank c'.status
  pub closing : closes c'.log + weight c.status ≤ closes c.log + weight c'.status

keep_rest-Moves :
    (n : ℕ) (f : Bool) (text : List ℕ) (c c' : Conn) → keep_rest n f text c ≡ some c' → Moves c c'
keep_rest-Moves n f text c c' h = ground arith

direct-Moves :
    (s : Sent) (text : List ℕ) (c c' : Conn)
    → (let (n, fault, d) = attempt s text c in keep_rest n fault text d ≡ some c')
    → Moves c c'
direct-Moves (wrote n) text c c' h =
    let m = keep_rest-Moves n false text (attempt (wrote n) text c).2 c' h in
    record { forwards = m.forwards; closing = m.closing }
direct-Moves (refused errno) text c c' h = keep_rest-Moves 0 _ text c c' h

send_in_loop-Moves :
    (kernel : ℕ → Sent) (text : List ℕ) (c c' : Conn)
    → send_in_loop kernel text c ≡ some c'
    → Moves c c'
unfolding send_in_loop
send_in_loop-Moves kernel text c c' h = elim (Bool-cases (is_disconnected c.status)) [
  | inl down ↦ ground arith
  | inr up ↦ elim (Bool-cases (not c.events.writing && readable_bytes c.output == 0)) [
    | inl direct ↦ direct-Moves (kernel (length text)) text c c' (rw (up, direct) at h)
    | inr later ↦ keep_rest-Moves 0 false text c c' (rw (up, later) at h)
  ]
]

handle_close-Moves : (c c' : Conn) → handle_close c ≡ some c' → Moves c c'
unfolding handle_close
handle_close-Moves c c' h = ground (
  arith,
  closes-append c.log (connection_callback ∷ []),
  closes-append (c.log ++ connection_callback ∷ []) (close_callback ∷ []),
)

shutdown-Moves : (in_loop : Bool) (c : Conn) → Moves c (shutdown in_loop c)
unfolding shutdown shutdown_in_loop
shutdown-Moves in_loop c = ground (arith, closes-append c.log (shutdown_write ∷ []))

shutdown_in_loop-Moves : (c : Conn) → Moves c (shutdown_in_loop c)
unfolding shutdown_in_loop
shutdown_in_loop-Moves c = ground (arith, closes-append c.log (shutdown_write ∷ []))

force_close-Moves : (c : Conn) → Moves c (force_close c)
unfolding force_close
force_close-Moves c = ground arith

force_close_in_loop-Moves : (c c' : Conn) → force_close_in_loop c ≡ some c' → Moves c c'
unfolding force_close_in_loop
force_close_in_loop-Moves c c' h = ground (arith, handle_close-Moves c c')

connect_established-Moves : (c c' : Conn) → connect_established c ≡ some c' → Moves c c'
unfolding connect_established
connect_established-Moves c c' h = ground (arith, closes-append c.log (connection_callback ∷ []))

connect_destroyed-Moves : (c c' : Conn) → connect_destroyed c ≡ some c' → Moves c c'
unfolding connect_destroyed
connect_destroyed-Moves c c' h = ground (
  arith,
  closes-append c.log (connection_callback ∷ []),
  closes-append c.log (channel_removed ∷ []),
  closes-append (c.log ++ connection_callback ∷ []) (channel_removed ∷ []),
)

after_write-Moves : (s : Sent) (c c' : Conn) → after_write s c ≡ some c' → Moves c c'
unfolding shutdown_in_loop
after_write-Moves (refused errno) c c' h = ground (arith, closes-append c.log (error_logged ∷ []))
after_write-Moves (wrote n) c c' h =
    ground
      (arith, closes-append c.log (error_logged ∷ []), closes-append c.log (shutdown_write ∷ []))

handle_write-Moves :
    (kernel : ℕ → Sent) (c c' : Conn) → handle_write kernel c ≡ some c' → Moves c c'
unfolding handle_write
handle_write-Moves kernel c c' h = elim (Bool-cases c.events.writing) [
  | inl w ↦
      after_write-Moves (kernel (readable_bytes c.output)) c c'
        (sym (if_true c.events.writing _ _ w) ∙ h)
  | inr w ↦ let e : some c ≡ some c' = sym (if_false c.events.writing _ _ w) ∙ h in ground arith
]

after_read-Moves : (r : Received) (c c' : Conn) → after_read r c ≡ some c' → Moves c c'
after_read-Moves (failed errno) c c' h = ground (arith, closes-append c.log (error_logged ∷ []))
after_read-Moves (got []) c c' h = handle_close-Moves c c' h
after_read-Moves (got (x ∷ text)) c c' h =
    ground (arith, closes-append c.log (message_callback ∷ []))

handle_read-Moves :
    (kernel : ℕ → Received) (c c' : Conn) → handle_read kernel c ≡ some c' → Moves c c'
unfolding handle_read
handle_read-Moves kernel c c' h =
    let ((r, input), e, e') = >>=-eq-some (read_fd kernel c.input) _ h in
    let m = after_read-Moves r (record c { input = input }) c' e' in
    record { forwards = m.forwards; closing = m.closing }

send-Moves :
    (in_loop : Bool) (kernel : ℕ → Sent) (text : List ℕ) (c c' : Conn)
    → send in_loop kernel text c ≡ some c'
    → Moves c c'
unfolding send
send-Moves in_loop kernel text c c' h = ground (arith, send_in_loop-Moves kernel text c c')

Step-Moves : {c c' : Conn} → Step c c' → Moves c c'
Step-Moves {c} {c'} (established h) = connect_established-Moves c c' h
Step-Moves {c} {c'} (sent in_loop kernel text h) = send-Moves in_loop kernel text c c' h
Step-Moves {c} {c'} (sent_in_loop kernel text h) = send_in_loop-Moves kernel text c c' h
Step-Moves {c} (shut in_loop h) = rw (← h) (shutdown-Moves in_loop c)
Step-Moves {c} (shut_in_loop h) = rw (← h) (shutdown_in_loop-Moves c)
Step-Moves {c} (forced h) = rw (← h) (force_close-Moves c)
Step-Moves {c} {c'} (forced_in_loop h) = force_close_in_loop-Moves c c' h
Step-Moves {c} {c'} (read kernel h) = handle_read-Moves kernel c c' h
Step-Moves {c} {c'} (written kernel h) = handle_write-Moves kernel c c' h
Step-Moves {c} {c'} (destroyed h) = connect_destroyed-Moves c c' h

Reach-Moves : {c c' : Conn} → Reach c c' → Moves c c'
Reach-Moves here = record { forwards = omega arith; closing = omega arith }
Reach-Moves (next r s) =
    let a = Reach-Moves r in
    let b = Step-Moves s in record { forwards = omega (arith, a, b); closing = omega (arith, a, b) }

weight-le : (s : Status) → weight s ≤ 1
weight-le connecting = omega arith
weight-le connected = omega arith
weight-le disconnecting = omega arith
weight-le disconnected = omega arith

weight-zero : (s : Status) → s ≢ disconnected → weight s ≡ 0
weight-zero connecting n = refl
weight-zero connected n = refl
weight-zero disconnecting n = refl
weight-zero disconnected n = absurd (n refl)

-- Over any sequence of calls that do not stop the program, from a connection whose close callback
-- has not run, the status only moves forwards from connecting over connected and disconnecting to
-- disconnected, and the close callback runs at most once, and not before the connection is
-- disconnected.
pub Reach-forwards :
    {c c' : Conn}
    → Reach c c'
    → closes c.log ≡ 0
    → (rank c.status ≤ rank c'.status)
      × (closes c'.log ≤ 1)
      × (c'.status ≢ disconnected → closes c'.log ≡ 0)
Reach-forwards {c} {c'} r h =
    let m = Reach-Moves r in
    (
      m.forwards,
      omega (arith, m, weight-le c'.status),
      λ n. omega (arith, m, weight-zero c'.status n),
    )
