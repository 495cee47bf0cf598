-- ===== src/Net/TcpConnection/Stream.antt =====
-- burger/net/TcpConnection.cc loses and reorders no byte of the output: what the kernel has taken and
-- what the output buffer holds is what was sent.
use burger.Common.{
  ℕ, ◌+◌, ◌≤◌, ◌<◌, ◌≡◌, refl, sym, ap, ◌∙◌, ◌⊎◌, inl, inr, true, false, not, ◌&&◌, ◌||◌, some,
  List, [], ◌∷◌, ◌++◌, append_assoc, append-nil, arith, ltb, lt→ltb, ltb→lt, ◌==◌, Bool-cases,
  if_true, if_false, tests, le→leb, max_size, sub64, length, take, drop, if◌then◌else◌,
  take-append-drop, length-drop, drop-all,
}
use burger.Net.SocketsOps.{Sent, wrote, refused}
use burger.Net.Buffer.{readable_bytes}
use burger.Net.Buffer.Valid.{IsValid, contents, length-contents, readable_bytes-IsValid, append_lem}
use burger.Net.Buffer.Queue.{retrieve_lem}
use burger.Net.TcpConnection.{
  Conn, is_disconnected, is_disconnecting, ewouldblock, epipe, econnreset, attempt, keep_rest,
  queued_with, send_in_loop, handle_write, after_write, drained, is_empty, note, error_logged,
  shutdown_in_loop, shutdown_write,
}

-- All bytes handed to the connection so far, in order.
abbrev pub stream : Conn → List ℕ
stream c = c.sent ++ contents c.output

-- The output buffer is valid, and holds bytes only while the channel waits to write them.
pub record Inv (c : Conn) : Type 0 where
  pub valid : IsValid c.output
  pub idle : c.events.writing ≡ false → contents c.output ≡ []

-- What `send_in_loop` leaves when it succeeds.
pub record Took (text : List ℕ) (c c' : Conn) : Type 0 where
  pub inv : Inv c'
  pub whole : stream c' ≡ stream c ++ text
  pub status : c'.status ≡ c.status

keep_rest_lem :
    (n : ℕ) (text : List ℕ) (c : Conn)
    → n ≤ length text
    → Inv c
    → length c.output.bytes + length text < max_size
    → (c' : Conn) × (keep_rest n false text c ≡ some c')
      × Inv c'
      × (contents c'.output ≡ contents c.output ++ drop n text)
      × (c'.sent ≡ c.sent)
      × (c'.status ≡ c.status)
keep_rest_lem n text c h v room =
    let k = sub64 (length text) n in
    let l = length-drop n text in
    let fits = le→leb k (length text) (omega arith) in
    elim (Bool-cases (ltb 0 k)) [
      | inl more ↦
          let (b, e, vb, cb, _, _) = append_lem (drop n text) c.output v.valid (omega (arith, l)) in
          (
            record c {
              queued = queued_with k c;
              output = b;
              events = record { reading = c.events.reading; writing = true };
            },
            rw (more, fits, e) refl,
            record { valid = vb; idle = λ w. cc },
            cb,
            refl,
            refl,
          )
      | inr all ↦
          let d : drop n text ≡ [] = drop-all n text (omega (tests, all)) in
          (c, rw (all, fits) refl, v, rw d (sym (append-nil (contents c.output))), refl, refl)
    ]

-- The new stream from its parts.
true-ne-false : true ≡ false → ⊥
true-ne-false h = cc

stream_wrote :
    (sent out out' front rest text : List ℕ)
    → out' ≡ out ++ rest
    → out ≡ []
    → front ++ rest ≡ text
    → (sent ++ front) ++ out' ≡ (sent ++ out) ++ text
stream_wrote sent out out' front rest text e empty w =
    rw (e, empty, append-nil, append_assoc) (ap (λ t. sent ++ t) w)

-- An error that drops the bytes: the peer is gone.
abbrev pub IsFault : ℕ → Type 0
IsFault errno = (errno ≡ epipe) ⊎ (errno ≡ econnreset)

-- The kernel takes no more than it is offered, and has not lost the peer.
abbrev pub Honest : ℕ → Sent → Type 0
Honest offered (wrote n) = n ≤ offered
Honest offered (refused errno) = ¬ IsFault errno

refused-fault :
    (errno : ℕ)
    → ¬ IsFault errno
    → (not (errno == ewouldblock) && (errno == epipe || errno == econnreset)) ≡ false
refused-fault errno h = ground arith

direct-Took :
    (s : Sent) (text : List ℕ) (c : Conn)
    → Honest (length text) s
    → Inv c
    → contents c.output ≡ []
    → length c.output.bytes + length text < max_size
    → let (n, fault, d) = attempt s text c in
      (c' : Conn) × (keep_rest n fault text d ≡ some c') × Took text c c'
direct-Took (wrote n) text c h v empty room =
    let d = (attempt (wrote n) text c).2 in
    let w : Inv d = record { valid = v.valid; idle = v.idle } in
    let (c', e, i, o, s, st) = keep_rest_lem n text d h w room in
    (
      c',
      e,
      record {
        inv = i;
        whole =
            ap (λ t. t ++ contents c'.output) s
            ∙ stream_wrote c.sent (contents c.output) (contents c'.output) (take n text)
                (drop n text) text o empty (take-append-drop n text);
        status = st;
      },
    )
direct-Took (refused errno) text c h v empty room =
    let (c', e, i, o, s, st) = keep_rest_lem 0 text c (omega arith) v room in
    (
      c',
      rw (refused-fault errno h) e,
      record {
        inv = i;
        whole =
            ap (λ t. t ++ contents c'.output) s
            ∙ ap (λ t. c.sent ++ t) o
            ∙ sym (append_assoc c.sent (contents c.output) text);
        status = st;
      },
    )

-- SendInLoop on a connection that is not disconnected and keeps its invariant succeeds, if the
-- kernel takes no more than it is offered and does not report the peer gone and the output buffer
-- can grow by the message; what the kernel has taken and what waits in the output buffer is then
-- the old stream and the message behind it, and the invariant holds.
pub send_in_loop-Took :
    (kernel : ℕ → Sent) (text : List ℕ) (c : Conn)
    → Honest (length text) (kernel (length text))
    → is_disconnected c.status ≡ false
    → Inv c
    → length c.output.bytes + length text < max_size
    → (c' : Conn) × (send_in_loop kernel text c ≡ some c') × Took text c c'
unfolding send_in_loop
send_in_loop-Took kernel text c h up v room =
    let r = readable_bytes-IsValid c.output v.valid in
    let l = length-contents c.output v.valid in
    elim (Bool-cases (not c.events.writing && readable_bytes c.output == 0)) [
      | inl direct ↦
          let (c', e, t) =
            direct-Took (kernel (length text)) text c h v (v.idle (ground arith)) room in
          (c', rw (up, direct) e, t)
      | inr later ↦
          let (c', e, i, o, s, st) = keep_rest_lem 0 text c (omega arith) v room in
          (
            c',
            rw (up, later) e,
            record {
              inv = i;
              whole =
                  ap (λ t. t ++ contents c'.output) s
                  ∙ ap (λ t. c.sent ++ t) o
                  ∙ sym (append_assoc c.sent (contents c.output) text);
              status = st;
            },
          )
    ]

-- What the connection has when the buffer has run empty.
pub drained_lem :
    (c : Conn)
    → ((drained c).sent ≡ c.sent)
      × ((drained c).output ≡ c.output)
      × ((drained c).events.writing ≡ false)
      × ((drained c).status ≡ c.status)
      × ((drained c).log
          ≡ (if is_disconnecting c.status then c.log ++ (shutdown_write ∷ []) else c.log))
unfolding shutdown_in_loop
drained_lem c = ground arith

-- What a write event leaves.
pub record Wrote (c c' : Conn) : Type 0 where
  pub inv : Inv c'
  pub whole : stream c' ≡ stream c
  pub status : c'.status ≡ c.status

-- What it leaves when the kernel took something: the channel goes on waiting just if bytes are left, and
-- otherwise a shutdown that was asked for is made.
pub record Advanced (c c' : Conn) : Type 0 where
  pub wrote : Wrote c c'
  pub waits : c'.events.writing ≡ not (is_empty (contents c'.output))
  pub log : c'.log ≡ (
      if is_empty (contents c'.output) && is_disconnecting c.status
      then c.log ++ (shutdown_write ∷ [])
      else c.log)

empty_of_length : (s : List ℕ) → length s ≡ 0 → s ≡ []
empty_of_length [] h = refl
empty_of_length (x ∷ s) h = absurd (omega arith)

is_empty_of_length : (s : List ℕ) → 0 < length s → is_empty s ≡ false
is_empty_of_length [] h = absurd (omega arith)
is_empty_of_length (x ∷ s) h = refl

advance :
    (n : ℕ) (c : Conn)
    → 0 < n
    → n ≤ length (contents c.output)
    → Inv c
    → c.events.writing ≡ true
    → (c' : Conn) × (after_write (wrote n) c ≡ some c') × Advanced c c'
advance n c pos h v w =
    let (b, e, vb, cb, _) = retrieve_lem n c.output v.valid h in
    let r = readable_bytes-IsValid c.output v.valid in
    let rb = readable_bytes-IsValid b vb in
    let lb = length-contents b vb in
    let d : Conn = record c { output = b; sent = c.sent ++ take n (contents c.output) } in
    let whole : d.sent ++ contents b ≡ stream c =
      ap (λ t. d.sent ++ t) cb
      ∙ append_assoc c.sent (take n (contents c.output)) (drop n (contents c.output))
      ∙ ap (λ t. c.sent ++ t) (take-append-drop n (contents c.output)) in
    elim (Bool-cases (readable_bytes b == 0)) [
      | inl done ↦
          let none_left : contents b ≡ [] = empty_of_length (contents b) (ground (arith, rb, lb)) in
          let (s, o, q, st, lg) = drained_lem d in
          (
            drained d,
            rw (lt→ltb 0 n pos, e, r, done) refl,
            record {
              wrote = record {
                inv = record { valid = rw o vb; idle = λ k. rw o none_left };
                whole = rw (s, o) whole;
                status = st;
              };
              waits = rw (q, o, none_left) refl;
              log = rw (lg, o, none_left) refl;
            },
          )
      | inr more ↦
          let left : is_empty (contents b) ≡ false =
            is_empty_of_length (contents b) (ground (arith, rb, lb)) in
          (
            d,
            rw (lt→ltb 0 n pos, e, r, more) refl,
            record {
              wrote = record {
                inv = record { valid = vb; idle = λ k. absurd (true-ne-false (sym w ∙ k)) };
                whole = whole;
                status = refl;
              };
              waits = rw (left, w) refl;
              log = rw left refl;
            },
          )
    ]

after_write-Wrote :
    (s : Sent) (c : Conn)
    → Honest (length (contents c.output)) s
    → Inv c
    → c.events.writing ≡ true
    → (c' : Conn) × (after_write s c ≡ some c') × Wrote c c'
after_write-Wrote (refused errno) c h v w = (
  note error_logged c,
  refl,
  record { inv = record { valid = v.valid; idle = v.idle }; whole = refl; status = refl },
)
after_write-Wrote (wrote n) c h v w = elim (Bool-cases (ltb 0 n)) [
  | inl some_ ↦ let (c', e, a) = advance n c (ltb→lt 0 n some_) h v w in (c', e, a.wrote)
  | inr zero_ ↦ (
    note error_logged c,
    rw zero_ refl,
    record { inv = record { valid = v.valid; idle = v.idle }; whole = refl; status = refl },
  )
]

-- HandleWrite on a connection that keeps its invariant succeeds, if the kernel takes no more than
-- it is offered and does not report the peer gone; the stream of bytes taken and waiting stays as
-- it was, and so do the status and the invariant.
pub handle_write-Wrote :
    (kernel : ℕ → Sent) (c : Conn)
    → Honest (length (contents c.output)) (kernel (readable_bytes c.output))
    → Inv c
    → (c' : Conn) × (handle_write kernel c ≡ some c') × Wrote c c'
unfolding handle_write
handle_write-Wrote kernel c h v = elim (Bool-cases c.events.writing) [
  | inl w ↦
      let (c', e, k) = after_write-Wrote (kernel (readable_bytes c.output)) c h v w in
      (c', if_true c.events.writing _ _ w ∙ e, k)
  | inr w ↦ (c, if_false c.events.writing _ _ w, record { inv = v; whole = refl; status = refl })
]

-- When a connection that waits to write and keeps its invariant has some but no more than its
-- waiting bytes taken by the kernel, it goes on waiting just if bytes are left, shuts the writing
-- side just if none are left and it is disconnecting, and loses no byte.
pub handle_write-Advanced :
    (kernel : ℕ → Sent) (n : ℕ) (c : Conn)
    → kernel (readable_bytes c.output) ≡ wrote n
    → 0 < n
    → n ≤ length (contents c.output)
    → Inv c
    → c.events.writing ≡ true
    → (c' : Conn) × (handle_write kernel c ≡ some c') × Advanced c c'
unfolding handle_write
handle_write-Advanced kernel n c k pos h v w =
    let (c', e, a) = advance n c pos h v w in
    (c', if_true c.events.writing _ _ w ∙ ap (λ s. after_write s c) k ∙ e, a)
