-- ===== src/Net/Connector/Sockets.antt =====
-- What becomes of the sockets of burger/net/Connector.cc, over every order of its calls.
use burger.Common.{
  ℕ, suc, ◌+◌, ◌≡◌, refl, ap, inl, inr, Bool, true, false, not, ◌||◌, Option, none, some, List, [],
  ◌∷◌, ◌++◌, arith, ◌==◌, if◌then◌else◌, ◌>>=◌, Bool-cases, Option-cases,
}
use burger.Net.Connector.{
  Connector, disconnected, connected, Functor, starts_in_loop, stops_in_loop, resets_channel, Event,
  opened, closed, handed, init_retry_delay_ms, init, start, restart, stop, handle_write,
  handle_error, run_functor, run_front, start_in_loop, stop_in_loop, connect, retry, settle,
  connecting_on, remove_and_reset_channel, reset_channel, is_connecting, queue, on_its_way,
  to_retry, note,
}

-- One call that does not stop the program. A timer of `retry` calls `startInLoop`, and `restart` is for
-- a connector that has connected.
pub data Step (c c' : Connector) : Type 0 where
  started : (in_loop : Bool) (fd errno : ℕ) → start in_loop fd errno c ≡ some c' → Step c c'
  fired : (fd errno : ℕ) → start_in_loop fd errno c ≡ some c' → Step c c'
  restarted : (fd errno : ℕ) → c.status ≡ connected → restart fd errno c ≡ some c' → Step c c'
  stopped : stop c ≡ c' → Step c c'
  written : (err : ℕ) (self : Bool) → handle_write err self c ≡ some c' → Step c c'
  failed : handle_error c ≡ some c' → Step c c'
  ran : (fd errno : ℕ) → run_functor fd errno c ≡ some c' → Step c c'

pub data Reach (c : Connector) : Connector → Type 0 where
  here : Reach c c
  next : {d e : Connector} → Reach c d → Step d e → Reach c e

abbrev pub one_if : Bool → ℕ
one_if true = 1
one_if false = 0

-- How often a descriptor was opened, and how often it was closed or handed over.
abbrev pub opens : ℕ → List Event → ℕ
opens fd [] = 0
opens fd (opened g ∷ log) = one_if (fd == g) + opens fd log
opens fd (closed g ∷ log) = opens fd log
opens fd (handed g ∷ log) = opens fd log

abbrev pub ends : ℕ → List Event → ℕ
ends fd [] = 0
ends fd (opened g ∷ log) = ends fd log
ends fd (closed g ∷ log) = one_if (fd == g) + ends fd log
ends fd (handed g ∷ log) = one_if (fd == g) + ends fd log

abbrev pub held : ℕ → Option ℕ → ℕ
held fd none = 0
held fd (some g) = one_if (fd == g)

-- Whether the connector still holds a descriptor: that of its channel, while it is connecting.
abbrev pub holds : ℕ → Connector → ℕ
holds fd c = if is_connecting c.status then held fd c.channel else 0

abbrev pub resets : List Functor → ℕ
resets [] = 0
resets (resets_channel ∷ fs) = suc (resets fs)
resets (starts_in_loop ∷ fs) = resets fs
resets (stops_in_loop ∷ fs) = resets fs

abbrev pub present : Option ℕ → ℕ
present none = 0
present (some fd) = 1

-- How many resets of the channel must be queued.
abbrev pub to_reset : Connector → ℕ
to_reset c = if is_connecting c.status then 0 else present c.channel

opens-append :
    (fd : ℕ) (log rest : List Event) → opens fd (log ++ rest) ≡ opens fd log + opens fd rest
opens-append fd [] rest = omega arith
opens-append fd (opened g ∷ log) rest = omega (arith, opens-append fd log rest)
opens-append fd (closed g ∷ log) rest = opens-append fd log rest
opens-append fd (handed g ∷ log) rest = opens-append fd log rest

ends-append : (fd : ℕ) (log rest : List Event) → ends fd (log ++ rest) ≡ ends fd log + ends fd rest
ends-append fd [] rest = omega arith
ends-append fd (opened g ∷ log) rest = ends-append fd log rest
ends-append fd (closed g ∷ log) rest = omega (arith, ends-append fd log rest)
ends-append fd (handed g ∷ log) rest = omega (arith, ends-append fd log rest)

resets-append : (fs gs : List Functor) → resets (fs ++ gs) ≡ resets fs + resets gs
resets-append [] gs = omega arith
resets-append (resets_channel ∷ fs) gs = omega (arith, resets-append fs gs)
resets-append (starts_in_loop ∷ fs) gs = resets-append fs gs
resets-append (stops_in_loop ∷ fs) gs = resets-append fs gs

-- The books of one descriptor, and those of the channel.
pub record Balanced (fd : ℕ) (c : Connector) : Type 0 where
  pub sockets : opens fd c.log ≡ ends fd c.log + holds fd c
  pub channel_held : is_connecting c.status ≡ true → present c.channel ≡ 1
  pub reset_queued : resets c.queued ≡ to_reset c

module _ (fd : ℕ) where
  retry-Balanced :
      (g : ℕ) (c : Connector)
      → resets c.queued ≡ present c.channel
      → opens fd c.log ≡ ends fd c.log + one_if (fd == g)
      → Balanced fd (retry g c)
  unfolding retry
  retry-Balanced g c r s =
      ground (arith, opens-append fd c.log (closed g ∷ []), ends-append fd c.log (closed g ∷ []))

  connect-Balanced :
      (g errno : ℕ) (c c' : Connector)
      → Balanced fd c
      → is_connecting c.status ≡ false
      → connect g errno c ≡ some c'
      → Balanced fd c'
  unfolding connect connecting_on
  connect-Balanced g errno c c' b n h =
      let o = opens-append fd c.log (opened g ∷ []) in
      let e = ends-append fd c.log (opened g ∷ []) in
      let o' = opens-append fd (c.log ++ opened g ∷ []) (closed g ∷ []) in
      let e' = ends-append fd (c.log ++ opened g ∷ []) (closed g ∷ []) in
      let s : opens fd (c.log ++ opened g ∷ [])
          ≡ ends fd (c.log ++ opened g ∷ []) + one_if (fd == g) =
        ground (arith, b) in
      elim (Bool-cases (on_its_way errno)) [
        | inl a ↦ let k = rw a at h in ground arith
        | inr a ↦ elim (Bool-cases (to_retry errno)) [
          | inl t ↦
              let d = note (opened g) c in
              let k = rw (a, t) at h in
              let i : retry g d ≡ c' = cc in rw (← i) (retry-Balanced g d (ground (arith, b)) s)
          | inr t ↦ let k = rw (a, t) at h in ground arith
        ]
      ]

  start_in_loop-Balanced :
      (g errno : ℕ) (c c' : Connector)
      → Balanced fd c
      → start_in_loop g errno c ≡ some c'
      → Balanced fd c'
  unfolding start_in_loop
  start_in_loop-Balanced g errno c c' b h = ground (arith, b, connect-Balanced g errno c c' b)

  start-Balanced :
      (in_loop : Bool) (g errno : ℕ) (c c' : Connector)
      → Balanced fd c
      → start in_loop g errno c ≡ some c'
      → Balanced fd c'
  unfolding start
  start-Balanced false g errno c c' b h =
      ground (arith, b, resets-append c.queued (starts_in_loop ∷ []))
  start-Balanced true g errno c c' b h =
      start_in_loop-Balanced g errno (record c { connect = true }) c'
        (record {
          sockets = b.sockets;
          channel_held = b.channel_held;
          reset_queued = b.reset_queued;
        })
        h

  restart-Balanced :
      (g errno : ℕ) (c c' : Connector)
      → Balanced fd c
      → c.status ≡ connected
      → restart g errno c ≡ some c'
      → Balanced fd c'
  unfolding restart
  restart-Balanced g errno c c' b k h =
      let d : Connector = record c {
        status = disconnected;
        delay = init_retry_delay_ms;
        connect = true;
      } in
      start_in_loop-Balanced g errno d c' (ground (arith, b)) h

  stop-Balanced : (c : Connector) → Balanced fd c → Balanced fd (stop c)
  unfolding stop
  stop-Balanced c b = ground (arith, b, resets-append c.queued (stops_in_loop ∷ []))

  -- A connector that is connecting has its channel, whose descriptor is the one it holds.
  channel_lem :
      (c : Connector)
      → Balanced fd c
      → is_connecting c.status ≡ true
      → (g : ℕ) × (c.channel ≡ some g)
        × (opens fd c.log ≡ ends fd c.log + one_if (fd == g))
        × (resets (c.queued ++ resets_channel ∷ []) ≡ 1)
  channel_lem c b k = elim (Option-cases c.channel) [
    | inl e ↦ absurd (ground (arith, b))
    | inr (g, e) ↦
        (g, e, ground (arith, b), ground (arith, b, resets-append c.queued (resets_channel ∷ [])))
  ]

  removed :
      (c : Connector) (g : ℕ)
      → c.channel ≡ some g
      → remove_and_reset_channel c ≡ some (g, queue resets_channel c)
  unfolding remove_and_reset_channel
  removed c g e = ap (λ (o : Option ℕ). o >>= λ fd. some (fd, queue resets_channel c)) e

  stop_in_loop-Balanced :
      (c c' : Connector) → Balanced fd c → stop_in_loop c ≡ some c' → Balanced fd c'
  unfolding stop_in_loop
  stop_in_loop-Balanced c c' b h = elim (Bool-cases (is_connecting c.status)) [
    | inl k ↦
        let (g, e, s, r) = channel_lem c b k in
        let a : Connector = record c { status = disconnected } in
        let o = opens-append fd c.log (closed g ∷ []) in
        let o' = ends-append fd c.log (closed g ∷ []) in
        let i : Balanced fd (note (closed g) (queue resets_channel a)) =
          ground (arith, s, r, e, o, o') in
        let m = rw (k, removed a g e) at h in
        let j : note (closed g) (queue resets_channel a) ≡ c' = cc in rw (← j) i
    | inr k ↦ ground (arith, b)
  ]

  handle_error-Balanced :
      (c c' : Connector) → Balanced fd c → handle_error c ≡ some c' → Balanced fd c'
  unfolding handle_error
  handle_error-Balanced c c' b h = elim (Bool-cases (is_connecting c.status)) [
    | inl k ↦
        let (g, e, s, r) = channel_lem c b k in
        let d = queue resets_channel c in
        let i : Balanced fd (retry g d) = retry-Balanced g d (ground (arith, e, r)) s in
        let m = rw (k, removed c g e) at h in let j : retry g d ≡ c' = cc in rw (← j) i
    | inr k ↦ ground (arith, b)
  ]

  -- The rest of `handleWrite` once the channel is removed.
  written-Balanced :
      (err : ℕ) (self : Bool) (g : ℕ) (d c' : Connector)
      → opens fd d.log ≡ ends fd d.log + one_if (fd == g)
      → resets d.queued ≡ 1
      → d.channel ≡ some g
      → settle err self g d ≡ c'
      → Balanced fd c'
  unfolding settle
  written-Balanced err self g d c' s r e h = elim (Bool-cases (not (err == 0) || self)) [
    | inl bad ↦
        let i : Balanced fd (retry g d) = retry-Balanced g d (ground (arith, e, r)) s in
        let j : retry g d ≡ c' = rw bad at h in rw (← j) i
    | inr good ↦
        let m = rw good at h in
        ground (
          arith,
          opens-append fd d.log (closed g ∷ []),
          ends-append fd d.log (closed g ∷ []),
          opens-append fd d.log (handed g ∷ []),
          ends-append fd d.log (handed g ∷ []),
        )
  ]

  handle_write-Balanced :
      (err : ℕ) (self : Bool) (c c' : Connector)
      → Balanced fd c
      → handle_write err self c ≡ some c'
      → Balanced fd c'
  unfolding handle_write
  handle_write-Balanced err self c c' b h = elim (Bool-cases (is_connecting c.status)) [
    | inl k ↦
        let (g, e, s, r) = channel_lem c b k in
        let m = rw (k, removed c g e) at h in
        let j : settle err self g (queue resets_channel c) ≡ c' = cc in
        written-Balanced err self g (queue resets_channel c) c' s r e j
    | inr k ↦ ground (arith, b)
  ]

  run_front-Balanced :
      (fs : List Functor) (g errno : ℕ) (c c' : Connector)
      → c.queued ≡ fs
      → Balanced fd c
      → run_front fs g errno c ≡ some c'
      → Balanced fd c'
  unfolding run_front reset_channel
  run_front-Balanced [] g errno c c' q b h = ground (arith, b)
  run_front-Balanced (starts_in_loop ∷ fs) g errno c c' q b h =
      start_in_loop-Balanced g errno (record c { queued = fs }) c' (ground (arith, b)) h
  run_front-Balanced (stops_in_loop ∷ fs) g errno c c' q b h =
      stop_in_loop-Balanced (record c { queued = fs }) c' (ground (arith, b)) h
  run_front-Balanced (resets_channel ∷ fs) g errno c c' q b h = ground (arith, b)

  Step-Balanced : {c c' : Connector} → Step c c' → Balanced fd c → Balanced fd c'
  unfolding run_functor
  Step-Balanced {c} {c'} (started in_loop g errno h) b = start-Balanced in_loop g errno c c' b h
  Step-Balanced {c} {c'} (fired g errno h) b = start_in_loop-Balanced g errno c c' b h
  Step-Balanced {c} {c'} (restarted g errno k h) b = restart-Balanced g errno c c' b k h
  Step-Balanced {c} {c'} (stopped h) b = rw (← h) (stop-Balanced c b)
  Step-Balanced {c} {c'} (written err self h) b = handle_write-Balanced err self c c' b h
  Step-Balanced {c} {c'} (failed h) b = handle_error-Balanced c c' b h
  Step-Balanced {c} {c'} (ran g errno h) b = run_front-Balanced c.queued g errno c c' refl b h

  Reach-Balanced : {c c' : Connector} → Reach c c' → Balanced fd c → Balanced fd c'
  Reach-Balanced here b = b
  Reach-Balanced (next r s) b = Step-Balanced s (Reach-Balanced r b)

  -- Over any sequence of calls on a new connector that do not stop the program, in which restart
  -- is called only when it has connected, each descriptor was closed or handed over as often as it
  -- was opened, but for the one on which it is connecting.
  pub Reach-holds : {c : Connector} → Reach init c → opens fd c.log ≡ ends fd c.log + holds fd c
  unfolding init
  Reach-holds r =
      (Reach-Balanced r
        (record { sockets = refl; channel_held = λ h. cc; reset_queued = refl })).sockets
