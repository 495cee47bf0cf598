-- ===== src/Net/Processor/Rounds.antt =====
-- burger/net/Processor.cc: the rounds of `run`. A round resumes the coroutine at the front of the queue, and no
-- round overtakes.
use mathlib.Core.Path.{subst}
use burger.Common.{
  ℕ, ◌+◌, ◌-◌, ◌%◌, ◌^◌, ◌≡◌, refl, sym, ap, false, Option, none, some, List, [], ◌∷◌, ◌++◌,
  if◌then◌else◌, arith, ==_refl,
}
use burger.Base.Coroutine.{Coroutine, State, exec, hold, term, set_state, run_end}
use burger.Net.Processor.{
  Processor, store, change, add_co, add_pending_tasks_into_queue, find, update_event, Ending,
  returns, yields, waits, finish, Burst, resume, forget, retire_at, retire, poll_events, poll,
  run_with,
}
use burger.Net.Processor.Sound.{
  count, count-append, Sound, Waiting, Running, Extends, Extends-refl, Extends-trans, add_co-Sound,
  add_tasks-Keeps,
}
use burger.Net.Processor.Bursts.{Admitted, perform-Acts, remove_event-Keeps, update_event-Keeps}

abbrev pub Goes : List ℕ → Processor → Type 0
Goes xs q = Sound q × Extends xs q.runnable

forget-Goes : (o : Option ℕ) (p : Processor) → Sound p → Goes p.runnable (forget o p)
forget-Goes none p s = (s, Extends-refl p.runnable)
forget-Goes (some fd) p s = let k = remove_event-Keeps fd p s in (k.sound, k.grown)

-- The coroutine that ran has ended, and is idle.
returned-Sound :
    (cur load : ℕ) (p : Processor)
    → Sound p
    → Running cur p
    → Sound (record (change cur run_end p) { load = load; idle = p.idle ++ cur ∷ [] })
returned-Sound cur load p s ((a, b, c, d), e) = record {
  once = λ j. let h = count-append j p.idle (cur ∷ []) in let k = s.once j in ground arith;
  ended = λ j g. let h = count-append j p.idle (cur ∷ []) in let k = s.ended j in ground arith;
  active = λ j g. let k = s.active j g in (ground arith, ground arith);
  known = λ j g. let h = count-append j p.idle (cur ∷ []) in let k = s.known j g in ground arith;
}

held-Sound :
    (cur : ℕ) (p : Processor) → Sound p → Waiting cur p → Sound (change cur (set_state hold) p)
held-Sound cur p s (a, b, c, d) = record {
  once = s.once;
  ended = λ j g. let k = s.ended j g in ground arith;
  active = λ j g. let k = s.active j g in (ground arith, ground arith);
  known = s.known;
}

store_same : (i : ℕ) (co : Coroutine) (coroutines : ℕ → Coroutine) → store i co coroutines i ≡ co
store_same i co coroutines = ap (λ t. if t then co else coroutines i) (==_refl i)

retire_state :
    (cur : ℕ) (xs : List ℕ) (q : Processor) (st : State)
    → (q.coroutines cur).state ≡ st
    → Goes xs (retire_at cur q st)
    → Goes xs (retire cur q)
unfolding retire
retire_state cur xs q st e g = subst (λ t. Goes xs (retire_at cur q t)) (sym e) g

retire-finish :
    (cur : ℕ) (e : Ending) (p : Processor)
    → Sound p
    → Running cur p
    → Goes p.runnable (retire cur (finish cur e p))
unfolding finish
retire-finish cur returns p s r =
    let q = change cur run_end p in
    retire_state cur p.runnable q term
      (ap (λ c. c.state) (store_same cur (run_end (p.coroutines cur)) p.coroutines))
      (forget-Goes (q.coroutines cur).fd _
        (returned-Sound cur ((p.load + (2 ^ 64 - 1)) % 2 ^ 64) p s r))
retire-finish cur yields p s (w, e) =
    retire_state cur p.runnable p exec e (s, Extends-refl p.runnable)
retire-finish cur (waits fd) p s r =
    let k = update_event-Keeps cur fd p s in
    let q = update_event cur fd p in
    retire_state cur p.runnable (change cur (set_state hold) q) hold
      (ap (λ c. c.state) (store_same cur (set_state hold (q.coroutines cur)) q.coroutines))
      (held-Sound cur q k.sound (k.runs cur r).0, k.grown)

-- The front of the queue is taken off.
popped-Running :
    (cur : ℕ) (rest : List ℕ) (p : Processor)
    → Sound p
    → p.runnable ≡ cur ∷ rest
    → Sound (record p { runnable = rest }) × Running cur (record p { runnable = rest })
popped-Running cur rest p s e =
    let c : (j : ℕ) → count j p.runnable ≡ count j (cur ∷ rest) = λ j. ap (count j) e in
    let k = s.once cur in
    let l = s.known cur in
    let m = c cur in
    let (f, g) = s.active cur (ground arith) in
    (
      record {
        once = λ j. let n = c j in let o = s.once j in ground arith;
        ended = s.ended;
        active = λ j h. let n = c j in s.active j (ground arith);
        known = λ j h. let n = c j in let o = s.known j h in ground arith;
      },
      ((ground arith, ground arith, ground arith, g), f),
    )

add_pending-Goes :
    (xs : List ℕ) (p : Processor)
    → Goes xs p
    → (q : Processor) × (add_pending_tasks_into_queue p ≡ some q) × Goes xs q
unfolding add_pending_tasks_into_queue
add_pending-Goes xs p (s, x) =
    let (q, e, k) = add_tasks-Keeps p.pending (record p { pending = [] }) s in
    (q, e, (k.sound, Extends-trans xs p.runnable q.runnable x k.grown))

resume-Goes :
    (cur : ℕ) (b : Burst) (p : Processor)
    → Sound p
    → Running cur p
    → Admitted cur b.actions p
    → (q : Processor) × (resume cur b p ≡ some q) × Goes p.runnable (retire cur q)
unfolding resume
resume-Goes cur b p s r h =
    let ((_, _, _, inside), e) = r in
    let (q, f, (s', x, r')) = perform-Acts cur b.actions p s r h in
    let (s'', y) = retire-finish cur b.ending q s' r' in
    (
      finish cur b.ending q,
      rw (e, inside, f) refl,
      (s'', Extends-trans p.runnable q.runnable (retire cur (finish cur b.ending q)).runnable x y),
    )

-- The descriptors of an answer belong to coroutines that wait, each once.
abbrev pub Woken : List ℕ → Processor → Type 0
Woken [] p = Unit
Woken (fd ∷ fds) p = (i : ℕ) × (find fd p.co_map ≡ some i) × Waiting i p × Woken fds (add_co i p)

poll_events-Goes :
    (fds : List ℕ) (p : Processor)
    → Sound p
    → Woken fds p
    → (q : Processor) × (poll_events fds p ≡ some q) × Sound q
unfolding poll_events
poll_events-Goes [] p s w = (p, refl, s)
poll_events-Goes (fd ∷ fds) p s (i, e, w, ws) =
    let (q, f, t) = poll_events-Goes fds (add_co i p) (add_co-Sound i p s w) ws in (q, rw (e) f, t)

-- What a round asks of the kernel and of the timers.
abbrev pub Fair : List ℕ → Burst → List ℕ → Processor → Type 0
Fair fds b [] p = Woken fds (record p { epolling = false })
Fair fds b (cur ∷ rest) p = Admitted cur b.actions (record p { runnable = rest })

pub run_with_front :
    (fds : List ℕ) (b : Burst) (cur : ℕ) (rest : List ℕ) (p : Processor)
    → Sound p
    → p.runnable ≡ cur ∷ rest
    → Fair fds b (cur ∷ rest) p
    → (q : Processor) × (run_with fds b (cur ∷ rest) p ≡ some (cur ∷ [], q)) × Goes rest q
unfolding run_with
run_with_front fds b cur rest p s e h =
    let (s', r) = popped-Running cur rest p s e in
    let (q, f, g) = resume-Goes cur b (record p { runnable = rest }) s' r h in
    let (q', f', g') = add_pending-Goes rest (retire cur q) g in (q', rw (f, f') refl, g')

pub run_with-poll :
    (fds : List ℕ) (b : Burst) (p : Processor)
    → Sound p
    → Fair fds b [] p
    → (q : Processor) × (run_with fds b [] p ≡ some ([], q)) × Sound q
unfolding run_with poll
run_with-poll fds b p s h =
    let (q, f, t) = poll_events-Goes fds (record p { epolling = false }) s h in
    let (q', f', (t', x)) = add_pending-Goes q.runnable q (t, Extends-refl q.runnable) in
    (q', rw (f, f') refl, t')
