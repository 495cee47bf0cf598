-- ===== src/Net/EventLoop/Lives.antt =====
-- A whole run of the loop of burger/net/EventLoop.cc: what it has run, and when it ends.
use burger.Common.{
  ℕ, ◌+◌, ◌≤◌, ◌≡◌, refl, sym, ap, ◌∙◌, Bool, true, false, not, ◌||◌, Option, none, some, List, [],
  ◌∷◌, ◌++◌, append_assoc, append-nil, if◌then◌else◌, ◌&&◌, arith, Bool-cases, inl, inr,
}
use burger.Net.EventLoop.{Func, Loop, is_in_loop_thread}
use burger.Net.EventLoop.Rounds.{total, rounds, total-append}
use burger.Net.EventLoop.Cycle.{Turn, turn, turns, loop}
use burger.Net.EventLoop.Ends.{queueing, work, quits_turn, wakes, turn_lem}

-- Whether a call during the turns quits the loop.
abbrev pub quits_any : List Turn → Bool
quits_any [] = false
quits_any (t ∷ ts) = quits_turn t || quits_any ts

-- How many functors run in the end for all that is queued during the turns.
abbrev pub turns_total : (ℕ → List Func) → List Turn → ℕ
turns_total funcs [] = 0
turns_total funcs (t ∷ ts) = total (work funcs t) + turns_total funcs ts

-- What runs: in each turn all that waits and that is queued, up to the turn with a call of `quit`.
pub turns_log : (ℕ → List Func) → ℕ → List Func → List Turn → List ℕ
turns_log funcs fuel waiting [] = []
turns_log funcs fuel waiting (t ∷ ts) =
    let later = turns_log funcs fuel [] ts in
    rounds fuel (waiting ++ work funcs t) ++ (if quits_turn t then [] else later)

turns-quit :
    (handle : ℕ → Loop → Option Loop) (fuel : ℕ) (ts : List Turn) (l : Loop)
    → l.quit ≡ true
    → turns handle fuel ts l ≡ some (true, record l { looping = false })
unfolding turns
turns-quit handle fuel [] l q = ground arith
turns-quit handle fuel (t ∷ ts) l q = ground arith

turns-turn :
    (handle : ℕ → Loop → Option Loop) (fuel : ℕ) (t : Turn) (ts : List Turn) (l l1 : Loop)
    → l.quit ≡ false
    → turn handle fuel t l ≡ some l1
    → turns handle fuel (t ∷ ts) l ≡ turns handle fuel ts l1
unfolding turns
turns-turn handle fuel t ts l l1 q e = ground arith

-- What has become of a loop that ran from `l`.
abbrev pub Ran : (ℕ → List Func) → ℕ → List Turn → Loop → Loop → Type 0
Ran funcs fuel ts l l' =
    (l'.log ≡ l.log ++ turns_log funcs fuel l.queue ts)
    × (l'.looping ≡ (l.looping && not (quits_any ts)))

module _ (funcs : ℕ → List Func) (fuel : ℕ) where
  after_turn : Turn → Loop → Loop
  after_turn t l = record l {
    quit = l.quit || quits_turn t;
    event_handling = false;
    calling = false;
    active = t.active;
    current = none;
    queue = [];
    wakeups = l.wakeups + wakes l.thread t.waiting + wakes l.thread t.handling;
    log = l.log ++ rounds fuel (l.queue ++ work funcs t);
  }

  turns_lem :
      (ts : List Turn) (l : Loop)
      → l.quit ≡ false
      → total l.queue + turns_total funcs ts ≤ fuel
      → (l' : Loop) × (turns (queueing funcs) fuel ts l ≡ some (quits_any ts, l'))
        × Ran funcs fuel ts l l'
  unfolding turns turns_log after_turn
  turns_lem [] l q h = (l, ground arith, ground (arith, append-nil l.log))
  turns_lem (t ∷ ts) l q h =
      let fits : total (l.queue ++ work funcs t) ≤ fuel =
        omega (arith, h, total-append l.queue (work funcs t)) in
      let l1 = after_turn t l in
      let e = turn_lem funcs fuel t l fits in
      elim (Bool-cases (quits_turn t)) [
        | inl u ↦ (
          record l1 { looping = false },
          (turns-turn (queueing funcs) fuel t ts l l1 q e
              ∙ turns-quit (queueing funcs) fuel ts l1 (ground arith)
              ∙ ap (λ b. some (b, record l1 { looping = false })) (rw u refl)),
          (rw u (ap (λ x. l.log ++ x) (sym (append-nil _))), ground arith),
        )
        | inr u ↦
            let (l', e', (log, looping)) = turns_lem ts l1 (ground arith) (omega (arith, h)) in
            (
              l',
              turns-turn (queueing funcs) fuel t ts l l1 q e
                  ∙ e'
                  ∙ ap (λ b. some (b, l')) (rw u refl),
              (log ∙ rw u (append_assoc l.log _ _), ground arith),
            )
      ]

-- When an idle loop that is called in its own thread has fuel for all functors, the callbacks of
-- the channels only queue functors, and the answers of epoll come as given, loop ends just when
-- one of these turns has a call of quit from a thread, not for a call before it; up to the turn of
-- that call it runs in each turn, round by round, all functors that waited, then those that other
-- threads queued while it waited, those of the callbacks in the order of the active channels, and
-- those queued while it handled them.
pub loop_lem :
    (funcs : ℕ → List Func) (fuel tid : ℕ) (ts : List Turn) (l : Loop)
    → l.looping ≡ false
    → is_in_loop_thread tid l ≡ true
    → total l.queue + turns_total funcs ts ≤ fuel
    → (l' : Loop) × (loop (queueing funcs) fuel tid ts l ≡ some (quits_any ts, l'))
      × (l'.log ≡ l.log ++ turns_log funcs fuel l.queue ts)
      × (l'.looping ≡ not (quits_any ts))
unfolding loop
loop_lem funcs fuel tid ts l idle here h =
    let (l', e, (log, looping)) =
      turns_lem funcs fuel ts (record l { looping = true; quit = false }) refl h in
    (l', ground arith, log, looping)
