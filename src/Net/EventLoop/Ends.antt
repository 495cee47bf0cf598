-- ===== src/Net/EventLoop/Ends.antt =====
-- What a loop has run after the answers of epoll, and when it ends.
use burger.Common.{
  ℕ, suc, ◌+◌, ◌≤◌, ◌≡◌, refl, sym, ap, ◌∙◌, Bool, true, false, ◌||◌, Option, none, some, List, [],
  ◌∷◌, ◌++◌, append_assoc, append-nil, if◌then◌else◌, ◌==◌, ==_refl, arith,
}
use mathlib.Core.Path.{subst}
use burger.Net.EventLoop.{Func, Loop, queue_in_loop, stop, wakeup}
use burger.Net.EventLoop.Rounds.{total, rounds, do_queue_in_loop_funcs-rounds}
use burger.Net.EventLoop.Cycle.{Act, queue, quit, act, acts, Turn, handle_all, turn}

-- The functors of some calls, and whether one of them quits the loop.
abbrev pub funcs_of : List Act → List Func
funcs_of [] = []
funcs_of (queue tid f ∷ rest) = f ∷ funcs_of rest
funcs_of (quit tid ∷ rest) = funcs_of rest

abbrev pub quits : List Act → Bool
quits [] = false
quits (queue tid f ∷ rest) = quits rest
quits (quit tid ∷ rest) = true

-- The writes to the eventfd, by the threads other than the loop's.
abbrev pub caller : Act → ℕ
caller (queue tid f) = tid
caller (quit tid) = tid

abbrev pub wakes : ℕ → List Act → ℕ
wakes thread [] = 0
wakes thread (a ∷ rest) = let n = wakes thread rest in if thread == caller a then n else suc n

acts_lem :
    (rest : List Act) (l : Loop)
    → acts rest l ≡ record l {
      queue = l.queue ++ funcs_of rest;
      quit = l.quit || quits rest;
      wakeups = l.wakeups + wakes l.thread rest;
    }
unfolding acts act queue_in_loop stop wakeup
acts_lem [] l = ground (arith, append-nil l.queue)
acts_lem (queue tid f ∷ rest) l =
    ground
      (arith, acts_lem rest (act (queue tid f) l), append_assoc l.queue (f ∷ []) (funcs_of rest))
acts_lem (quit tid ∷ rest) l = ground (arith, acts_lem rest (act (quit tid) l))

-- The calls of a channel's callbacks that queue functors, in the loop's thread.
abbrev pub own : ℕ → List Func → List Act
own thread [] = []
own thread (f ∷ fs) = queue thread f ∷ own thread fs

abbrev pub queueing : (ℕ → List Func) → ℕ → Loop → Option Loop
queueing funcs c l = some (acts (own l.thread (funcs c)) l)

funcs_of-own : (thread : ℕ) (fs : List Func) → funcs_of (own thread fs) ≡ fs
funcs_of-own thread [] = refl
funcs_of-own thread (f ∷ fs) = ap (◌∷◌ f) (funcs_of-own thread fs)

quits-own : (thread : ℕ) (fs : List Func) → quits (own thread fs) ≡ false
quits-own thread [] = refl
quits-own thread (f ∷ fs) = quits-own thread fs

wakes-own : (thread : ℕ) (fs : List Func) → wakes thread (own thread fs) ≡ 0
wakes-own thread [] = refl
wakes-own thread (f ∷ fs) = rw (==_refl thread) (wakes-own thread fs)

acts-own :
    (fs : List Func) (l : Loop) → acts (own l.thread fs) l ≡ record l { queue = l.queue ++ fs }
acts-own fs l = ground (
  arith,
  acts_lem (own l.thread fs) l,
  funcs_of-own l.thread fs,
  quits-own l.thread fs,
  wakes-own l.thread fs,
)

-- What the callbacks of the channels queue.
abbrev pub over : (ℕ → List Func) → List ℕ → List Func
over funcs [] = []
over funcs (c ∷ cs) = funcs c ++ over funcs cs

-- All that is queued during a turn, in order.
abbrev pub work : (ℕ → List Func) → Turn → List Func
work funcs t = funcs_of t.waiting ++ (over funcs t.active ++ funcs_of t.handling)

abbrev pub quits_turn : Turn → Bool
quits_turn t = quits t.waiting || quits t.handling

or_assoc : (a b c : Bool) → ((a || b) || c) ≡ (a || (b || c))
or_assoc true b c = refl
or_assoc false b c = refl

module _ (funcs : ℕ → List Func) (fuel : ℕ) where
  handle_all-queueing :
      (cs : List ℕ) (l : Loop)
      → (cur : Option ℕ) × (handle_all (queueing funcs) fuel cs l
          ≡ some (record l { current = cur; queue = l.queue ++ over funcs cs }))
  unfolding handle_all
  handle_all-queueing [] l = (l.current, ground (arith, append-nil l.queue))
  handle_all-queueing (c ∷ cs) l =
      let next : Loop = record l { current = some c; queue = l.queue ++ funcs c } in
      let (cur, e) = handle_all-queueing cs next in
      (
        cur,
        ground (
          arith,
          e,
          acts-own (funcs c) (record l { current = some c }),
          append_assoc l.queue (funcs c) (over funcs cs),
        ),
      )

  -- One turn runs all that waits and all that is queued during it.
  pub turn_lem :
      (t : Turn) (l : Loop)
      → total (l.queue ++ work funcs t) ≤ fuel
      → turn (queueing funcs) fuel t l
        ≡ some (record l {
          quit = l.quit || quits_turn t;
          event_handling = false;
          calling = false;
          active = t.active;
          current = none;
          queue = [];
          wakeups = l.wakeups + wakes l.thread t.waiting + wakes l.thread t.handling;
          log = l.log ++ rounds fuel (l.queue ++ work funcs t);
        })
  unfolding turn
  turn_lem t l h =
      let l0 : Loop = record l { active = [] } in
      let l1 : Loop = record l {
        active = t.active;
        event_handling = true;
        queue = l.queue ++ funcs_of t.waiting;
        quit = l.quit || quits t.waiting;
        wakeups = l.wakeups + wakes l.thread t.waiting;
      } in
      let (cur, e) = handle_all-queueing t.active l1 in
      let l2 : Loop = record l1 {
        current = none;
        event_handling = false;
        queue = l1.queue ++ over funcs t.active;
      } in
      let l3 : Loop = record l2 {
        queue = l2.queue ++ funcs_of t.handling;
        quit = l2.quit || quits t.handling;
        wakeups = l2.wakeups + wakes l.thread t.handling;
      } in
      let q : l3.queue ≡ l.queue ++ work funcs t =
        append_assoc (l.queue ++ funcs_of t.waiting) (over funcs t.active) (funcs_of t.handling)
        ∙ append_assoc l.queue (funcs_of t.waiting) (over funcs t.active ++ funcs_of t.handling) in
      let d = do_queue_in_loop_funcs-rounds fuel l3 (subst (λ x. total x ≤ fuel) (sym q) h) in
      rw
        (
          acts_lem t.waiting l0,
          e,
          acts_lem t.handling l2,
          d,
          q,
          or_assoc l.quit (quits t.waiting) (quits t.handling),
        )
        refl
