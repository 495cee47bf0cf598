-- ===== src/Net/Processor/Bursts.antt =====
-- burger/net/Processor.cc: what a coroutine does between two switches keeps the queues sound, as long as the
-- timers that it serves wake only coroutines that wait.
use burger.Common.{
  ℕ, suc, ◌≡◌, ◌≢◌, refl, Bool, true, false, Option, none, some, List, [], ◌∷◌, ◌++◌, if◌then◌else◌,
  arith,
}
use burger.Base.Coroutine.{set_fd}
use burger.Net.Processor.{
  Processor, change, add_co, add_pending_task, quit, find, update_found, update_event, remove_found,
  remove_event, Action, spawns, pends, wakes, updates, removes, stops, act, perform, erase,
}
use burger.Net.Processor.Sound.{
  Sound, Waiting, Running, Extends, Extends-refl, Extends-trans, store-SoundAt, add_co-Sound,
  add_co-Running, Keeps, Keeps-refl, add_task-Keeps,
}

abbrev pub Allowed : ℕ → Action → Processor → Type 0
Allowed cur (spawns cb) p = Unit
Allowed cur (pends cb) p = Unit
Allowed cur (wakes i) p = Waiting i p × (i ≢ cur)
Allowed cur (updates fd) p = Unit
Allowed cur (removes fd) p = Unit
Allowed cur stops p = Unit

abbrev pub Admitted : ℕ → List Action → Processor → Type 0
Admitted cur [] p = Unit
Admitted cur (a ∷ actions) p =
    Allowed cur a p × ((q : Processor) → act cur a p ≡ some q → Admitted cur actions q)

set_fd-Keeps :
    (i : ℕ) (fd : Option ℕ) (co_map : List (ℕ × ℕ)) (p : Processor)
    → Sound p
    → Keeps p (change i (set_fd fd) (record p { co_map = co_map }))
set_fd-Keeps i fd co_map p s = record {
  sound =
      store-SoundAt i (set_fd fd (p.coroutines i)) p.idle p.runnable p.next p.coroutines refl refl
        s;
  grown = Extends-refl p.runnable;
  runs = λ cur ((a, b, c, d), e). ((a, b, c, ground arith), ground arith);
}

update_found-Keeps :
    (cur fd : ℕ) (p : Processor) (o : Option ℕ) → Sound p → Keeps p (update_found cur fd p o)
update_found-Keeps cur fd p none s = set_fd-Keeps cur (some fd) ((fd, cur) ∷ p.co_map) p s
update_found-Keeps cur fd p (some i) s = Keeps-refl p s

pub update_event-Keeps : (cur fd : ℕ) (p : Processor) → Sound p → Keeps p (update_event cur fd p)
unfolding update_event
update_event-Keeps cur fd p s = update_found-Keeps cur fd p (find fd p.co_map) s

remove_found-Keeps :
    (fd : ℕ) (p : Processor) (o : Option ℕ) → Sound p → Keeps p (remove_found fd p o)
remove_found-Keeps fd p none s = Keeps-refl p s
remove_found-Keeps fd p (some i) s = set_fd-Keeps i none (erase fd p.co_map) p s

pub remove_event-Keeps : (fd : ℕ) (p : Processor) → Sound p → Keeps p (remove_event fd p)
unfolding remove_event
remove_event-Keeps fd p s = remove_found-Keeps fd p (find fd p.co_map) s

-- A wake-up that is conditional.
if_Keeps : (b : Bool) (p q r : Processor) → Keeps p q → Keeps p r → Keeps p (if b then q else r)
if_Keeps true p q r k l = k
if_Keeps false p q r k l = l

-- A change to nothing that the queues depend on.
wakeups_Keeps :
    (stop : Bool) (pending : List ℕ) (wakeups : ℕ) (p : Processor)
    → Sound p
    → Keeps p (record p { stop = stop; pending = pending; wakeups = wakeups })
wakeups_Keeps stop pending wakeups p s = record {
  sound = s;
  grown = Extends-refl p.runnable;
  runs = λ cur r. r;
}

add_pending_task-Keeps : (cb : ℕ) (p : Processor) → Sound p → Keeps p (add_pending_task cb p)
unfolding add_pending_task
add_pending_task-Keeps cb p s =
    let pending = p.pending ++ cb ∷ [] in
    let q = record p { pending = pending } in
    if_Keeps p.epolling p (record q { wakeups = suc p.wakeups }) q
      (wakeups_Keeps p.stop pending (suc p.wakeups) p s)
      (wakeups_Keeps p.stop pending p.wakeups p s)

quit-Keeps : (p : Processor) → Sound p → Keeps p (quit p)
unfolding quit
quit-Keeps p s =
    let q = record p { stop = true } in
    if_Keeps p.epolling p (record q { wakeups = suc p.wakeups }) q
      (wakeups_Keeps true p.pending (suc p.wakeups) p s)
      (wakeups_Keeps true p.pending p.wakeups p s)

-- What an action does for the coroutine that runs.
abbrev Acts : ℕ → Processor → Processor → Type 0
Acts cur p q = Sound q × Extends p.runnable q.runnable × Running cur q

Keeps→Acts : (cur : ℕ) (p q : Processor) → Running cur p → Keeps p q → Acts cur p q
Keeps→Acts cur p q r k = (k.sound, k.grown, k.runs cur r)

act-Acts :
    (cur : ℕ) (a : Action) (p : Processor)
    → Sound p
    → Running cur p
    → Allowed cur a p
    → (q : Processor) × (act cur a p ≡ some q) × Acts cur p q
unfolding act add_co
act-Acts cur (spawns cb) p s r h =
    let (q, e, k) = add_task-Keeps cb p s in (q, e, Keeps→Acts cur p q r k)
act-Acts cur (pends cb) p s r h =
    (add_pending_task cb p, refl, Keeps→Acts cur p _ r (add_pending_task-Keeps cb p s))
act-Acts cur (wakes i) p s r (w, n) =
    (add_co i p, refl, (add_co-Sound i p s w, (i ∷ [], refl), add_co-Running i cur p n r))
act-Acts cur (updates fd) p s r h =
    (update_event cur fd p, refl, Keeps→Acts cur p _ r (update_event-Keeps cur fd p s))
act-Acts cur (removes fd) p s r h =
    (remove_event fd p, refl, Keeps→Acts cur p _ r (remove_event-Keeps fd p s))
act-Acts cur stops p s r h = (quit p, refl, Keeps→Acts cur p _ r (quit-Keeps p s))

pub perform-Acts :
    (cur : ℕ) (actions : List Action) (p : Processor)
    → Sound p
    → Running cur p
    → Admitted cur actions p
    → (q : Processor) × (perform cur actions p ≡ some q) × Acts cur p q
unfolding perform
perform-Acts cur [] p s r h = (p, refl, (s, Extends-refl p.runnable, r))
perform-Acts cur (a ∷ actions) p s r (h, k) =
    let (q, e, (s', x, r')) = act-Acts cur a p s r h in
    let (t, f, (s'', y, r'')) = perform-Acts cur actions q s' r' (k q e) in
    (t, rw (e) f, (s'', Extends-trans p.runnable q.runnable t.runnable x y, r''))
