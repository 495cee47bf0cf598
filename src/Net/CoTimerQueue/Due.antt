-- ===== src/Net/CoTimerQueue/Due.antt =====
-- burger/net/CoTimerQueue.cc: what becomes of the timers that are due and do not repeat.
use burger.Common.{ℕ, ◌≡◌, false, Option, some, List, [], ◌∷◌, ◌++◌, if◌then◌else◌}
use burger.Net.TimerQueue.{Timer, contains}
use burger.Net.Processor.{Processor}
use burger.Net.CoTimerQueue.{Job, resumes, calls, Timers, arm}

abbrev pub co_of : Job → List ℕ
co_of (resumes i) = i ∷ []
co_of (calls cb) = []

abbrev pub cb_of : Job → List ℕ
cb_of (resumes i) = []
cb_of (calls cb) = cb ∷ []

-- The coroutines that timers resume, and the callbacks that they hand over, but for the cancelled.
abbrev pub gathered : (Job → List ℕ) → (ℕ → Job) → List ℕ → List Timer → List ℕ
gathered part jobs canceling [] = []
gathered part jobs canceling (t ∷ due) =
    let rest = gathered part jobs canceling due in
    if contains t.address canceling then rest else part (jobs t.address) ++ rest

abbrev pub AllOnce : List Timer → Type 0
AllOnce [] = Unit
AllOnce (t ∷ ts) = (t.repeat ≡ false) × AllOnce ts

-- A timer that fires puts its coroutine behind the runnable ones, or its callback behind the pending.
abbrev Fired : List ℕ → List ℕ → Processor → Processor → Type 0
Fired cos cbs p q = (q.runnable ≡ p.runnable ++ cos) × (q.pending ≡ p.pending ++ cbs)

-- What a list of timers does, all told.
abbrev Deals : List Timer → Timers → Processor → Option (Timers × Processor) → Type 0
Deals due ts p result =
    let cancelled = ts.queue.canceling in
    (q : Processor) × (result ≡ some (ts, q))
    × Fired (gathered co_of ts.jobs cancelled due) (gathered cb_of ts.jobs cancelled due) p q

-- The timers behind those that were due.
abbrev pub left_with : List Timer → Timers → Timers
left_with rest ts = record ts {
  queue = arm rest (record ts.queue { timers = rest; canceling = [] });
}
