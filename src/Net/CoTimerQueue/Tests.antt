-- ===== src/Net/CoTimerQueue/Tests.antt =====
-- Timers of a processor that expire, and the theorem at them.
use burger.Common.{
  ℕ, ◌≡◌, refl, true, false, some, Option, List, [], ◌∷◌, ◌>>=◌, ◌==◌, if◌then◌else◌,
}
use burger.Net.TimerQueue.{Timer, insert_entry, get_expired_list, lower_bound}
use burger.Net.TimerQueue.Expired.{Due}
use burger.Net.Processor.{Processor, empty, add_pending_task}
use burger.Net.CoTimerQueue.{
  Job, resumes, calls, Timers, insert, deal_with_expired_timer, deal_all, deal, fire, renew,
}

abbrev sleeper : Timer
sleeper = record { address = 40; expiration = 100; delta = 0; repeat = false }

abbrev caller : Timer
caller = record { address = 50; expiration = 200; delta = 0; repeat = false }

abbrev later : Timer
later = record { address = 60; expiration = 900; delta = 0; repeat = false }

abbrev jobs : ℕ → Job
jobs a = if a == 50 then calls 7 else resumes 5

abbrev timers : Timers
timers = record {
  queue = record {
    timers = sleeper ∷ caller ∷ later ∷ [];
    canceling = [];
    calling = false;
    armed = some 100;
  };
  jobs = jobs;
}

-- A timer that repeats is in the set again, with a coroutine for its next time.
abbrev ticking : Timers
ticking = record timers {
  queue = record timers.queue {
    timers = record caller { delta = 300; repeat = true } ∷ later ∷ [];
  };
}

abbrev seen : Timers × Processor → Option (List Timer × List ℕ × ℕ)
seen (ts, p) = some (ts.queue.timers, p.pending, p.next)

ticked :
    (deal_with_expired_timer 500 ticking empty >>= seen)
    ≡ some (record caller { expiration = 800; delta = 300; repeat = true } ∷ later ∷ [], 7 ∷ [], 1)
unfolding deal_with_expired_timer deal_all deal fire renew insert insert_entry get_expired_list
    lower_bound add_pending_task
ticked = refl
