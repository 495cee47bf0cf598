-- ===== src/Net/CoTimerQueue.antt =====
-- burger/net/CoTimerQueue.cc: the timers of a processor, over the set of burger/net/ITimerQueue.cc. A timer
-- wakes a coroutine or hands the processor a callback. `none` is a failed assert.
pub mod Due
mod Tests
use burger.Common.{
  ℕ, zero, suc, ◌+◌, Bool, true, false, not, Option, none, some, List, [], ◌∷◌, ◌++◌, if◌then◌else◌,
  ◌==◌, ◌>>=◌, ◌>>◌, add64,
}
use burger.Base.Coroutine.{fresh}
use burger.Net.TimerQueue.{
  Timer, Queue, insert_entry, is_earliest, get_expired_list, cancel_in_loop, contains,
}
use burger.Net.Processor.{Processor, store, add_co, add_pending_task, reset_and_get_co}

-- What a timer holds: its coroutine, or its callback.
pub data Job : Type 0 where
  resumes calls : ℕ → Job

-- `jobs` are the timers' by their addresses.
pub record Timers : Type 0 where
  pub queue : Queue
  pub jobs : ℕ → Job

abbrev pub set_job : ℕ → Job → (ℕ → Job) → ℕ → Job
set_job a j jobs b = if a == b then j else jobs b

-- `std::set::insert`, which leaves the set as it is when the entry is there.
abbrev pub inserted : List Timer → Option (List Timer) → List Timer
inserted timers none = timers
inserted timers (some timers') = timers'

unfoldable pub insert : Timer → Queue → Queue
insert t q = record q { timers = inserted q.timers (insert_entry t q.timers) }

unfoldable pub add_timer : Timer → Job → Timers → Timers
unfolding insert
add_timer t j ts =
    let q = insert t ts.queue in
    record ts {
      queue =
          if is_earliest t.expiration ts.queue.timers
          then record q { armed = some t.expiration }
          else q;
      jobs = set_job t.address j ts.jobs;
    }

unfoldable pub cancel : Timer → Timers → Timers
cancel t ts = record ts { queue = cancel_in_loop t ts.queue }

-- What an expired timer does to its processor.
unfoldable pub fire : Job → Processor → Processor
fire (resumes i) p = add_co i p
fire (calls cb) p = add_pending_task cb p

-- A coroutine of its own, which is not one of the idle ones.
abbrev pub make_co : ℕ → Processor → ℕ × Processor
make_co cb p =
    (p.next, record p { coroutines = store p.next (fresh cb) p.coroutines; next = suc p.next })

-- 0 stands for the callback of a coroutine that has none.
abbrev pub callback_or_null : Option ℕ → ℕ
callback_or_null none = 0
callback_or_null (some cb) = cb

-- The coroutine of a timer that repeats, for its next time.
unfoldable pub renew : Job → Processor → Option (ℕ × Processor)
renew (resumes i) p = reset_and_get_co (callback_or_null (p.coroutines i).callback) p
renew (calls cb) p = some (make_co cb p)

abbrev pub requeue : Timer → ℕ → Timers → ℕ × Processor → Timers × Processor
requeue t now ts (i, p) = (
  record ts {
    queue = insert (record t { expiration = add64 now t.delta }) ts.queue;
    jobs = set_job t.address (resumes i) ts.jobs;
  },
  p,
)

-- One expired timer.
unfoldable pub deal : Timer → ℕ → Timers × Processor → Option (Timers × Processor)
unfolding fire renew insert
deal t now (ts, p) =
    let job = ts.jobs t.address in
    let again = renew job (fire job p) in
    if contains t.address ts.queue.canceling
    then some (ts, p)
    else if t.repeat
    then (again >>= λ r. some (requeue t now ts r))
    else some (ts, fire job p)

unfoldable pub deal_all : List Timer → ℕ → Timers × Processor → Option (Timers × Processor)
unfolding deal
deal_all [] now s = some s
deal_all (t ∷ expired) now s = deal t now s >>= deal_all expired now

abbrev pub arm : List Timer → Queue → Queue
arm [] q = q
arm (t ∷ timers) q = record q { armed = some t.expiration }

abbrev pub cleared : Timers × Processor → Option (Timers × Processor)
cleared (ts, p) =
    let q : Queue = record ts.queue { canceling = [] } in
    some (record ts { queue = arm q.timers q }, p)

-- `now` is the time at which all of the call happens.
unfoldable pub deal_with_expired_timer : ℕ → Timers → Processor → Option (Timers × Processor)
unfolding deal_all
deal_with_expired_timer now ts p =
    let expired = get_expired_list now ts.queue in
    if p.stop
    then some (ts, p)
    else (expired >>= λ (due, q). deal_all due now (record ts { queue = q }, p) >>= cleared)
