-- ===== src/Net/TimerQueue.antt =====
-- burger/net/ITimerQueue.cc, burger/net/TimerQueue.cc and the part of burger/net/Timer.cc that they use. A
-- time is its microseconds, and a shared timer its address, which `std::set` orders by; an entry's
-- time is its timer's expiration, since only `restart` changes that, on a timer that is not in the
-- set. A failed `assert` is `none`.
pub mod Order
pub mod Expired
pub mod Delay
pub mod Kept
mod Tests
use burger.Common.{
  ℕ, suc, ◌+◌, ◌*◌, ◌-◌, ◌/◌, ◌%◌, ◌^◌, Bool, true, false, not, ◌&&◌, ◌||◌, Option, none, some,
  List, [], ◌∷◌, ltb, ◌==◌, if◌then◌else◌, ◌>>=◌, ◌>>◌, assert, add64, sub64,
}

-- `delta` is the interval in microseconds, as `addTime` converts it.
pub record Timer : Type 0 where
  pub address : ℕ
  pub expiration : ℕ
  pub delta : ℕ
  pub repeat : Bool

-- `armed` is the time that the timer descriptor was last set to.
pub record Queue : Type 0 where
  pub timers : List Timer
  pub canceling : List ℕ
  pub calling : Bool
  pub armed : Option ℕ

-- The order of `std::pair<Timestamp, std::shared_ptr<Timer>>`.
abbrev pub entry_less : ℕ → ℕ → ℕ → ℕ → Bool
entry_less when address when' address' = ltb when when' || (when == when' && ltb address address')

abbrev pub less : Timer → Timer → Bool
less t u = entry_less t.expiration t.address u.expiration u.address

abbrev pub same : Timer → Timer → Bool
same t u = t.expiration == u.expiration && t.address == u.address

-- `std::set::insert`: `none` when the entry is there.
unfoldable pub insert_entry : Timer → List Timer → Option (List Timer)
insert_entry t [] = some (t ∷ [])
insert_entry t (u ∷ us) =
    let rest = insert_entry t us in
    if less t u
    then some (t ∷ u ∷ us)
    else if less u t
    then (rest >>= λ vs. some (u ∷ vs))
    else none

-- `std::set::erase` of one entry: `none` when it is not there.
unfoldable pub erase_entry : Timer → List Timer → Option (List Timer)
erase_entry t [] = none
erase_entry t (u ∷ us) =
    let rest = erase_entry t us in if same t u then some us else (rest >>= λ vs. some (u ∷ vs))

abbrev pub is_earliest : ℕ → List Timer → Bool
is_earliest when [] = true
is_earliest when (u ∷ us) = ltb when u.expiration

unfoldable pub insert : Timer → Queue → Option (Bool × Queue)
insert t q = do
  timers ← insert_entry t q.timers
  some (is_earliest t.expiration q.timers, record q { timers = timers })

unfoldable pub add_timer_in_loop : Timer → Queue → Option Queue
add_timer_in_loop t q = do
  (earliest, q') ← insert t q
  some (if earliest then record q' { armed = some t.expiration } else q')

-- `cancelInLoop` after the search of the set, whose outcome comes first.
abbrev pub cancel_with : Option (List Timer) → Timer → Queue → Queue
cancel_with (some timers) t q = record q { timers = timers }
cancel_with none t q = record q { canceling = t.address ∷ q.canceling }

unfoldable pub cancel_in_loop : Timer → Queue → Queue
cancel_in_loop t q = cancel_with (erase_entry t q.timers) t q

-- `lower_bound` of an entry with a null pointer: what comes before it, and the rest.
unfoldable pub lower_bound : ℕ → List Timer → List Timer × List Timer
lower_bound now [] = ([], [])
lower_bound now (t ∷ ts) =
    let (expired, rest) = lower_bound now ts in
    if entry_less t.expiration t.address now 0 then (t ∷ expired, rest) else ([], t ∷ ts)

unfoldable pub get_expired_list : ℕ → Queue → Option (List Timer × Queue)
get_expired_list now q =
    let (expired, rest) = lower_bound now q.timers in
    assert (is_earliest now rest) >> some (expired, record q { timers = rest })

unfoldable pub restart : ℕ → Timer → Timer
restart now t = record t { expiration = if t.repeat then add64 now t.delta else 0 }

abbrev pub contains : ℕ → List ℕ → Bool
contains a [] = false
contains a (b ∷ bs) = a == b || contains a bs

unfoldable pub reset_timers : List Timer → ℕ → Queue → Option Queue
reset_timers [] now q = some q
reset_timers (t ∷ ts) now q = do
  q' ←
      (if t.repeat && not (contains t.address q.canceling)
        then (insert (restart now t) q >>= λ (_, q'). some q')
        else some q)
  reset_timers ts now q'

abbrev pub next_expire : List Timer → ℕ
next_expire [] = 0
next_expire (t ∷ ts) = t.expiration

unfoldable pub reset : List Timer → ℕ → Queue → Option Queue
reset expired now q = do
  q' ← reset_timers expired now q
  let next = next_expire q'.timers
  some (if ltb 0 next then record q' { armed = some next } else q')

-- The expired callbacks in order. What a callback does to the queue is an argument.
unfoldable pub run_all : (Timer → Queue → Option Queue) → List Timer → Queue → Option Queue
run_all callback [] q = some q
run_all callback (t ∷ ts) q = callback t q >>= run_all callback ts

unfoldable pub handle_read : (Timer → Queue → Option Queue) → ℕ → Queue → Option Queue
handle_read callback now q = do
  (expired, q₁) ← get_expired_list now q
  q₂ ← run_all callback expired (record q₁ { calling = true; canceling = [] })
  reset expired now (record q₂ { calling = false })

-- `howMuchTimeFromNow`: seconds and nanoseconds.
unfoldable pub how_much_time_from_now : ℕ → ℕ → ℕ × ℕ
how_much_time_from_now when now =
    let diff = sub64 when now in
    let microseconds = if ltb diff 100 then 100 else diff in
    (microseconds / 1000000, (microseconds % 1000000) * 1000)
