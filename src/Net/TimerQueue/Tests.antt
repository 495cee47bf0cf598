-- ===== src/Net/TimerQueue/Tests.antt =====
-- Runs of the timer queue, and its theorems at concrete queues.
use burger.Common.{◌+◌, ◌≡◌, refl, true, false, Option, some, [], ◌∷◌}
use burger.Net.TimerQueue.{
  Timer, Queue, get_expired_list, handle_read, add_timer_in_loop, cancel_in_loop, lower_bound,
  insert, insert_entry, erase_entry, reset, reset_timers, run_all, restart,
}

abbrev once : Timer
once = record { address = 5; expiration = 100; delta = 0; repeat = false }

abbrev again : Timer
again = record { address = 4; expiration = 120; delta = 50; repeat = true }

abbrev late : Timer
late = record { address = 9; expiration = 300; delta = 0; repeat = false }

abbrev three : Queue
three = record {
  timers = once ∷ again ∷ late ∷ [];
  canceling = [];
  calling = false;
  armed = some 100;
}

-- A callback that adds a timer for a later time.
abbrev adds : Timer → Queue → Option Queue
adds t q =
    add_timer_in_loop
      (record { address = 20 + t.address; expiration = 400; delta = 0; repeat = false }) q

abbrev after_three : Queue
after_three = record {
  timers =
      record { address = 4; expiration = 200; delta = 50; repeat = true }
      ∷ late
      ∷ record { address = 24; expiration = 400; delta = 0; repeat = false }
      ∷ record { address = 25; expiration = 400; delta = 0; repeat = false }
      ∷ [];
  canceling = [];
  calling = false;
  armed = some 200;
}

three_handled : handle_read adds 150 three ≡ some after_three
unfolding handle_read get_expired_list lower_bound run_all add_timer_in_loop insert insert_entry
    reset reset_timers restart
three_handled = refl

-- A repeating timer that its own callback cancels is not restarted.
canceled :
    handle_read (λ t q. some (cancel_in_loop t q)) 150 three
    ≡ some (record three { timers = late ∷ []; canceling = 4 ∷ 5 ∷ []; armed = some 300 })
unfolding handle_read get_expired_list lower_bound run_all cancel_in_loop erase_entry reset
    reset_timers
canceled = refl
