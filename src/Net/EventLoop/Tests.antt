-- ===== src/Net/EventLoop/Tests.antt =====
-- A run of the functors of a loop, and its theorem at that loop.
use burger.Common.{
  ℕ, ◌+◌, ◌≡◌, refl, true, false, not, none, some, List, [], ◌∷◌, ◌++◌, arith, if◌then◌else◌, ◌==◌,
}
use burger.Net.EventLoop.{Func, func, done, queues, Loop, do_queue_in_loop_funcs, drain, call}
use burger.Net.EventLoop.Cycle.{queue, quit, Turn, loop}
use burger.Net.EventLoop.Ends.{queueing}
use burger.Net.EventLoop.Home.{
  Threads, create, destroy, get_event_loop_of_current_thread, move_to_current_thread, move-stale,
}
use burger.Net.EventLoop.Lives.{quits_any, turns_log, loop_lem}
use burger.Net.EventLoop.Rounds.{rounds, do_queue_in_loop_funcs-rounds}

-- Functor 1 queues 3, which queues 4; functor 2 queues nothing.
abbrev waiting : Loop
waiting = record {
  thread = 100;
  looping = true;
  quit = false;
  event_handling = false;
  calling = false;
  active = [];
  current = none;
  queue = func 1 (queues (func 3 (queues (func 4 done) done)) done) ∷ func 2 done ∷ [];
  wakeups = 0;
  log = [];
}

drained :
    do_queue_in_loop_funcs 4 waiting
    ≡ some (record waiting { queue = []; log = 1 ∷ 2 ∷ 3 ∷ 4 ∷ [] })
unfolding do_queue_in_loop_funcs drain call
drained = refl

do_queue_in_loop_funcs-rounds_example :
    do_queue_in_loop_funcs 4 waiting
    ≡ some (record waiting { queue = []; calling = false; log = rounds 4 waiting.queue })
do_queue_in_loop_funcs-rounds_example = do_queue_in_loop_funcs-rounds 4 waiting (omega arith)

-- Two answers of epoll: another thread queues functor 5 while the loop waits, channel 7 queues
-- functor 6, and the second answer comes with a call of `quit`.
abbrev answers : List Turn
answers =
    record { waiting = queue 200 (func 5 done) ∷ []; active = 7 ∷ []; handling = [] }
    ∷ record { waiting = []; active = []; handling = quit 200 ∷ [] }
    ∷ []

abbrev funcs : ℕ → List Func
funcs c = if c == 7 then func 6 done ∷ [] else []

abbrev idle : Loop
idle = record waiting { looping = false; quit = true }

loop_lem_example :
    (l' : Loop) × (loop (queueing funcs) 10 100 answers idle ≡ some (quits_any answers, l'))
    × (l'.log ≡ idle.log ++ turns_log funcs 10 idle.queue answers)
    × (l'.looping ≡ not (quits_any answers))
loop_lem_example = loop_lem funcs 10 100 answers idle refl refl (omega arith)

abbrev no_loops : Threads
no_loops t = none

move-stale_example :
    (l : Loop) × (ts : Threads) × (us : Threads) × (create 1 9 no_loops ≡ some (l, ts))
    × (move_to_current_thread 2 9 l ts ≡ some (record l { thread = 2 }, us))
    × (get_event_loop_of_current_thread 1 us ≡ some 9)
    × (create 1 (9 + 1) us ≡ none)
    × (get_event_loop_of_current_thread 1 (destroy 2 us) ≡ some 9)
move-stale_example = move-stale 1 2 9 no_loops refl refl (omega arith)
