-- ===== src/Net/EventLoopThread/Tests.antt =====
-- Runs of the model at concrete inputs.
use burger.Common.{◌≡◌, refl, true, false, some, List, [], ◌∷◌}
use burger.Net.EventLoopThread.{
  ready, looping, finished, quitting, joining, terminated, State, init, Move, start, wake, destroy,
  do_quit, build, leave, clear, publish, begin, round, quit_by_other, own, run_thread, call_quit,
  finish_join, step, run,
}
use burger.Net.EventLoopThread.Moves.{Sound, Stuck, run_init-Sound, run-lost_quit}

-- The loop begins before the destructor asks it to quit.
abbrev late : List Move
late = start ∷ build ∷ publish ∷ begin ∷ wake ∷ round ∷ destroy ∷ []

abbrev late_state : State
late_state = record {
  thread = looping;
  owner = quitting;
  loop = true;
  exiting = true;
  quit = false;
}

late_run : run late init ≡ some late_state
unfolding run step own run_thread finish_join call_quit init
late_run = refl

run_init-Sound_example : Sound late_state
run_init-Sound_example = run_init-Sound late late_state late_run

-- The destructor asks before the loop begins.
abbrev early : List Move
early = start ∷ build ∷ publish ∷ wake ∷ destroy ∷ do_quit ∷ []

abbrev early_state : State
early_state = record { thread = ready; owner = joining; loop = true; exiting = true; quit = true }

early_run : run early init ≡ some early_state
unfolding run step own run_thread finish_join call_quit init
early_run = refl

abbrev stuck_state : State
stuck_state = record early_state { thread = looping; quit = false }

stuck_run : run (begin ∷ round ∷ round ∷ []) early_state ≡ some stuck_state
unfolding run step own run_thread finish_join call_quit
stuck_run = refl

run-lost_quit_example : Stuck stuck_state
run-lost_quit_example =
    run-lost_quit (round ∷ round ∷ []) early_state stuck_state refl refl
      ((λ h. cc), ((λ h. cc), tt)) stuck_run

-- The loop is quit by another, and its thread is gone when the destructor comes: a thread that was
-- not joined is destroyed.
abbrev others : List Move
others = start ∷ build ∷ publish ∷ begin ∷ wake ∷ quit_by_other ∷ leave ∷ clear ∷ destroy ∷ []

ended_by_others :
    run others init
    ≡ some (record {
      thread = finished;
      owner = terminated;
      loop = false;
      exiting = true;
      quit = true;
    })
unfolding run step own run_thread finish_join call_quit init
ended_by_others = refl
