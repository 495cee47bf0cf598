-- ===== src/Net/EventLoopThread.antt =====
-- burger/net/EventLoopThread.h and burger/net/EventLoopThread.cc: a thread that runs a loop of its own. Each step is
-- a move of the thread or of its owner; `none` is a move that is not to be made. The turns of the
-- loop are in EventLoop, of which this keeps the flag `quit`. Whoever has a pointer to the loop, a
-- functor or a caller of `startLoop`, may call `quit` while the loop lives.
mod Moves
mod Tests
use burger.Common.{
  ℕ, Bool, true, false, not, ◌&&◌, Option, none, some, List, [], ◌∷◌, if◌then◌else◌, ◌>>=◌, ◌>>◌,
  assert,
}

-- Where `threadFunc` stands; `idle` is no thread.
pub data Thread : Type 0 where
  idle building publishing ready looping leaving finished : Thread

-- Where the owner stands: in `startLoop`, behind it, or in the destructor. `terminated` is the end
-- of the process, as a thread that was not joined is destroyed, or a null loop is called.
pub data Owner : Type 0 where
  outside waiting started quitting joining gone terminated : Owner

pub record State : Type 0 where
  pub thread : Thread
  pub owner : Owner
  pub loop : Bool
  pub exiting : Bool
  pub quit : Bool

unfoldable pub init : State
init = record { thread = idle; owner = outside; loop = false; exiting = false; quit = false }

pub data Move : Type 0 where
  start wake destroy do_quit join : Move
  build publish begin round leave clear : Move
  quit_by_other : Move

-- A thread that was started and not joined.
abbrev pub joinable : Thread → Bool
joinable idle = false
joinable t = true

-- `startLoop` up to its wait, behind it, and the destructor in three steps.
unfoldable pub own : Move → Owner → State → Option State
own start outside s =
    assert (not (joinable s.thread)) >> some (record s { owner = waiting; thread = building })
own wake waiting s = assert s.loop >> some (record s { owner = started })
own destroy outside s = some (record s { owner = gone; exiting = true })
own destroy started s = some (
    if s.loop
    then record s { owner = quitting; exiting = true }
    else record s { owner = terminated; exiting = true })
own do_quit quitting s =
    some (
      if s.loop then record s { owner = joining; quit = true } else record s { owner = terminated })
own m o s = none

unfoldable pub run_thread : Move → Thread → State → Option State
run_thread build building s = some (record s { thread = publishing })
run_thread publish publishing s = some (record s { thread = ready; loop = true })
run_thread begin ready s = some (record s { thread = looping; quit = false })
run_thread round looping s = assert (not s.quit) >> some s
run_thread leave looping s = assert s.quit >> some (record s { thread = leaving })
run_thread clear leaving s = some (record s { thread = finished; loop = false })
run_thread m t s = none

-- The loop lives on the stack of `threadFunc`.
abbrev pub has_loop : Thread → Bool
has_loop publishing = true
has_loop ready = true
has_loop looping = true
has_loop leaving = true
has_loop t = false

-- `EventLoop::quit`, called by another than the destructor.
unfoldable pub call_quit : State → Option State
call_quit s = assert (has_loop s.thread) >> some (record s { quit = true })

-- The end of the destructor, which waits for the thread.
unfoldable pub finish_join : Thread → Owner → State → Option State
finish_join finished joining s = some (record s { owner = gone; thread = idle })
finish_join t o s = none

unfoldable pub step : Move → State → Option State
unfolding own run_thread finish_join call_quit
step start s = own start s.owner s
step wake s = own wake s.owner s
step destroy s = own destroy s.owner s
step do_quit s = own do_quit s.owner s
step join s = finish_join s.thread s.owner s
step quit_by_other s = call_quit s
step m s = run_thread m s.thread s

unfoldable pub run : List Move → State → Option State
unfolding step
run [] s = some s
run (m ∷ ms) s = step m s >>= run ms
