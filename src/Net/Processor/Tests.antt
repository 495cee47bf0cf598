-- ===== src/Net/Processor/Tests.antt =====
-- A new processor, its first rounds, and the theorems at them.
use mathlib.Core.Path.{subst}
use mathlib.Core.Option.{some-injective}
use burger.Common.{
  ℕ, ◌≡◌, refl, sym, ap, ◌∙◌, Option, none, some, List, [], ◌∷◌, ◌++◌, arith, ◌>>=◌,
}
use burger.Net.Processor.{
  Processor, empty, init, init_from, add_task, add_tasks, spawns, waits, Burst, run_round, run_with,
  run, poll, poll_events, resume, perform, act, finish, retire, add_pending_tasks_into_queue,
  add_co, update_event, reset_and_get_co, precreate,
}
use burger.Net.Processor.Sound.{Sound}
use burger.Net.Processor.Turns.{AllFair, init-Sound, run-Sound, run_in_turn}
use burger.Net.Processor.Stale.{at_end}

abbrev get : Option Processor → Processor
get none = empty
get (some p) = p

abbrev get_round : Option (List ℕ × Processor) → Processor
get_round none = empty
get_round (some (done, p)) = p

-- The tasks 100 and 101, the coroutines 0 and 1, and one idle coroutine.
abbrev start : Processor
start = get (init 100 101 1)

started : init 100 101 1 ≡ some start
unfolding init init_from precreate add_task reset_and_get_co add_co
started = refl

-- Each of the first two waits for a descriptor, the first with a task of its own before; then the
-- descriptor of the second is ready.
abbrev wait_first : Burst
wait_first = record { actions = spawns 7 ∷ []; ending = waits 3 }

abbrev wait_second : Burst
wait_second = record { actions = []; ending = waits 4 }

abbrev first_round : Processor
first_round = get_round (run_round [] wait_first start)

abbrev second_round : Processor
second_round = get_round (run_round [] wait_second first_round)

abbrev third_round : Processor
third_round = get_round (run_round [] at_end second_round)

first_done : run_round [] wait_first start ≡ some (0 ∷ [], first_round)
unfolding init init_from precreate add_task reset_and_get_co add_co run_round run_with resume
    perform act finish retire add_pending_tasks_into_queue add_tasks update_event
first_done = refl

second_done : run_round [] wait_second first_round ≡ some (1 ∷ [], second_round)
unfolding init init_from precreate add_task reset_and_get_co add_co run_round run_with resume
    perform act finish retire add_pending_tasks_into_queue add_tasks update_event
second_done = refl

third_done : run_round [] at_end second_round ≡ some (2 ∷ [], third_round)
unfolding init init_from precreate add_task reset_and_get_co add_co run_round run_with resume
    perform act finish retire add_pending_tasks_into_queue add_tasks update_event
third_done = refl

-- What a round leads to, known, is what it leads to.
next_AllFair :
    (fds : List ℕ) (b : Burst) (p p' : Processor) (done : List ℕ) (turns : List (List ℕ × Burst))
    → run_round fds b p ≡ some (done, p')
    → AllFair turns p'
    → (done' : List ℕ) (q : Processor) → run_round fds b p ≡ some (done', q)
    → AllFair turns q
next_AllFair fds b p p' done turns e h done' q f =
    subst (λ q. AllFair turns q)
      (ap (λ (done, r). r) (some-injective (done, p') (done', q) (sym e ∙ f))) h

abbrev last_turn : List (List ℕ × Burst)
last_turn = (4 ∷ [], at_end) ∷ []

abbrev third_turns : List (List ℕ × Burst)
third_turns = ([], at_end) ∷ last_turn

abbrev second_turns : List (List ℕ × Burst)
second_turns = ([], wait_second) ∷ third_turns

abbrev turns : List (List ℕ × Burst)
turns = ([], wait_first) ∷ second_turns

last_fair : AllFair last_turn third_round
unfolding init init_from precreate add_task reset_and_get_co add_co run_round run_with resume
    perform act finish retire add_pending_tasks_into_queue add_tasks update_event
last_fair = ((1, refl, (refl, refl, omega arith, refl), tt), λ done q e. tt)

third_fair : AllFair third_turns second_round
unfolding init init_from precreate add_task reset_and_get_co add_co run_round run_with resume
    perform act finish retire add_pending_tasks_into_queue add_tasks update_event
third_fair =
    (tt, next_AllFair [] at_end second_round third_round (2 ∷ []) last_turn third_done last_fair)

second_fair : AllFair second_turns first_round
unfolding init init_from precreate add_task reset_and_get_co add_co run_round run_with resume
    perform act finish retire add_pending_tasks_into_queue add_tasks update_event
second_fair = (
  tt,
  next_AllFair [] wait_second first_round second_round (1 ∷ []) third_turns second_done third_fair,
)

turns_fair : AllFair turns start
unfolding init init_from precreate add_task reset_and_get_co add_co
turns_fair = (
  (tt, λ q e. tt),
  next_AllFair [] wait_first start first_round (0 ∷ []) second_turns first_done second_fair,
)

run-Sound_example : (done : List ℕ) × (q : Processor) × (run turns start ≡ some (done, q)) × Sound q
run-Sound_example = run-Sound 100 101 1 start turns started turns_fair

abbrev one_turn : List (List ℕ × Burst)
one_turn = ([], wait_second) ∷ []

abbrev two_turns : List (List ℕ × Burst)
two_turns = ([], wait_first) ∷ one_turn

two_turns_fair : AllFair two_turns start
unfolding init init_from precreate add_task reset_and_get_co add_co run_round run_with resume
    perform act finish retire add_pending_tasks_into_queue add_tasks update_event
two_turns_fair = (
  (tt, λ q e. tt),
  next_AllFair [] wait_first start first_round (0 ∷ []) one_turn first_done (tt, λ done q e. tt),
)

start_queue : start.runnable ≡ (0 ∷ 1 ∷ []) ++ []
unfolding init
start_queue = refl

run_in_turn_example :
    (q : Processor) × (run two_turns start ≡ some (0 ∷ 1 ∷ [], q))
    × Sound q
    × ((new : List ℕ) × (q.runnable ≡ [] ++ new))
run_in_turn_example =
    run_in_turn two_turns (0 ∷ 1 ∷ []) [] start (init-Sound 100 101 1 start started) start_queue
      refl two_turns_fair

-- A coroutine that waits for 3, then for 4, is woken twice when both are ready.
abbrev waits_for : ℕ → Burst
waits_for fd = record { actions = []; ending = waits fd }

abbrev runnable_after : List ℕ × Processor → Option (List ℕ × List ℕ)
runnable_after (done, q) = some (done, q.runnable)

woken_twice :
    (run
        (([], waits_for 3)
          ∷ ([], at_end)
          ∷ (3 ∷ [], at_end)
          ∷ ([], waits_for 4)
          ∷ (3 ∷ 4 ∷ [], at_end)
          ∷ [])
        start
      >>= runnable_after)
    ≡ some (0 ∷ 1 ∷ 0 ∷ [], 0 ∷ 0 ∷ [])
unfolding init init_from precreate add_task reset_and_get_co add_co run_round run_with resume
    perform act finish retire add_pending_tasks_into_queue add_tasks update_event run poll
    poll_events
woken_twice = refl
