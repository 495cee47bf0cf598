-- ===== src/Net/Processor/Stale.antt =====
-- burger/net/Processor.cc, burger/net/CoEpoll.cc: a coroutine that waited for two descriptors, or stands in the queue
-- twice, when it comes to its end.
use burger.Common.{
  ℕ, ◌≡◌, ◌≢◌, refl, true, false, Option, none, some, List, [], ◌∷◌, ◌==◌, arith, ==_refl, ◌>>=◌,
}
use burger.Base.Coroutine.{exec}
use burger.Net.Processor.{
  Processor, store, add_task, add_tasks, Burst, returns, run, resume, retire, remove_event,
  reset_and_get_co,
}

abbrev pub at_end : Burst
at_end = record { actions = []; ending = returns }

-- `cur` is to run, and waited for `first` and then for `second`.
abbrev pub waited_twice : ℕ → ℕ → ℕ → Option ℕ → Processor → Processor
waited_twice cur first second cb p = record p {
  stop = false;
  runnable = cur ∷ [];
  pending = [];
  co_map = (second, cur) ∷ (first, cur) ∷ [];
  coroutines =
      store cur (record { state = exec; callback = cb; fd = some second; inside = true })
        p.coroutines;
}

different : (a b : ℕ) → a ≢ b → (a == b) ≡ false
different a b h = ground arith

-- When a coroutine that waited for two descriptors in turn ends, the first stays with it in the
-- map: an event of that descriptor makes the idle coroutine runnable, and the round after resumes
-- a context behind its end.
pub run_stale :
    (cur first second : ℕ) (cb : Option ℕ) (p : Processor) (fds fds' : List ℕ) (b b' : Burst)
    → first ≢ second
    → run ((fds, at_end) ∷ (first ∷ [], b) ∷ (fds', b') ∷ []) (waited_twice cur first second cb p)
      ≡ none
unfolding run
run_stale cur first second cb p fds fds' b b' h =
    let e = different first second h in
    rw
      (
        ==_refl cur,
        ==_refl cur,
        retire,
        ==_refl cur,
        ==_refl second,
        remove_event,
        ==_refl second,
        e,
        ==_refl first,
        ==_refl cur,
      )
      refl

-- `cur` is to run, and stands in the queue once more.
abbrev pub queued_twice : ℕ → Option ℕ → Processor → Processor
queued_twice cur cb p = record p {
  stop = false;
  runnable = cur ∷ cur ∷ [];
  idle = [];
  pending = [];
  coroutines =
      store cur (record { state = exec; callback = cb; fd = none; inside = true }) p.coroutines;
}

-- What the coroutines that ran and the idle ones are then, and what comes of two more tasks.
abbrev pub idle_after : List ℕ × Processor → Option (List ℕ × List ℕ)
idle_after (done, q) = some (done, q.idle)

abbrev pub tasks_after : List ℕ → List ℕ × Processor → Option Processor
tasks_after tasks (done, q) = add_tasks tasks q

-- When a coroutine that stands twice in the queue ends on its first turn and no other is idle, it
-- is idle twice after its second turn, and of the next two tasks the second fails the assert of
-- reset.
pub run_doubled :
    (cur : ℕ) (cb : Option ℕ) (p : Processor) (fds fds' : List ℕ) (b : Burst) (task task' : ℕ)
    → let result = run ((fds, at_end) ∷ (fds', b) ∷ []) (queued_twice cur cb p) in
      ((result >>= idle_after) ≡ some (cur ∷ cur ∷ [], cur ∷ cur ∷ []))
      × ((result >>= tasks_after (task ∷ task' ∷ [])) ≡ none)
unfolding run
run_doubled cur cb p fds fds' b task task' = (
  rw
      (
        ==_refl cur,
        ==_refl cur,
        retire,
        ==_refl cur,
        resume,
        ==_refl cur,
        retire,
        ==_refl cur,
        ==_refl cur,
      )
      refl,
  rw
      (
        ==_refl cur,
        ==_refl cur,
        retire,
        ==_refl cur,
        resume,
        ==_refl cur,
        retire,
        ==_refl cur,
        ==_refl cur,
        add_tasks,
        add_task,
        ==_refl cur,
        add_task,
        reset_and_get_co,
        ==_refl cur,
      )
      refl,
)
