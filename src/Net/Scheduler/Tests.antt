-- ===== src/Net/Scheduler/Tests.antt =====
-- A scheduler with two processors, and the theorem at it.
use burger.Common.{◌≡◌, refl, true, false, none, some, List, [], ◌∷◌, arith, ℕ, ◌>>=◌, Option, map}
use burger.Net.Processor.{empty, add_pending_task}
use burger.Net.Scheduler.{
  Scheduler, start, set_work_proc_num, add_task, add_all, pick_one_work_processor,
}
use burger.Net.Scheduler.Deal.{with_works, add_all-rounds}

abbrev fresh : Scheduler
fresh = record {
  running = false;
  has_quit = false;
  work_proc_num = 2;
  main = none;
  works = [];
  index = 0;
}

abbrev started : Scheduler
started = record fresh { running = true; main = some empty; works = empty ∷ empty ∷ [] }

fresh_started : start empty fresh ≡ started
unfolding start
fresh_started = refl

abbrev pendings : Scheduler → Option (List (List ℕ))
pendings s = some (map (λ p. p.pending) s.works)

three_tasks : (add_all (1 ∷ 2 ∷ 3 ∷ []) started >>= pendings) ≡ some ((1 ∷ 3 ∷ []) ∷ (2 ∷ []) ∷ [])
unfolding add_all add_task pick_one_work_processor add_pending_task
three_tasks = refl

-- An index that another scheduler left behind is out of range.
left_behind : add_task 1 (record started { index = 3 }) ≡ none
unfolding add_task pick_one_work_processor
left_behind = refl

-- More than a hundred are refused in the log only.
too_many : (set_work_proc_num 101 fresh).work_proc_num ≡ 101
unfolding set_work_proc_num
too_many = refl

add_all-rounds_example :
    add_all (1 ∷ 2 ∷ 3 ∷ 4 ∷ []) (with_works started (empty ∷ empty ∷ []) 0)
    ≡ some (
        with_works started
          (add_pending_task 3 (add_pending_task 1 empty)
            ∷ add_pending_task 4 (add_pending_task 2 empty)
            ∷ [])
          0)
add_all-rounds_example =
    add_all-rounds ((1 ∷ 2 ∷ []) ∷ (3 ∷ 4 ∷ []) ∷ []) (empty ∷ empty ∷ []) started (omega arith)
      (refl, (refl, tt))
