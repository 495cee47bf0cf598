-- ===== src/Net/Scheduler.antt =====
-- burger/net/Scheduler.h, burger/net/Scheduler.cc: the processors of a program, and the one that a task goes to.
-- Threads start and end as one step. `none` is a failed assert, or a null processor that is used.
pub mod Deal
mod Tests
use burger.Common.{
  ℕ, zero, suc, ◌+◌, ◌≤◌, ◌%◌, ◌^◌, Bool, true, false, not, ◌&&◌, Option, none, some, List, [], ◌∷◌,
  ◌++◌, map, if◌then◌else◌, ◌>>=◌, ◌>>◌, leb, ltb, ◌==◌, length, get_elem?, assert,
}
use burger.Net.Processor.{Processor, add_pending_task, quit}

-- `index` is the static variable of `pickOneWorkProcessor`, which all schedulers share.
pub record Scheduler : Type 0 where
  pub running : Bool
  pub has_quit : Bool
  pub work_proc_num : ℕ
  pub main : Option Processor
  pub works : List Processor
  pub index : ℕ

unfoldable pub set_work_proc_num : ℕ → Scheduler → Scheduler
set_work_proc_num n s =
    let s' = if ltb 100 n then record s { work_proc_num = 0 } else s in
    record s' { work_proc_num = n }

abbrev pub repeat : ℕ → Processor → List Processor
repeat zero p = []
repeat (suc n) p = p ∷ repeat n p

-- Up to the run of the main processor; `p` is a new processor.
unfoldable pub start : Processor → Scheduler → Scheduler
start p s =
    if s.running
    then s
    else record s { main = some p; works = s.works ++ repeat s.work_proc_num p; running = true }

abbrev pub get_work_proc_num : Scheduler → ℕ
get_work_proc_num s = elim s.works [ [] ↦ 1 | w ∷ ws ↦ s.work_proc_num ]

-- The processor that a task goes to: the main one, or one of the others.
pub data Pick : Type 0 where
  the_main : Pick
  the_work : ℕ → Pick

abbrev pub pick_of : List Processor → Scheduler → Option (Pick × Scheduler)
pick_of [] s = some (the_main, s)
pick_of (w ∷ ws) s =
    assert (ltb s.index (length (w ∷ ws)))
    >> some (the_work s.index, record s { index = (s.index + 1) % length (w ∷ ws) })

unfoldable pub pick_one_work_processor : Scheduler → Option (Pick × Scheduler)
pick_one_work_processor s = pick_of s.works s

abbrev pub change_at : ℕ → (Processor → Processor) → List Processor → Option (List Processor)
change_at i f [] = none
change_at zero f (p ∷ ps) = some (f p ∷ ps)
change_at (suc i) f (p ∷ ps) = change_at i f ps >>= λ qs. some (p ∷ qs)

abbrev pub change_main : (Processor → Processor) → Option Processor → Option Processor
change_main f none = none
change_main f (some p) = some (f p)

abbrev pub give : ℕ → Pick × Scheduler → Option Scheduler
give task (the_main, s) =
    change_main (add_pending_task task) s.main >>= λ p. some (record s { main = some p })
give task (the_work i, s) =
    change_at i (add_pending_task task) s.works >>= λ ps. some (record s { works = ps })

unfoldable pub add_task : ℕ → Scheduler → Option Scheduler
unfolding pick_one_work_processor
add_task task s = pick_one_work_processor s >>= give task

unfoldable pub add_main_task : ℕ → Scheduler → Option Scheduler
add_main_task task s = give task (the_main, s)

abbrev pub distribute : List Processor → ℕ → Scheduler → Option Scheduler
distribute [] task s = give task (the_main, s)
distribute (w ∷ ws) task s = some (record s { works = map (add_pending_task task) (w ∷ ws) })

unfoldable pub distribute_task : ℕ → Scheduler → Option Scheduler
distribute_task task s = distribute s.works task s

-- The threads have ended when the call or, in a processor's thread, the one that it starts returns.
unfoldable pub stop : Scheduler → Option Scheduler
stop s =
    let stopped = change_main quit s.main in
    if s.running
    then (stopped >>= λ p.
        some (record s { running = false; main = none; works = map quit s.works; has_quit = true }))
    else some s

unfoldable pub add_all : List ℕ → Scheduler → Option Scheduler
unfolding add_task
add_all [] s = some s
add_all (task ∷ tasks) s = add_task task s >>= add_all tasks
