-- ===== src/Base/Threadpool.antt =====
-- burger/base/ThreadPool.h and burger/base/ThreadPool.cc: the bounded queue of tasks. A task is its number.
-- What a thread does under the lock is one step, and a step that would wait is not taken.
pub mod Tasks
mod Tests
use burger.Common.{
  ℕ, suc, ◌+◌, Bool, true, false, not, ◌&&◌, ◌||◌, Option, none, some, List, [], ◌∷◌, ◌++◌, leb,
  ltb, ◌==◌, if◌then◌else◌, ◌>>=◌, ◌>>◌, assert, length,
}

-- `log` has the tasks that ran in the thread that called `run`.
pub record Pool : Type 0 where
  pub threads : ℕ
  pub queue : List ℕ
  pub max_queue_size : ℕ
  pub running : Bool
  pub log : List ℕ

unfoldable pub init : Pool
init = record { threads = 0; queue = []; max_queue_size = 0; running = false; log = [] }

unfoldable pub set_max_queue_size : ℕ → Pool → Pool
set_max_queue_size n p = record p { max_queue_size = n }

unfoldable pub start : ℕ → Pool → Option Pool
start n p = assert (p.threads == 0) >> some (record p { running = true; threads = n })

unfoldable pub stop : Pool → Pool
stop p = record p { running = false }

unfoldable pub queue_size : Pool → ℕ
queue_size p = length p.queue

unfoldable pub is_full : Pool → Bool
is_full p = ltb 0 p.max_queue_size && leb p.max_queue_size (length p.queue)

-- What became of a task given to `run`: it ran at once, the thread waits on `cvNotFull_`, the pool has
-- stopped and drops it, or it is queued.
pub data Outcome : Type 0 where
  ran waits dropped queued : Outcome

unfoldable pub run : ℕ → Pool → Option (Outcome × Pool)
unfolding is_full
run task p =
    if p.threads == 0
    then some (ran, record p { log = p.log ++ (task ∷ []) })
    else if is_full p && p.running
    then some (waits, p)
    else if not p.running
    then some (dropped, p)
    else (assert (not (is_full p)) >> some (queued, record p { queue = p.queue ++ (task ∷ []) }))

-- What `take` gives: nothing yet, since the thread waits on `cvNotEmpty_`; an empty task; or a task.
pub data Taken : Type 0 where
  blocks empty : Taken
  got : ℕ → Taken

abbrev pub take_front : List ℕ → Pool → Taken × Pool
take_front [] p = (if p.running then blocks else empty, p)
take_front (t ∷ ts) p = (got t, record p { queue = ts })

unfoldable pub take : Pool → Taken × Pool
take p = take_front p.queue p
