-- ===== src/Base/Threadpool/Tests.antt =====
-- A pool with one thread and room for one task, and the theorems at its states.
use burger.Common.{◌≤◌, ◌≡◌, refl, ◌⊎◌, true, some, [], ◌∷◌, ◌++◌, length}
use burger.Base.Threadpool.{
  Pool, queued, waits, got, run, take, is_full, start, init, set_max_queue_size,
}
use burger.Base.Threadpool.Tasks.{System, Reach, here, next, runs, takes, Reach-bounded}

abbrev small : Pool
small = record { threads = 1; queue = []; max_queue_size = 1; running = true; log = [] }

small_started : start 1 (set_max_queue_size 1 init) ≡ some small
unfolding start set_max_queue_size init
small_started = refl

full_waits : run 6 (record small { queue = 5 ∷ [] }) ≡ some (waits, record small { queue = 5 ∷ [] })
unfolding run is_full
full_waits = refl

abbrev first : System
first = record { pool = small; accepted = []; given = [] }

abbrev middle : System
middle = record { pool = record small { queue = 5 ∷ [] }; accepted = 5 ∷ []; given = [] }

abbrev last : System
last = record { pool = small; accepted = 5 ∷ []; given = 5 ∷ [] }

last_reached : Reach first last
unfolding run is_full take
last_reached =
    next {t = middle} (next here (runs 5 queued refl refl refl)) (takes (got 5) refl refl refl)

Reach-bounded_example :
    (last.pool.max_queue_size ≡ 0 ⊎ length last.pool.queue ≤ last.pool.max_queue_size)
    × (last.accepted ≡ last.given ++ last.pool.queue)
Reach-bounded_example = Reach-bounded last_reached refl refl refl
