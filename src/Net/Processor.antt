-- ===== src/Net/Processor.antt =====
-- burger/net/Processor.h, burger/net/Processor.cc, burger/net/CoEpoll.cc: the coroutines of a thread. A coroutine is
-- its number in `coroutines`. What a callback does between two switches is an argument, a Burst;
-- what `epoll_wait` reports is another. Other threads act between rounds. `none` is a failed
-- assert or a context that is resumed behind its end.
pub mod Sound
pub mod Bursts
pub mod Rounds
pub mod Turns
pub mod Stale
mod Tests
use burger.Common.{
  ℕ, zero, suc, ◌+◌, ◌-◌, ◌%◌, ◌^◌, Bool, true, false, not, ◌&&◌, ◌||◌, Option, none, some, List,
  [], ◌∷◌, ◌++◌, if◌then◌else◌, ◌==◌, ◌>>=◌, ◌>>◌,
}
use burger.Base.Coroutine.{
  Coroutine, State, exec, hold, term, fresh, set_state, set_fd, reset, run_end,
}

-- `wakeups` counts the writes to the descriptor that ends a wait.
pub record Processor : Type 0 where
  pub stop : Bool
  pub load : ℕ
  pub runnable : List ℕ
  pub idle : List ℕ
  pub pending : List ℕ
  pub epolling : Bool
  pub co_map : List (ℕ × ℕ)
  pub conn_map : List ℕ
  pub wakeups : ℕ
  pub coroutines : ℕ → Coroutine
  pub next : ℕ

abbrev pub store : ℕ → Coroutine → (ℕ → Coroutine) → ℕ → Coroutine
store i co coroutines j = if i == j then co else coroutines j

abbrev pub change : ℕ → (Coroutine → Coroutine) → Processor → Processor
change i f p = record p { coroutines = store i (f (p.coroutines i)) p.coroutines }

abbrev pub empty : Processor
empty = record {
  stop = false;
  load = 0;
  runnable = [];
  idle = [];
  pending = [];
  epolling = false;
  co_map = [];
  conn_map = [];
  wakeups = 0;
  coroutines = λ i. fresh 0;
  next = 0;
}

-- `addTask` of a coroutine.
unfoldable pub add_co : ℕ → Processor → Processor
add_co i p =
    let q = change i (set_state exec) p in
    record q { runnable = p.runnable ++ i ∷ []; load = (p.load + 1) % 2 ^ 64 }

abbrev pub put_reset : ℕ → List ℕ → Processor → Option Coroutine → Option (ℕ × Processor)
put_reset i rest p none = none
put_reset i rest p (some co) =
    some (i, record p { idle = rest; coroutines = store i co p.coroutines })

abbrev pub get_co : ℕ → List ℕ → Processor → Option (ℕ × Processor)
get_co cb [] p =
    some (p.next, record p { coroutines = store p.next (fresh cb) p.coroutines; next = suc p.next })
get_co cb (i ∷ rest) p = put_reset i rest p (reset cb (p.coroutines i))

unfoldable pub reset_and_get_co : ℕ → Processor → Option (ℕ × Processor)
reset_and_get_co cb p = get_co cb p.idle p

-- `addTask` of a callback in the processor's thread.
unfoldable pub add_task : ℕ → Processor → Option Processor
unfolding reset_and_get_co add_co
add_task cb p = reset_and_get_co cb p >>= λ (i, q). some (add_co i q)

abbrev pub wakeup_epoll_co : Processor → Processor
wakeup_epoll_co p = record p { wakeups = suc p.wakeups }

-- The idle coroutines that a new processor makes, with no callback.
unfoldable pub precreate : ℕ → Processor → Processor
precreate zero p = p
precreate (suc n) p = precreate n (record p {
  idle = p.idle ++ p.next ∷ [];
  coroutines = store p.next (record (fresh 0) { callback = none }) p.coroutines;
  next = suc p.next;
})

-- A new processor, with the callbacks of its first two tasks.
unfoldable pub init_from : ℕ → ℕ → ℕ → Processor → Option Processor
unfolding add_task precreate
init_from wake timers n p = do q ← add_task wake p; r ← add_task timers q; some (precreate n r)

unfoldable pub init : ℕ → ℕ → ℕ → Option Processor
unfolding init_from
init wake timers n = init_from wake timers n empty

-- `addTask` of a callback in another thread.
unfoldable pub add_pending_task : ℕ → Processor → Processor
add_pending_task cb p =
    let q = record p { pending = p.pending ++ cb ∷ [] } in
    if q.epolling then wakeup_epoll_co q else q

unfoldable pub add_tasks : List ℕ → Processor → Option Processor
unfolding add_task
add_tasks [] p = some p
add_tasks (cb ∷ cbs) p = add_task cb p >>= add_tasks cbs

unfoldable pub add_pending_tasks_into_queue : Processor → Option Processor
unfolding add_tasks
add_pending_tasks_into_queue p = add_tasks p.pending (record p { pending = [] })

unfoldable pub quit : Processor → Processor
quit p = let q = record p { stop = true } in if q.epolling then wakeup_epoll_co q else q

-- The coroutine that waits for a descriptor.
abbrev pub find : ℕ → List (ℕ × ℕ) → Option ℕ
find fd [] = none
find fd ((key, i) ∷ rest) = if key == fd then some i else find fd rest

abbrev pub erase : ℕ → List (ℕ × ℕ) → List (ℕ × ℕ)
erase fd [] = []
erase fd ((key, i) ∷ rest) =
    let rest' = erase fd rest in if key == fd then rest' else (key, i) ∷ rest'

abbrev pub delete : ℕ → List ℕ → List ℕ
delete fd [] = []
delete fd (key ∷ rest) = let rest' = delete fd rest in if key == fd then rest' else key ∷ rest'

-- The events that the kernel is told to watch are left out.
abbrev pub update_found : ℕ → ℕ → Processor → Option ℕ → Processor
update_found cur fd p none =
    change cur (set_fd (some fd)) (record p { co_map = (fd, cur) ∷ p.co_map })
update_found cur fd p (some i) = p

unfoldable pub update_event : ℕ → ℕ → Processor → Processor
update_event cur fd p = update_found cur fd p (find fd p.co_map)

abbrev pub remove_found : ℕ → Processor → Option ℕ → Processor
remove_found fd p none = p
remove_found fd p (some i) = change i (set_fd none) (record p { co_map = erase fd p.co_map })

unfoldable pub remove_event : ℕ → Processor → Processor
remove_event fd p = remove_found fd p (find fd p.co_map)

-- `addToConnMap`, a new connection that is kept alive.
abbrev pub add_to_conn_map : ℕ → Processor → Processor
add_to_conn_map fd p = record p { conn_map = fd ∷ delete fd p.conn_map }

-- What the code of a coroutine does to its processor. A timer wakes a coroutine that sleeps.
pub data Action : Type 0 where
  spawns pends wakes updates removes : ℕ → Action
  stops : Action

unfoldable pub act : ℕ → Action → Processor → Option Processor
unfolding add_task add_pending_task add_co update_event remove_event quit
act cur (spawns cb) p = add_task cb p
act cur (pends cb) p = some (add_pending_task cb p)
act cur (wakes i) p = some (add_co i p)
act cur (updates fd) p = some (update_event cur fd p)
act cur (removes fd) p = some (remove_event fd p)
act cur stops p = some (quit p)

-- `yields` goes back to the main coroutine, as `sleep` does once it has its timer; `waits` is a call
-- of the operating system that would block, in `ioHook`.
pub data Ending : Type 0 where
  returns yields : Ending
  waits : ℕ → Ending

unfoldable pub finish : ℕ → Ending → Processor → Processor
unfolding update_event
finish cur returns p = change cur run_end p
finish cur yields p = p
finish cur (waits fd) p = change cur (set_state hold) (update_event cur fd p)

pub record Burst : Type 0 where
  pub actions : List Action
  pub ending : Ending

unfoldable pub perform : ℕ → List Action → Processor → Option Processor
unfolding act
perform cur [] p = some p
perform cur (a ∷ actions) p = act cur a p >>= perform cur actions

abbrev pub resume_at : ℕ → Burst → Processor → State → Bool → Option Processor
resume_at cur b p term inside = some p
resume_at cur b p exec false = none
resume_at cur b p hold false = none
resume_at cur b p exec true = perform cur b.actions p >>= λ q. some (finish cur b.ending q)
resume_at cur b p hold true = perform cur b.actions p >>= λ q. some (finish cur b.ending q)

unfoldable pub resume : ℕ → Burst → Processor → Option Processor
unfolding perform finish
resume cur b p = resume_at cur b p (p.coroutines cur).state (p.coroutines cur).inside

-- `load_` is a `size_t`.
abbrev pub forget : Option ℕ → Processor → Processor
forget none p = p
forget (some fd) p = let q = remove_event fd p in record q { conn_map = delete fd q.conn_map }

abbrev pub retire_at : ℕ → Processor → State → Processor
retire_at cur p exec = p
retire_at cur p hold = p
retire_at cur p term =
    forget (p.coroutines cur).fd
      (record p { load = (p.load + (2 ^ 64 - 1)) % 2 ^ 64; idle = p.idle ++ cur ∷ [] })

unfoldable pub retire : ℕ → Processor → Processor
unfolding remove_event
retire cur p = retire_at cur p (p.coroutines cur).state

-- The events of `poll`; a descriptor with no coroutine fails its assert.
abbrev pub add_found : Processor → Option ℕ → Option Processor
add_found p none = none
add_found p (some i) = some (add_co i p)

unfoldable pub poll_events : List ℕ → Processor → Option Processor
unfolding add_co
poll_events [] p = some p
poll_events (fd ∷ fds) p = add_found p (find fd p.co_map) >>= poll_events fds

-- The epoll coroutine's round: the answer of `epoll_wait` is empty when time runs out or it fails.
unfoldable pub poll : List ℕ → Processor → Option Processor
unfolding poll_events
poll fds p = poll_events fds (record p { epolling = false })

-- A round of `run`, with the coroutine that it resumed; there is none when epoll's coroutine was.
unfoldable pub run_with : List ℕ → Burst → List ℕ → Processor → Option (List ℕ × Processor)
unfolding poll add_pending_tasks_into_queue resume retire
run_with fds b [] p = do q ← poll fds p; q' ← add_pending_tasks_into_queue q; some ([], q')
run_with fds b (cur ∷ rest) p = do
  q ← resume cur b (record p { runnable = rest })
  q' ← add_pending_tasks_into_queue (retire cur q)
  some (cur ∷ [], q')

unfoldable pub run_round : List ℕ → Burst → Processor → Option (List ℕ × Processor)
unfolding run_with
run_round fds b p = run_with fds b p.runnable p

abbrev pub has_work : List ℕ → Bool
has_work [] = false
has_work (x ∷ xs) = true

-- `run` over the answers of `epoll_wait` and the bursts of its rounds, one for each.
unfoldable pub run : List (List ℕ × Burst) → Processor → Option (List ℕ × Processor)
unfolding run_round
run [] p = some ([], p)
run ((fds, b) ∷ turns) p =
    if not p.stop || has_work p.runnable
    then (do (done, q) ← run_round fds b p; (later, q') ← run turns q; some (done ++ later, q'))
    else some ([], p)
