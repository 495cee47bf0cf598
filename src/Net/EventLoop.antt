-- ===== src/Net/EventLoop.antt =====
-- burger/net/EventLoop.h and burger/net/EventLoop.cc: the functors that a loop runs, and the threads that
-- hand them over. A functor is its number and the functors that it queues when it runs; what else
-- it does is in the modules of the objects that it is bound to.
pub mod Cycle
pub mod Ends
pub mod Home
pub mod Lives
pub mod Rounds
mod Tests
use burger.Common.{
  ℕ, zero, suc, ◌+◌, Bool, true, false, not, ◌&&◌, ◌||◌, Option, none, some, List, [], ◌∷◌, ◌++◌,
  ◌==◌, if◌then◌else◌, ◌>>=◌, ◌>>◌, assert,
}

mutual
  pub data Func : Type 0 where
    func : ℕ → Funcs → Func

  pub data Funcs : Type 0 where
    done : Funcs
    queues : Func → Funcs → Funcs

abbrev pub list_of : Funcs → List Func
list_of done = []
list_of (queues f fs) = f ∷ list_of fs

-- `log` has the functors that ran, `wakeups` the writes to `wakeupFd_`.
pub record Loop : Type 0 where
  pub thread : ℕ
  pub looping : Bool
  pub quit : Bool
  pub event_handling : Bool
  pub calling : Bool
  pub active : List ℕ
  pub current : Option ℕ
  pub queue : List Func
  pub wakeups : ℕ
  pub log : List ℕ

abbrev pub is_in_loop_thread : ℕ → Loop → Bool
is_in_loop_thread tid l = l.thread == tid

unfoldable pub wakeup : Loop → Loop
wakeup l = record l { wakeups = suc l.wakeups }

unfoldable pub queue_in_loop : ℕ → Func → Loop → Loop
unfolding wakeup
queue_in_loop tid f l =
    let l' : Loop = record l { queue = l.queue ++ (f ∷ []) } in
    if not (is_in_loop_thread tid l) then wakeup l' else l'

-- A functor that runs in the loop's thread queues its own behind those that wait.
unfoldable pub call : Func → Loop → Loop
call (func n fs) l = record l { queue = l.queue ++ list_of fs; log = l.log ++ (n ∷ []) }

unfoldable pub run_in_loop : ℕ → Func → Loop → Loop
unfolding call queue_in_loop
run_in_loop tid f l = if is_in_loop_thread tid l then call f l else queue_in_loop tid f l

unfoldable pub stop : ℕ → Loop → Loop
unfolding wakeup
stop tid l =
    let l' : Loop = record l { quit = true } in
    if not (is_in_loop_thread tid l) then wakeup l' else l'

-- The loop over `dequeue`, which goes on until the queue is empty.
unfoldable pub drain : ℕ → List Func → Loop → Option Loop
unfolding call
drain fuel [] l = some (record l { queue = [] })
drain zero (f ∷ fs) l = none
drain (suc fuel) (f ∷ fs) l = let l' = call f (record l { queue = fs }) in drain fuel l'.queue l'

unfoldable pub do_queue_in_loop_funcs : ℕ → Loop → Option Loop
unfolding drain
do_queue_in_loop_funcs fuel l =
    drain fuel l.queue (record l { calling = true }) >>= λ l'. some (record l' { calling = false })

abbrev pub contains : ℕ → List ℕ → Bool
contains x [] = false
contains x (y ∷ ys) = x == y || contains x ys

abbrev pub is_current : ℕ → Option ℕ → Bool
is_current c none = false
is_current c (some d) = c == d

-- The asserts of `removeChannel`, for a caller in thread `tid` and a channel of this loop.
unfoldable pub may_remove_channel : ℕ → ℕ → Loop → Bool
may_remove_channel tid channel l =
    is_in_loop_thread tid l
    && (not l.event_handling || is_current channel l.current || not (contains channel l.active))
