-- ===== src/Net/EventLoop/Home.antt =====
-- The thread that a loop of burger/net/EventLoop.cc is at home in: the constructor, the destructor, the move to
-- another thread, and the asserts on the thread. Each thread has a pointer to its loop, a number;
-- `none` as an outcome is a failed assert or an abort.
use burger.Common.{
  ◌+◌, ℕ, ◌≡◌, ◌≢◌, Bool, true, false, not, Option, none, some, [], if◌then◌else◌, ◌==◌, ◌>>◌,
  assert, arith,
}
use burger.Net.EventLoop.{Loop, is_in_loop_thread, may_remove_channel}
use burger.Net.EventLoop.Cycle.{is_running}

-- `t_loopInthisThread` of each thread.
abbrev pub Threads : Type 0
Threads = ℕ → Option ℕ

abbrev pub set_loop : ℕ → Option ℕ → Threads → Threads
set_loop tid id threads t = if t == tid then id else threads t

abbrev pub has_none : Option ℕ → Bool
has_none none = true
has_none (some id) = false

abbrev pub new_loop : ℕ → Loop
new_loop tid = record {
  thread = tid;
  looping = false;
  quit = false;
  event_handling = false;
  calling = false;
  active = [];
  current = none;
  queue = [];
  wakeups = 0;
  log = [];
}

unfoldable pub create : ℕ → ℕ → Threads → Option (Loop × Threads)
create tid id threads =
    assert (has_none (threads tid)) >> some (new_loop tid, set_loop tid (some id) threads)

-- The destructor, in thread `tid`.
unfoldable pub destroy : ℕ → Threads → Threads
destroy tid threads = set_loop tid none threads

unfoldable pub get_event_loop_of_current_thread : ℕ → Threads → Option ℕ
get_event_loop_of_current_thread tid threads = threads tid

unfoldable pub move_to_current_thread : ℕ → ℕ → Loop → Threads → Option (Loop × Threads)
unfolding is_running
move_to_current_thread tid id l threads =
    assert (not (is_running l))
    >> (if is_in_loop_thread tid l
        then some (l, threads)
        else (assert (has_none (threads tid))
            >> some (record l { thread = tid }, set_loop tid (some id) threads)))

unfoldable pub assert_in_loop_thread : ℕ → Loop → Option (Unit {0})
assert_in_loop_thread tid l = assert (is_in_loop_thread tid l)

-- The calls that go on to the poller, which is an argument; `mine` says whether the channel's loop
-- is this one.
unfoldable pub update_channel : {A : Type 0} → (A → Option A) → ℕ → Bool → Loop → A → Option A
unfolding assert_in_loop_thread
update_channel update tid mine l poller =
    assert mine >> assert_in_loop_thread tid l >> update poller

unfoldable pub remove_channel : {A : Type 0} → (A → Option A) → ℕ → ℕ → Bool → Loop → A → Option A
unfolding may_remove_channel
remove_channel remove tid channel mine l poller =
    assert mine >> assert (may_remove_channel tid channel l) >> remove poller

-- A loop that is made in a thread without one and moved to another such thread moves, but the
-- first thread still takes it for its own, also when it has been destroyed in the other, and
-- making a new loop in the first thread aborts.
pub move-stale :
    (a b id : ℕ) (threads : Threads)
    → threads a ≡ none
    → threads b ≡ none
    → a ≢ b
    → (l : Loop) × (ts : Threads) × (us : Threads) × (create a id threads ≡ some (l, ts))
      × (move_to_current_thread b id l ts ≡ some (record l { thread = b }, us))
      × (get_event_loop_of_current_thread a us ≡ some id)
      × (create a (id + 1) us ≡ none)
      × (get_event_loop_of_current_thread a (destroy b us) ≡ some id)
unfolding create move_to_current_thread get_event_loop_of_current_thread destroy is_running
move-stale a b id threads ea eb ne = (
  new_loop a,
  set_loop a (some id) threads,
  set_loop b (some id) (set_loop a (some id) threads),
  ground arith,
  ground arith,
  ground arith,
  ground arith,
  ground arith,
)
