-- ===== src/Net/EventLoopThread/Moves.antt =====
-- What holds after any moves of a loop's thread and of its owner.
use burger.Common.{◌≡◌, ◌≢◌, refl, Bool, true, false, some, List, [], ◌∷◌, >>=-eq-some, arith}
use mathlib.Core.Path.{subst}
use mathlib.Core.Option.{some-injective}
use burger.Net.EventLoopThread.{
  Thread, idle, ready, looping, leaving, finished, Owner, outside, started, quitting, joining, gone,
  State, init, Move, start, wake, destroy, do_quit, join, build, publish, begin, round, leave,
  clear, quit_by_other, own, run_thread, call_quit, finish_join, step, run,
}

-- The thread has handed its loop over and has not taken it back.
abbrev pub holds_loop : Thread → Bool
holds_loop ready = true
holds_loop looping = true
holds_loop leaving = true
holds_loop t = false

abbrev pub has_published : Thread → Bool
has_published finished = true
has_published t = holds_loop t

-- The owner is past `startLoop`, and its object lives.
abbrev pub is_past : Owner → Bool
is_past started = true
is_past quitting = true
is_past joining = true
is_past o = false

pub record Sound (s : State) : Type 0 where
  pub shared : s.loop ≡ holds_loop s.thread
  pub past : is_past s.owner ≡ true → has_published s.thread ≡ true
  pub quits : s.thread ≡ leaving → s.quit ≡ true
  pub not_started : s.owner ≡ outside → s.thread ≡ idle

step-Sound : (m : Move) (s t : State) → step m s ≡ some t → Sound s → Sound t
unfolding step own run_thread finish_join call_quit
step-Sound start s t e h = ground arith
step-Sound wake s t e h = ground arith
step-Sound destroy s t e h = ground arith
step-Sound do_quit s t e h = ground arith
step-Sound join s t e h = ground arith
step-Sound build s t e h = ground arith
step-Sound publish s t e h = ground arith
step-Sound begin s t e h = ground arith
step-Sound round s t e h = ground arith
step-Sound leave s t e h = ground arith
step-Sound clear s t e h = ground arith
step-Sound quit_by_other s t e h = ground arith

run_moves-Sound : (ms : List Move) (s t : State) → run ms s ≡ some t → Sound s → Sound t
unfolding run
run_moves-Sound [] s t e h = subst Sound (some-injective _ _ e) h
run_moves-Sound (m ∷ ms) s t e h =
    let (u, e', f) = >>=-eq-some (step m s) (run ms) e in
    run_moves-Sound ms u t f (step-Sound m s u e' h)

init-Sound : Sound init
unfolding init
init-Sound = record { shared = refl; past = λ e. cc; quits = λ e. cc; not_started = λ e. refl }

-- After any moves of a new EventLoopThread, calls of quit by others among them, the owner sees a
-- loop exactly while the thread has handed it over and not taken it back, is past startLoop and
-- not destroyed only when the thread has handed it over, and the thread leaves its loop only when
-- quit.
pub run_init-Sound : (ms : List Move) (s : State) → run ms init ≡ some s → Sound s
run_init-Sound ms s e = run_moves-Sound ms init s e init-Sound

-- The destructor waits for a thread whose loop goes on.
pub record Stuck (s : State) : Type 0 where
  pub waits : s.owner ≡ joining
  pub goes_on : s.thread ≡ looping
  pub not_quit : s.quit ≡ false

-- Nobody but the destructor calls quit.
abbrev pub NoOtherQuit : List Move → Type 0
NoOtherQuit [] = Unit {0}
NoOtherQuit (m ∷ ms) = (m ≢ quit_by_other) × NoOtherQuit ms

step-Stuck : (m : Move) (s t : State) → m ≢ quit_by_other → step m s ≡ some t → Stuck s → Stuck t
unfolding step own run_thread finish_join call_quit
step-Stuck start s t n e h = ground arith
step-Stuck wake s t n e h = ground arith
step-Stuck destroy s t n e h = ground arith
step-Stuck do_quit s t n e h = ground arith
step-Stuck join s t n e h = ground arith
step-Stuck build s t n e h = ground arith
step-Stuck publish s t n e h = ground arith
step-Stuck begin s t n e h = ground arith
step-Stuck round s t n e h = ground arith
step-Stuck leave s t n e h = ground arith
step-Stuck clear s t n e h = ground arith
step-Stuck quit_by_other s t n e h = absurd (n refl)

run-Stuck : (ms : List Move) (s t : State) → NoOtherQuit ms → run ms s ≡ some t → Stuck s → Stuck t
unfolding run
run-Stuck [] s t n e h = subst Stuck (some-injective _ _ e) h
run-Stuck (m ∷ ms) s t (n, ns) e h =
    let (u, e', f) = >>=-eq-some (step m s) (run ms) e in
    run-Stuck ms u t ns f (step-Stuck m s u n e' h)

begin-Stuck : (s t : State) → s.owner ≡ joining → s.thread ≡ ready → step begin s ≡ some t → Stuck t
unfolding step run_thread
begin-Stuck s t o r e = ground arith

-- When the destructor waits for a thread that has handed its loop over but not begun it, then
-- after the begin of the loop and any moves, as long as nobody else calls quit on the loop, the
-- destructor still waits, and the loop still goes on and is not quit.
pub run-lost_quit :
    (ms : List Move) (s t : State)
    → s.owner ≡ joining
    → s.thread ≡ ready
    → NoOtherQuit ms
    → run (begin ∷ ms) s ≡ some t
    → Stuck t
unfolding run
run-lost_quit ms s t o r n e =
    let (u, e', f) = >>=-eq-some (step begin s) (run ms) e in
    run-Stuck ms u t n f (begin-Stuck s u o r e')

abbrev pub closing : List Move
closing = do_quit ∷ leave ∷ clear ∷ join ∷ []

-- When the loop has begun before the destructor asks it to quit, these moves end both.
pub run-quit :
    (ms : List Move) (s : State)
    → run ms init ≡ some s
    → s.owner ≡ quitting
    → s.thread ≡ looping
    → run closing s ≡ some (record s { owner = gone; thread = idle; quit = true; loop = false })
unfolding run step own run_thread finish_join
run-quit ms s e o l = let shared = (run_init-Sound ms s e).shared in ground arith
