-- ===== src/Base/MpscQueue/Tests.antt =====
-- Two producers whose steps interleave, and the theorems at the states they reach.
use burger.Common.{ℕ, ◌≡◌, refl, List, [], ◌∷◌, ◌++◌}
use burger.Base.MpscQueue.{init, exchange, link, dequeue}
use burger.Base.MpscQueue.Fifo.{
  System, start, begin, finish, consume, Reach, here, next, begins, finishes, consumes, Reach-fifo,
}

-- Thread 2 links its node before thread 1, which came first.
abbrev both : System
both = finish 2 1 2 (begin 2 20 (begin 1 10 start))

abbrev all_taken : System
all_taken = consume (consume (finish 1 0 1 (consume both)))

both_reached : Reach both
unfolding exchange init
both_reached = next (next (next here (begins 1 10 refl)) (begins 2 20 refl)) (finishes 2 1 2 refl)

all_taken_reached : Reach all_taken
unfolding init exchange link dequeue
all_taken_reached =
    next (next (next (next both_reached consumes) (finishes 1 0 1 refl)) consumes) consumes

none_yet : (consume both).out ≡ []
unfolding init exchange link dequeue
none_yet = refl

in_order : all_taken.out ≡ 10 ∷ 20 ∷ []
unfolding init exchange link dequeue
in_order = refl

Reach-fifo_example : (waiting : List ℕ) × (all_taken.entered ≡ all_taken.out ++ waiting)
Reach-fifo_example = Reach-fifo all_taken_reached
