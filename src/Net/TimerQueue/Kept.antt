-- ===== src/Net/TimerQueue/Kept.antt =====
-- Every operation of burger/net/TimerQueue.cc keeps the set in order.
use burger.Common.{
  ℕ, ◌≡◌, refl, inl, inr, Bool, true, false, not, ◌&&◌, Option, none, some, List, [], ◌∷◌, arith,
  ◌>>=◌, >>=-eq-some, Bool-cases,
}
use burger.Net.TimerQueue.{
  Timer, Queue, insert, add_timer_in_loop, cancel_in_loop, cancel_with, get_expired_list,
  lower_bound, reset, reset_timers, run_all, handle_read, restart, insert_entry, erase_entry,
  contains,
}
use burger.Net.TimerQueue.Order.{IsSorted, insert_entry-IsSorted, erase_entry-IsSorted}

insert-IsSorted :
    (t : Timer) (q : Queue) (earliest : Bool) (q' : Queue)
    → IsSorted q.timers
    → insert t q ≡ some (earliest, q')
    → IsSorted q'.timers
unfolding insert
insert-IsSorted t q earliest q' s h =
    let (us, e, f) = >>=-eq-some (insert_entry t q.timers) _ h in
    let i = insert_entry-IsSorted t q.timers us s e in ground arith

pub add_timer_in_loop-IsSorted :
    (t : Timer) (q q' : Queue)
    → IsSorted q.timers
    → add_timer_in_loop t q ≡ some q'
    → IsSorted q'.timers
unfolding add_timer_in_loop
add_timer_in_loop-IsSorted t q q' s h =
    let ((earliest, p), e, f) = >>=-eq-some (insert t q) _ h in
    let i = insert-IsSorted t q earliest p s e in ground arith

cancel_with-IsSorted :
    (o : Option (List Timer)) (t : Timer) (q : Queue)
    → erase_entry t q.timers ≡ o
    → IsSorted q.timers
    → IsSorted (cancel_with o t q).timers
cancel_with-IsSorted none t q e s = s
cancel_with-IsSorted (some us) t q e s = erase_entry-IsSorted t q.timers us s e

pub cancel_in_loop-IsSorted :
    (t : Timer) (q : Queue) → IsSorted q.timers → IsSorted (cancel_in_loop t q).timers
unfolding cancel_in_loop
cancel_in_loop-IsSorted t q s = cancel_with-IsSorted (erase_entry t q.timers) t q refl s

rest-IsSorted : (now : ℕ) (ts : List Timer) → IsSorted ts → IsSorted (lower_bound now ts).1
unfolding lower_bound
rest-IsSorted now [] s = tt
rest-IsSorted now (t ∷ ts) (b, s) = let i = rest-IsSorted now ts s in ground arith

get_expired_list-IsSorted :
    (now : ℕ) (q : Queue) (expired : List Timer) (q' : Queue)
    → IsSorted q.timers
    → get_expired_list now q ≡ some (expired, q')
    → IsSorted q'.timers
unfolding get_expired_list
get_expired_list-IsSorted now q expired q' s h =
    let i = rest-IsSorted now q.timers s in ground arith

reset_timers-IsSorted :
    (expired : List Timer) (now : ℕ) (q q' : Queue)
    → IsSorted q.timers
    → reset_timers expired now q ≡ some q'
    → IsSorted q'.timers
unfolding reset_timers
reset_timers-IsSorted [] now q q' s h = ground arith
reset_timers-IsSorted (t ∷ ts) now q q' s h =
    elim (Bool-cases (t.repeat && not (contains t.address q.canceling))) [
      | inl a ↦
          let (p, e, f) =
            >>=-eq-some (insert (restart now t) q >>= λ (_, q'). some q') _ (rw a at h) in
          let ((earliest, p'), e', f') = >>=-eq-some (insert (restart now t) q) _ e in
          let i = insert-IsSorted (restart now t) q earliest p' s e' in
          reset_timers-IsSorted ts now p q' (ground arith) f
      | inr a ↦ reset_timers-IsSorted ts now q q' s (rw a at h)
    ]

reset-IsSorted :
    (expired : List Timer) (now : ℕ) (q q' : Queue)
    → IsSorted q.timers
    → reset expired now q ≡ some q'
    → IsSorted q'.timers
unfolding reset
reset-IsSorted expired now q q' s h =
    let (p, e, f) = >>=-eq-some (reset_timers expired now q) _ h in
    let i = reset_timers-IsSorted expired now q p s e in ground arith

module _ (callback : Timer → Queue → Option Queue)
    (keeps : (t : Timer) (q q' : Queue)
      → IsSorted q.timers
      → callback t q ≡ some q'
      → IsSorted q'.timers) where
  run_all-IsSorted :
      (expired : List Timer) (q q' : Queue)
      → IsSorted q.timers
      → run_all callback expired q ≡ some q'
      → IsSorted q'.timers
  unfolding run_all
  run_all-IsSorted [] q q' s h = ground arith
  run_all-IsSorted (t ∷ ts) q q' s h =
      let (p, e, f) = >>=-eq-some (callback t q) _ h in run_all-IsSorted ts p q' (keeps t q p s e) f

  -- HandleRead on an ordered set of timers leaves it ordered, if it does not stop the program, for
  -- any callbacks that keep the order, such as those that add timers.
  pub handle_read-IsSorted :
      (now : ℕ) (q q' : Queue)
      → IsSorted q.timers
      → handle_read callback now q ≡ some q'
      → IsSorted q'.timers
  unfolding handle_read
  handle_read-IsSorted now q q' s h =
      let ((expired, p), e, f) = >>=-eq-some (get_expired_list now q) _ h in
      let (r, e', f') =
        >>=-eq-some (run_all callback expired (record p { calling = true; canceling = [] })) _ f in
      let i = get_expired_list-IsSorted now q expired p s e in
      let j = run_all-IsSorted expired (record p { calling = true; canceling = [] }) r i e' in
      reset-IsSorted expired now (record r { calling = false }) q' j f'
