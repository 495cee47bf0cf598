-- ===== src/Net/TimerQueue/Expired.antt =====
-- `getExpiredList` of burger/net/ITimerQueue.cc.
use burger.Common.{
  ℕ, ◌<◌, ◌≡◌, ◌≢◌, refl, ap, inl, inr, true, false, none, some, List, [], ◌∷◌, ◌++◌, arith, ltb,
  Bool-cases,
}
use burger.Net.TimerQueue.{Timer, Queue, lower_bound, get_expired_list, is_earliest}
use burger.Net.TimerQueue.Order.{Before, IsSorted, Before-le}

abbrev pub Due : ℕ → List Timer → Type 0
Due now [] = Unit {0}
Due now (t ∷ ts) = (t.expiration < now) × Due now ts

abbrev pub Later : ℕ → List Timer → Type 0
Later now [] = Unit {0}
Later now (t ∷ ts) = (now < t.expiration) × Later now ts

-- No timer of the list expires at this very time.
abbrev pub NoneAt : ℕ → List Timer → Type 0
NoneAt now [] = Unit {0}
NoneAt now (t ∷ ts) = (t.expiration ≢ now) × NoneAt now ts

Before-Later :
    (now : ℕ) (t : Timer) (us : List Timer) → now < t.expiration → Before t us → Later now us
Before-Later now t [] h b = tt
Before-Later now t (u ∷ us) h (l, b) = (ground arith, Before-Later now t us h b)

lower_bound-split :
    (now : ℕ) (ts : List Timer)
    → IsSorted ts
    → NoneAt now ts
    → (expired rest : List Timer) × (lower_bound now ts ≡ (expired, rest))
      × (is_earliest now rest ≡ true)
      × (expired ++ rest ≡ ts)
      × Due now expired
      × Later now rest
      × IsSorted rest
unfolding lower_bound
lower_bound-split now [] s n = ([], [], refl, refl, refl, tt, tt, tt)
lower_bound-split now (t ∷ ts) (b, s) (d, n) =
    let (expired, rest, e, f, j, due, later, o) = lower_bound-split now ts s n in
    elim (Bool-cases (ltb t.expiration now)) [
      | inl early ↦ (
        t ∷ expired,
        rest,
        ground (arith, e),
        f,
        ap (λ l. t ∷ l) j,
        (ground arith, due),
        later,
        o,
      )
      | inr late ↦
          let h : now < t.expiration = ground arith in
          ([], t ∷ ts, ground arith, ground arith, refl, tt, (h, Before-Later now t ts h b), (b, s))
    ]

lower_bound-stops :
    (now : ℕ) (front : List Timer) (t : Timer) (back : List Timer)
    → IsSorted (front ++ t ∷ back)
    → t.expiration ≡ now
    → (expired rest : List Timer) × (lower_bound now (front ++ t ∷ back) ≡ (expired, rest))
      × (is_earliest now rest ≡ false)
unfolding lower_bound
lower_bound-stops now [] t back s h = ([], t ∷ back, ground arith, ground arith)
lower_bound-stops now (u ∷ front) t back (b, s) h =
    let (expired, rest, e, f) = lower_bound-stops now front t back s h in
    elim (Bool-cases (ltb u.expiration now)) [
      | inl early ↦ (u ∷ expired, rest, ground (arith, e), f)
      | inr late ↦
          ([], u ∷ (front ++ t ∷ back), ground arith, ground (arith, Before-le u front t back b))
    ]

-- When no timer of an ordered set expires at this very time, getExpiredList takes out, in order,
-- just the timers that expired before it and leaves those that expire later, in order.
pub get_expired_list-split :
    (now : ℕ) (q : Queue)
    → IsSorted q.timers
    → NoneAt now q.timers
    → (expired rest : List Timer) × (get_expired_list now q
        ≡ some (expired, record q { timers = rest }))
      × (expired ++ rest ≡ q.timers)
      × Due now expired
      × Later now rest
      × IsSorted rest
unfolding get_expired_list
get_expired_list-split now q s n =
    let (expired, rest, e, f, j, due, later, o) = lower_bound-split now q.timers s n in
    (expired, rest, rw (e, f) refl, j, due, later, o)

-- When a timer of an ordered set expires at this very time, the assert of getExpiredList fails.
pub get_expired_list-at_now :
    (now : ℕ) (front : List Timer) (t : Timer) (back : List Timer) (q : Queue)
    → q.timers ≡ front ++ t ∷ back
    → IsSorted q.timers
    → t.expiration ≡ now
    → get_expired_list now q ≡ none
unfolding get_expired_list
get_expired_list-at_now now front t back q a s h =
    let (expired, rest, e, f) = lower_bound-stops now front t back (rw (← a) s) h in
    rw (a, e, f) refl
