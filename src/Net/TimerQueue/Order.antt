-- ===== src/Net/TimerQueue/Order.antt =====
-- The set of timers of burger/net/TimerQueue.cc stays in order.
use burger.Common.{◌≤◌, ◌≡◌, ◌⊎◌, inl, inr, true, some, List, [], ◌∷◌, arith, Option-cases, ◌++◌}
use burger.Net.TimerQueue.{Timer, less, insert_entry, erase_entry}

-- A timer stands before all of a list.
abbrev pub Before : Timer → List Timer → Type 0
Before t [] = Unit {0}
Before t (u ∷ us) = (less t u ≡ true) × Before t us

-- The entries strictly increase.
abbrev pub IsSorted : List Timer → Type 0
IsSorted [] = Unit {0}
IsSorted (t ∷ ts) = Before t ts × IsSorted ts

abbrev pub Mem : Timer → List Timer → Type 0
Mem t [] = ⊥
Mem t (u ∷ us) = (t ≡ u) ⊎ Mem t us

pub less_trans : (t u v : Timer) → less t u ≡ true → less u v ≡ true → less t v ≡ true
less_trans t u v h k = ground arith

pub Before-trans : (t u : Timer) (vs : List Timer) → less t u ≡ true → Before u vs → Before t vs
Before-trans t u [] h b = tt
Before-trans t u (v ∷ vs) h (l, b) = (less_trans t u v h l, Before-trans t u vs h b)

pub Before-le :
    (u : Timer) (front : List Timer) (t : Timer) (back : List Timer)
    → Before u (front ++ t ∷ back)
    → u.expiration ≤ t.expiration
Before-le u [] t back (l, b) = ground arith
Before-le u (v ∷ front) t back (l, b) = Before-le u front t back b

insert_entry-Before :
    (s t : Timer) (us vs : List Timer)
    → less s t ≡ true
    → Before s us
    → insert_entry t us ≡ some vs
    → Before s vs
unfolding insert_entry
insert_entry-Before s t [] vs h b e = ground arith
insert_entry-Before s t (u ∷ us) vs h (l, b) e = elim (Option-cases (insert_entry t us)) [
  | inl f ↦ ground arith
  | inr (ws, f) ↦ let i = insert_entry-Before s t us ws h b f in ground arith
]

pub insert_entry-IsSorted :
    (t : Timer) (us vs : List Timer) → IsSorted us → insert_entry t us ≡ some vs → IsSorted vs
unfolding insert_entry
insert_entry-IsSorted t [] vs s e = ground arith
insert_entry-IsSorted t (u ∷ us) vs (b, s) e =
    let c = Before-trans t u us in
    elim (Option-cases (insert_entry t us)) [
      | inl f ↦ ground arith
      | inr (ws, f) ↦
          let i = insert_entry-IsSorted t us ws s f in
          let j = λ (h : less u t ≡ true). insert_entry-Before u t us ws h b f in ground arith
    ]

erase_entry-Before :
    (s t : Timer) (us vs : List Timer) → Before s us → erase_entry t us ≡ some vs → Before s vs
unfolding erase_entry
erase_entry-Before s t [] vs b e = ground arith
erase_entry-Before s t (u ∷ us) vs (l, b) e = elim (Option-cases (erase_entry t us)) [
  | inl f ↦ ground arith
  | inr (ws, f) ↦ let i = erase_entry-Before s t us ws b f in ground arith
]

pub erase_entry-IsSorted :
    (t : Timer) (us vs : List Timer) → IsSorted us → erase_entry t us ≡ some vs → IsSorted vs
unfolding erase_entry
erase_entry-IsSorted t [] vs s e = ground arith
erase_entry-IsSorted t (u ∷ us) vs (b, s) e = elim (Option-cases (erase_entry t us)) [
  | inl f ↦ ground arith
  | inr (ws, f) ↦
      let i = erase_entry-IsSorted t us ws s f in
      let j = erase_entry-Before u t us ws b f in ground arith
]
