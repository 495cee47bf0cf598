-- ===== src/Net/EventLoop/Rounds.antt =====
-- The order and the end of `doQueueInLoopFuncs` of burger/net/EventLoop.cc.
use burger.Common.{
  ℕ, zero, suc, ◌+◌, ◌≤◌, ◌≡◌, refl, sym, ap, ◌∙◌, true, false, some, List, [], ◌∷◌, ◌++◌, arith,
  append_assoc, append-nil, length,
}
use burger.Net.EventLoop.{
  Func, func, Funcs, done, queues, Loop, list_of, call, drain, do_queue_in_loop_funcs,
}

-- How many functors run in the end for one.
abbrev mutual
  pub size : Func → ℕ
  size (func n fs) = suc (sizes fs)

  pub sizes : Funcs → ℕ
  sizes done = 0
  sizes (queues f fs) = size f + sizes fs

abbrev pub total : List Func → ℕ
total [] = 0
total (f ∷ fs) = size f + total fs

abbrev pub number : Func → ℕ
number (func n fs) = n

abbrev pub children : Func → List Func
children (func n fs) = list_of fs

abbrev pub numbers : List Func → List ℕ
numbers [] = []
numbers (f ∷ fs) = number f ∷ numbers fs

abbrev pub next_round : List Func → List Func
next_round [] = []
next_round (f ∷ fs) = children f ++ next_round fs

-- Round after round: all that waits, then all that these queued.
unfoldable pub rounds : ℕ → List Func → List ℕ
rounds zero fs = []
rounds (suc fuel) fs = numbers fs ++ rounds fuel (next_round fs)

-- What the loop runs, in its order.
unfoldable sequence : ℕ → List Func → List ℕ
sequence fuel [] = []
sequence zero (f ∷ fs) = []
sequence (suc fuel) (f ∷ fs) = number f ∷ sequence fuel (fs ++ children f)

pub total-append : (fs gs : List Func) → total (fs ++ gs) ≡ total fs + total gs
total-append [] gs = omega arith
total-append (f ∷ fs) gs = omega (arith, total-append fs gs)

total-list_of : (fs : Funcs) → total (list_of fs) ≡ sizes fs
total-list_of done = refl
total-list_of (queues f fs) = ap (λ n. size f + n) (total-list_of fs)

size_lem : (f : Func) → size f ≡ suc (total (children f))
size_lem (func n fs) = ap suc (sym (total-list_of fs))

drain-sequence :
    (fuel : ℕ) (fs : List Func) (l : Loop)
    → total fs ≤ fuel
    → drain fuel fs l ≡ some (record l { queue = []; log = l.log ++ sequence fuel fs })
unfolding drain sequence call
drain-sequence fuel [] l h =
    ap (λ log. some (record l { queue = []; log = log })) (sym (append-nil l.log))
drain-sequence zero (f ∷ fs) l h = absurd (omega (arith, h, size_lem f))
drain-sequence (suc fuel) (func n cs ∷ fs) l h =
    drain-sequence fuel (fs ++ list_of cs)
      (record l { queue = fs ++ list_of cs; log = l.log ++ (n ∷ []) })
      (omega (arith, h, total-append fs (list_of cs), total-list_of cs))
    ∙ ap (λ log. some (record l { queue = []; log = log }))
        (append_assoc l.log (n ∷ []) (sequence fuel (fs ++ list_of cs)))

-- A round: all that waits in front runs, and what it queues stands behind the rest.
sequence-round :
    (fuel : ℕ) (fs gs : List Func)
    → total (fs ++ gs) ≤ fuel
    → (rest : ℕ) × (rest + total fs ≡ fuel + total (next_round fs))
      × (sequence fuel (fs ++ gs) ≡ numbers fs ++ sequence rest (gs ++ next_round fs))
unfolding sequence
sequence-round fuel [] gs h = (fuel, omega arith, ap (sequence fuel) (sym (append-nil gs)))
sequence-round zero (f ∷ fs) gs h = absurd (omega (arith, h, size_lem f))
sequence-round (suc fuel) (f ∷ fs) gs h =
    let a = append_assoc fs gs (children f) in
    let b = total-append (fs ++ gs) (children f) in
    let c = ap total a in
    let (rest, e, q) =
      sequence-round fuel fs (gs ++ children f) (omega (arith, h, b, c, size_lem f)) in
    (
      rest,
      omega (arith, e, size_lem f, total-append (children f) (next_round fs)),
      ap (λ xs. number f ∷ sequence fuel xs) a
          ∙ ap (λ xs. number f ∷ xs) q
          ∙ ap (λ xs. number f ∷ (numbers fs ++ sequence rest xs))
              (append_assoc gs (children f) (next_round fs)),
    )

total-next_round : (fs : List Func) → total (next_round fs) + length fs ≡ total fs
total-next_round [] = refl
total-next_round (f ∷ fs) =
    omega (arith, total-next_round fs, size_lem f, total-append (children f) (next_round fs))

sequence-nil : (fuel : ℕ) → sequence fuel [] ≡ []
unfolding sequence
sequence-nil zero = refl
sequence-nil (suc fuel) = refl

sequence-rounds :
    (k fuel : ℕ) (fs : List Func) → total fs ≤ fuel → total fs ≤ k → sequence fuel fs ≡ rounds k fs
unfolding rounds
sequence-rounds zero fuel [] h g = sequence-nil fuel
sequence-rounds zero fuel (f ∷ fs) h g = absurd (omega (arith, g, size_lem f))
sequence-rounds (suc k) fuel [] h g = sequence-rounds k fuel [] h (omega arith)
sequence-rounds (suc k) fuel (f ∷ fs) h g =
    let t = total-next_round (f ∷ fs) in
    let n = append-nil (f ∷ fs) in
    let (rest, e, q) = sequence-round fuel (f ∷ fs) [] (omega (arith, h, ap total n)) in
    ap (sequence fuel) (sym n)
    ∙ q
    ∙ ap (λ xs. numbers (f ∷ fs) ++ xs)
        (sequence-rounds k rest (next_round (f ∷ fs)) (omega (arith, h, e)) (omega (arith, g, t)))

-- With fuel for all functors that wait and that these queue in turn, doQueueInLoopFuncs ends with
-- an empty queue, and runs the functors in rounds: all that wait, in order, then all that these
-- queued, in order, and so on until none is left.
pub do_queue_in_loop_funcs-rounds :
    (fuel : ℕ) (l : Loop)
    → total l.queue ≤ fuel
    → do_queue_in_loop_funcs fuel l
      ≡ some (record l { queue = []; calling = false; log = l.log ++ rounds fuel l.queue })
unfolding do_queue_in_loop_funcs
do_queue_in_loop_funcs-rounds fuel l h =
    rw
      (
        drain-sequence fuel l.queue (record l { calling = true }) h,
        sequence-rounds fuel fuel l.queue h h,
      )
      refl
