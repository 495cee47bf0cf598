-- ===== src/Base/Threadpool/Tasks.antt =====
-- The tasks of burger/base/ThreadPool.cc over every order of its calls.
use burger.Common.{
  ℕ, ◌≤◌, ◌≡◌, refl, ◌⊎◌, inl, inr, some, List, [], ◌∷◌, ◌++◌, arith, length, length-append,
  Option-cases, Bool-cases, append_assoc,
}
use burger.Base.Threadpool.{
  Pool, Outcome, ran, waits, dropped, queued, Taken, blocks, empty, got, run, take, take_front,
  stop, is_full,
}

-- The pool with the tasks that it accepted and those that its threads took, each in order.
pub record System : Type 0 where
  pub pool : Pool
  pub accepted : List ℕ
  pub given : List ℕ

abbrev pub accept : Outcome → ℕ → List ℕ → List ℕ
accept queued task ts = ts ++ (task ∷ [])
accept ran task ts = ts
accept waits task ts = ts
accept dropped task ts = ts

abbrev pub give : Taken → List ℕ → List ℕ
give (got task) ts = ts ++ (task ∷ [])
give blocks ts = ts
give empty ts = ts

pub data Step (s s' : System) : Type 0 where
  runs :
      (task : ℕ) (o : Outcome)
      → run task s.pool ≡ some (o, s'.pool)
      → s'.accepted ≡ accept o task s.accepted
      → s'.given ≡ s.given
      → Step s s'
  takes :
      (t : Taken)
      → take s.pool ≡ (t, s'.pool)
      → s'.accepted ≡ s.accepted
      → s'.given ≡ give t s.given
      → Step s s'
  stops : s'.pool ≡ stop s.pool → s'.accepted ≡ s.accepted → s'.given ≡ s.given → Step s s'

pub data Reach (s : System) : System → Type 0 where
  here : Reach s s
  next : {t u : System} → Reach s t → Step t u → Reach s u

-- The queue keeps to its bound, and holds what was accepted and not yet given out.
pub record IsValid (s : System) : Type 0 where
  pub bounded : s.pool.max_queue_size ≡ 0 ⊎ length s.pool.queue ≤ s.pool.max_queue_size
  pub order : s.accepted ≡ s.given ++ s.pool.queue

-- The assert of run never fails: any task runs at once, waits for room, is dropped by a stopped
-- pool or is queued.
pub run_total : (task : ℕ) (p : Pool) → (o : Outcome) × (p' : Pool) × (run task p ≡ some (o, p'))
unfolding run is_full
run_total task p = elim (Option-cases (run task p)) [
  | inl e ↦ absurd (ground arith)
  | inr ((o, p'), e) ↦ (o, p', e)
]

take_front-order :
    (ts given : List ℕ) (p p' : Pool) (t : Taken)
    → p.queue ≡ ts
    → take_front ts p ≡ (t, p')
    → (p'.max_queue_size ≡ p.max_queue_size)
      × (length p'.queue ≤ length ts)
      × (give t given ++ p'.queue ≡ given ++ ts)
take_front-order [] given p p' t q e = let c = Bool-cases p.running in ground arith
take_front-order (x ∷ ts) given p p' t q e = ground (arith, append_assoc given (x ∷ []) ts)

Step-IsValid : (s s' : System) → Step s s' → IsValid s → IsValid s'
unfolding run is_full take stop
Step-IsValid s s' (runs task o h a g) v = ground (
  arith,
  v,
  h,
  a,
  g,
  length-append s.pool.queue (task ∷ []),
  append_assoc s.given s.pool.queue (task ∷ []),
)
Step-IsValid s s' (takes t h a g) v =
    let (m, l, o) = take_front-order s.pool.queue s.given s.pool s'.pool t refl h in
    ground (arith, v, m, l, o, a, g)
Step-IsValid s s' (stops h a g) v = ground (arith, v, h, a, g)

Reach-IsValid : {s s' : System} → Reach s s' → IsValid s → IsValid s'
Reach-IsValid here v = v
Reach-IsValid {s} {s'} (next {t = t} r m) v = Step-IsValid t s' m (Reach-IsValid r v)

-- Over any order of runs, takes and stops of a pool whose queue is empty at first, the queue keeps
-- to its bound, if it has one, and the tasks accepted are those given to threads followed by those
-- that wait, in order.
pub Reach-bounded :
    {s s' : System}
    → Reach s s'
    → s.pool.queue ≡ []
    → s.accepted ≡ []
    → s.given ≡ []
    → (s'.pool.max_queue_size ≡ 0 ⊎ length s'.pool.queue ≤ s'.pool.max_queue_size)
      × (s'.accepted ≡ s'.given ++ s'.pool.queue)
Reach-bounded r q a g = let v = Reach-IsValid r (ground arith) in (v.bounded, v.order)
