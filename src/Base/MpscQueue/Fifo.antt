-- ===== src/Base/MpscQueue/Fifo.antt =====
-- Any number of threads inside `enqueue` and one that dequeues, of burger/base/MpscQueue.h.
use burger.Common.{
  ℕ, suc, ◌+◌, ◌≤◌, ◌<◌, ◌≡◌, refl, sym, ap, ◌∙◌, inl, inr, true, Option, none, some, List, [], ◌∷◌,
  ◌++◌, arith, ◌==◌, append_assoc, append-nil, length, length-append, Bool-cases,
}
use burger.Base.MpscQueue.{Queue, init, set, exchange, link, dequeue, take_node, empty}

-- A thread inside `enqueue` holds its `prevhead` and its `node`. `entered` lists the inputs in the
-- order of their exchanges, `out` what was dequeued.
pub record System : Type 0 where
  pub queue : Queue
  pub threads : ℕ → Option (ℕ × ℕ)
  pub entered : List ℕ
  pub out : List ℕ

abbrev pub start : System
start = record { queue = init; threads = λ i. none; entered = []; out = [] }

abbrev pub begin : ℕ → ℕ → System → System
begin i input s =
    let (prev, node, q) = exchange input s.queue in
    record s {
      queue = q;
      threads = set i (some (prev, node)) s.threads;
      entered = s.entered ++ (input ∷ []);
    }

abbrev pub finish : ℕ → ℕ → ℕ → System → System
finish i prev node s = record s { queue = link prev node s.queue; threads = set i none s.threads }

abbrev pub taken : Option ℕ → List ℕ → List ℕ
taken none out = out
taken (some x) out = out ++ (x ∷ [])

abbrev pub consume : System → System
consume s = let (output, q) = dequeue s.queue in record s { queue = q; out = taken output s.out }

pub data Step (s : System) : System → Type 0 where
  begins : (i input : ℕ) → s.threads i ≡ none → Step s (begin i input s)
  finishes : (i prev node : ℕ) → s.threads i ≡ some (prev, node) → Step s (finish i prev node s)
  consumes : Step s (consume s)

pub data Reach : System → Type 0 where
  here : Reach start
  next : {s t : System} → Reach s → Step s t → Reach t

-- The inputs stored at the addresses from one on.
abbrev pub Stored : (ℕ → Option ℕ) → ℕ → List ℕ → Type 0
Stored data_ptr a [] = Unit {0}
Stored data_ptr a (x ∷ xs) = (data_ptr a ≡ some x) × Stored data_ptr (suc a) xs

record IsValid (s : System) (waiting : List ℕ) : Type 0 where
  order : s.entered ≡ s.out ++ waiting
  stored : Stored s.queue.data_ptr (suc s.queue.tail) waiting
  count : s.queue.head ≡ s.queue.tail + length waiting
  next_fresh : s.queue.fresh ≡ suc s.queue.head
  open_end : (a : ℕ) → s.queue.head ≤ a → s.queue.next a ≡ none
  forwards : (a b : ℕ) → s.queue.next a ≡ some b → b ≡ suc a
  held :
      (i p n : ℕ)
      → s.threads i ≡ some (p, n)
      → (n ≡ suc p) × (s.queue.tail ≤ p) × (p < s.queue.head) × (s.queue.next p ≡ none)
  alone : (i j p n m : ℕ) → s.threads i ≡ some (p, n) → s.threads j ≡ some (p, m) → i ≡ j
  gap :
      (a : ℕ)
      → s.queue.tail ≤ a
      → a < s.queue.head
      → s.queue.next a ≡ none
      → (i : ℕ) × (s.threads i ≡ some (a, suc a))

Stored-end :
    (f : ℕ → Option ℕ) (a b x : ℕ) (xs : List ℕ)
    → b ≡ a + length xs
    → Stored f a xs
    → Stored (set b (some x) f) a (xs ++ x ∷ [])
Stored-end f a b x [] e s = (ground arith, tt)
Stored-end f a b x (y ∷ ys) e (h, s) = (ground arith, Stored-end f (suc a) b x ys (ground arith) s)

Stored-past :
    (f : ℕ → Option ℕ) (a b : ℕ) (xs : List ℕ) → b < a → Stored f a xs → Stored (set b none f) a xs
Stored-past f a b [] e s = tt
Stored-past f a b (y ∷ ys) e (h, s) = (ground arith, Stored-past f (suc a) b ys (ground arith) s)

begin-IsValid :
    (i input : ℕ) (s : System) (waiting : List ℕ)
    → IsValid s waiting
    → s.threads i ≡ none
    → IsValid (begin i input s) (waiting ++ input ∷ [])
unfolding exchange
begin-IsValid i input s waiting v h = record {
  order = ap (λ xs. xs ++ input ∷ []) v.order ∙ append_assoc s.out waiting (input ∷ []);
  stored =
      Stored-end s.queue.data_ptr (suc s.queue.tail) s.queue.fresh input waiting
        (omega (arith, v.count, v.next_fresh)) v.stored;
  count = omega (arith, length-append waiting (input ∷ []), v.count, v.next_fresh);
  next_fresh = refl;
  open_end = λ a l. ground (arith, v.open_end a);
  forwards = λ a b e. ground (arith, v.forwards a b);
  held = λ j p n e. ground (arith, v.held j p n, v.open_end s.queue.head);
  alone = λ j k p n m e f. ground (arith, v.alone j k p n m, v.held j p n, v.held k p m);
  gap = λ a l u e. elim (Bool-cases (a == s.queue.head)) [
    | inl new ↦ (i, ground arith)
    | inr old ↦ let (j, g) = v.gap a l (ground arith) (ground arith) in (j, ground arith)
  ];
}

finish-IsValid :
    (i p n : ℕ) (s : System) (waiting : List ℕ)
    → IsValid s waiting
    → s.threads i ≡ some (p, n)
    → IsValid (finish i p n s) waiting
unfolding link
finish-IsValid i p n s waiting v h =
    let k = v.held i p n h in
    record {
      order = v.order;
      stored = v.stored;
      count = v.count;
      next_fresh = v.next_fresh;
      open_end = λ a l. ground (arith, v.open_end a, k);
      forwards = λ a b e. ground (arith, v.forwards a b, k);
      held = λ j r m e. ground (arith, v.held j r m, v.alone i j r n m);
      alone = λ j l r m o e f. ground (arith, v.alone j l r m o);
      gap = λ a l u e. let (j, g) = v.gap a l u (ground (arith, k)) in (j, ground (arith, k));
    }

-- `consume` after the read of the tail's `next_`, which comes first.
abbrev consume_at : Option ℕ → System → System
consume_at o s =
    let (output, q) = take_node o s.queue in record s { queue = q; out = taken output s.out }

consume_at-IsValid :
    (o : Option ℕ) (s : System) (waiting : List ℕ)
    → IsValid s waiting
    → s.queue.next s.queue.tail ≡ o
    → (waiting' : List ℕ) × IsValid (consume_at o s) waiting'
consume_at-IsValid none s waiting v e = (
  waiting,
  record {
    order = v.order;
    stored = v.stored;
    count = v.count;
    next_fresh = v.next_fresh;
    open_end = v.open_end;
    forwards = v.forwards;
    held = v.held;
    alone = v.alone;
    gap = v.gap;
  },
)
consume_at-IsValid (some n) s [] v e = absurd (ground (arith, v.open_end s.queue.tail, v.count))
consume_at-IsValid (some n) s (x ∷ xs) v e =
    let f = v.forwards s.queue.tail n e in
    let d : s.queue.data_ptr n ≡ some x = ap s.queue.data_ptr f ∙ v.stored.0 in
    (
      xs,
      record {
        order =
            v.order ∙ sym (append_assoc s.out (x ∷ []) xs) ∙ ap (λ o. taken o s.out ++ xs) (sym d);
        stored = Stored-past s.queue.data_ptr (suc n) n xs (omega arith) (rw f (v.stored.1));
        count = omega (arith, v.count, f);
        next_fresh = v.next_fresh;
        open_end = v.open_end;
        forwards = v.forwards;
        held = λ i p m h. ground (arith, v.held i p m h, f, e);
        alone = v.alone;
        gap = λ a l u h. v.gap a (omega (arith, f)) u h;
      },
    )

Step-IsValid :
    {s t : System} (waiting : List ℕ)
    → IsValid s waiting
    → Step s t
    → (waiting' : List ℕ) × IsValid t waiting'
unfolding dequeue
Step-IsValid {s} waiting v (begins i input h) =
    (waiting ++ input ∷ [], begin-IsValid i input s waiting v h)
Step-IsValid {s} waiting v (finishes i p n h) = (waiting, finish-IsValid i p n s waiting v h)
Step-IsValid {s} waiting v consumes =
    consume_at-IsValid (s.queue.next s.queue.tail) s waiting v refl

start-IsValid : IsValid start []
unfolding init
start-IsValid = record {
  order = refl;
  stored = tt;
  count = refl;
  next_fresh = refl;
  open_end = λ a l. refl;
  forwards = λ a b e. cc;
  held = λ i p n e. ground arith;
  alone = λ i j p n m e f. cc;
  gap = λ a l u e. absurd (omega (arith, u));
}

Reach-IsValid : {s : System} → Reach s → (waiting : List ℕ) × IsValid s waiting
Reach-IsValid here = ([], start-IsValid)
Reach-IsValid (next r m) = let (waiting, v) = Reach-IsValid r in Step-IsValid waiting v m

-- In every state that threads inside enqueue and a consumer reach by any order of their steps,
-- what was dequeued is a prefix of the inputs in the order of their exchanges: nothing is lost,
-- doubled or out of order.
pub Reach-fifo : {s : System} → Reach s → (waiting : List ℕ) × (s.entered ≡ s.out ++ waiting)
Reach-fifo r = let (waiting, v) = Reach-IsValid r in (waiting, v.order)

idle_out :
    (s : System) (waiting : List ℕ)
    → IsValid s waiting
    → ((i : ℕ) → s.threads i ≡ none)
    → s.queue.next s.queue.tail ≡ none
    → s.out ≡ s.entered
idle_out s [] v idle e = sym (v.order ∙ append-nil s.out)
idle_out s (x ∷ xs) v idle e =
    let (i, h) = v.gap s.queue.tail (omega arith) (omega (arith, v.count)) e in let z = idle i in cc

-- In every state that is reached, when no thread is inside enqueue and the queue says that it is
-- empty, all inputs were dequeued.
pub Reach-drained :
    {s : System}
    → Reach s
    → ((i : ℕ) → s.threads i ≡ none)
    → empty s.queue ≡ true
    → s.out ≡ s.entered
unfolding empty
Reach-drained {s} r idle e =
    let (waiting, v) = Reach-IsValid r in idle_out s waiting v idle (ground arith)

-- In every state that is reached, the node that a thread inside enqueue is about to link to was
-- not deleted, comes before the head and has no successor yet.
pub Reach-held :
    {s : System}
    → Reach s
    → (i p n : ℕ) → s.threads i ≡ some (p, n)
    → (s.queue.tail ≤ p) × (p < s.queue.head) × (s.queue.next p ≡ none)
Reach-held r i p n h =
    let (waiting, v) = Reach-IsValid r in let (a, b, c, d) = v.held i p n h in (b, c, d)
