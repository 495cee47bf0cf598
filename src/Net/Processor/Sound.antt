-- ===== src/Net/Processor/Sound.antt =====
-- burger/net/Processor.cc: a coroutine stands at most once in the queues, idle ones have ended, and runnable ones
-- have not. What each operation does to that.
use burger.Common.{
  ℕ, suc, ◌+◌, ◌≤◌, ◌<◌, ◌≡◌, ◌≢◌, refl, sym, ap, ◌∙◌, true, some, List, [], ◌∷◌, ◌++◌,
  if◌then◌else◌, ◌==◌, arith, append_assoc, append-nil,
}
use burger.Base.Coroutine.{Coroutine, exec, term, fresh, reset, reset_at}
use burger.Net.Processor.{
  Processor, store, add_co, get_co, put_reset, reset_and_get_co, add_task, add_tasks,
}

abbrev pub count : ℕ → List ℕ → ℕ
count i [] = 0
count i (x ∷ xs) = if x == i then suc (count i xs) else count i xs

pub count-append : (i : ℕ) (xs ys : List ℕ) → count i (xs ++ ys) ≡ count i xs + count i ys
count-append i [] ys = omega arith
count-append i (x ∷ xs) ys = let h = count-append i xs ys in ground arith

pub record SoundAt (idle runnable : List ℕ) (next : ℕ) (coroutines : ℕ → Coroutine) : Type 0 where
  pub once : (i : ℕ) → count i idle + count i runnable ≤ 1
  pub ended : (i : ℕ) → 0 < count i idle → (coroutines i).state ≡ term
  pub active :
      (i : ℕ)
      → 0 < count i runnable
      → ((coroutines i).state ≡ exec) × ((coroutines i).inside ≡ true)
  pub known : (i : ℕ) → next ≤ i → count i idle + count i runnable ≡ 0

abbrev pub Sound : Processor → Type 0
Sound p = SoundAt p.idle p.runnable p.next p.coroutines

-- In no queue, and not at its end.
abbrev pub Waiting : ℕ → Processor → Type 0
Waiting i p =
    (count i p.idle ≡ 0)
    × (count i p.runnable ≡ 0)
    × (i < p.next)
    × ((p.coroutines i).inside ≡ true)

abbrev pub Running : ℕ → Processor → Type 0
Running i p = Waiting i p × ((p.coroutines i).state ≡ exec)

abbrev pub Extends : List ℕ → List ℕ → Type 0
Extends xs ys = (zs : List ℕ) × (ys ≡ xs ++ zs)

pub Extends-refl : (xs : List ℕ) → Extends xs xs
Extends-refl xs = ([], sym (append-nil xs))

pub Extends-trans : (xs ys zs : List ℕ) → Extends xs ys → Extends ys zs → Extends xs zs
Extends-trans xs ys zs (us, e) (vs, f) = (us ++ vs, f ∙ ap (λ l. l ++ vs) e ∙ append_assoc xs us vs)

-- A change to one coroutine that keeps its state.
pub store-SoundAt :
    (i : ℕ) (co : Coroutine) (idle runnable : List ℕ) (next : ℕ) (coroutines : ℕ → Coroutine)
    → co.state ≡ (coroutines i).state
    → co.inside ≡ (coroutines i).inside
    → SoundAt idle runnable next coroutines
    → SoundAt idle runnable next (store i co coroutines)
store-SoundAt i co idle runnable next coroutines e f s = record {
  once = s.once;
  ended = λ j h. let k = s.ended j h in ground arith;
  active = λ j h. let (k, l) = s.active j h in (ground arith, ground arith);
  known = s.known;
}

pub add_co-Sound : (i : ℕ) (p : Processor) → Sound p → Waiting i p → Sound (add_co i p)
unfolding add_co
add_co-Sound i p s (a, b, c, d) = record {
  once = λ j. let h = count-append j p.runnable (i ∷ []) in let k = s.once j in ground arith;
  ended = λ j h. let k = s.ended j h in ground arith;
  active = λ j h.
      let l = count-append j p.runnable (i ∷ []) in
      let k = s.active j in (ground arith, ground arith);
  known = λ j h. let l = count-append j p.runnable (i ∷ []) in let k = s.known j h in ground arith;
}

pub add_co-Running :
    (i cur : ℕ) (p : Processor) → i ≢ cur → Running cur p → Running cur (add_co i p)
unfolding add_co
add_co-Running i cur p n ((a, b, c, d), e) =
    let h = count-append cur p.runnable (i ∷ []) in
    ((a, ground arith, c, ground arith), ground arith)

-- What any operation of the queues does when it succeeds.
pub record Keeps (p q : Processor) : Type 0 where
  pub sound : Sound q
  pub grown : Extends p.runnable q.runnable
  pub runs : (cur : ℕ) → Running cur p → Running cur q

pub Keeps-refl : (p : Processor) → Sound p → Keeps p p
Keeps-refl p s = record { sound = s; grown = Extends-refl p.runnable; runs = λ cur r. r }

pub Keeps-trans : (p q r : Processor) → Keeps p q → Keeps q r → Keeps p r
Keeps-trans p q r k l = record {
  sound = l.sound;
  grown = Extends-trans p.runnable q.runnable r.runnable k.grown l.grown;
  runs = λ cur h. l.runs cur (k.runs cur h);
}

-- The coroutine that a new task is given: it waits, it is not the one that runs, and it is ready.
record Gives (p : Processor) (i : ℕ) (q : Processor) : Type 0 where
  sound : Sound q
  waiting : Waiting i q
  runs : (cur : ℕ) → Running cur p → Running cur q × (i ≢ cur)
  same : q.runnable ≡ p.runnable

new-Gives :
    (cb : ℕ) (p : Processor)
    → Sound p
    → p.idle ≡ []
    → Gives p p.next
        (record p { coroutines = store p.next (fresh cb) p.coroutines; next = suc p.next })
new-Gives cb p s e =
    let k = s.known p.next (omega arith) in
    record {
      sound = record {
        once = s.once;
        ended = λ j h. let l = s.ended j h in ground arith;
        active = λ j h. let l = s.active j h in (ground arith, ground arith);
        known = λ j h. let l = s.known j (omega arith) in ground arith;
      };
      waiting = (omega arith, omega arith, omega arith, ground arith);
      runs = λ cur ((a, b, c, d), f).
          (((a, b, omega arith, ground arith), ground arith), λ g. absurd (ground arith));
      same = refl;
    }

old-Gives :
    (i : ℕ) (rest : List ℕ) (co : Coroutine) (p : Processor)
    → Sound p
    → p.idle ≡ i ∷ rest
    → co.inside ≡ true
    → Gives p i (record p { idle = rest; coroutines = store i co p.coroutines })
old-Gives i rest co p s e f =
    let c : (j : ℕ) → count j p.idle ≡ count j (i ∷ rest) = λ j. ap (count j) e in
    let k = s.known i in
    let l = s.once i in
    let m = c i in
    record {
      sound = record {
        once = λ j. let o = s.once j in let n = c j in ground arith;
        ended = λ j h. let o = s.ended j in let n = c j in ground arith;
        active = λ j h.
            let o = s.active j h in let n = c j in let t = s.once j in (ground arith, ground arith);
        known = λ j h. let o = s.known j h in let n = c j in ground arith;
      };
      waiting = (ground arith, ground arith, ground arith, ground arith);
      runs = λ cur ((a, b, d, g), h).
          let n = c cur in
          (((ground arith, b, d, ground arith), ground arith), λ t. absurd (ground arith));
      same = refl;
    }

put_reset-Gives :
    (cb i : ℕ) (rest : List ℕ) (p : Processor)
    → Sound p
    → p.idle ≡ i ∷ rest
    → (q : Processor) × (put_reset i rest p (reset cb (p.coroutines i)) ≡ some (i, q)) × Gives p i q
put_reset-Gives cb i rest p s e =
    let co = p.coroutines i in
    let c : count i p.idle ≡ count i (i ∷ rest) = ap (count i) e in
    let h = s.ended i (ground arith) in
    let new = record co { callback = some cb; inside = true } in
    (
      record p { idle = rest; coroutines = store i new p.coroutines },
      ap (λ st. put_reset i rest p (reset_at st cb co)) h,
      old-Gives i rest new p s e refl,
    )

get_co-Gives :
    (cb : ℕ) (p : Processor) (idle : List ℕ)
    → Sound p
    → p.idle ≡ idle
    → (i : ℕ) × (q : Processor) × (get_co cb idle p ≡ some (i, q)) × Gives p i q
get_co-Gives cb p [] s e = (
  p.next,
  record p { coroutines = store p.next (fresh cb) p.coroutines; next = suc p.next },
  refl,
  new-Gives cb p s e,
)
get_co-Gives cb p (i ∷ rest) s e = let (q, f, g) = put_reset-Gives cb i rest p s e in (i, q, f, g)

-- A task is always accepted: the assert of `reset` does not fail.
pub add_task-Keeps :
    (cb : ℕ) (p : Processor) → Sound p → (q : Processor) × (add_task cb p ≡ some q) × Keeps p q
unfolding add_task reset_and_get_co add_co
add_task-Keeps cb p s =
    let (i, q, e, g) = get_co-Gives cb p p.idle s refl in
    (
      add_co i q,
      rw (e) refl,
      record {
        sound = add_co-Sound i q g.sound g.waiting;
        grown = (i ∷ [], ap (λ l. l ++ i ∷ []) g.same);
        runs = λ cur r. let (r', n) = g.runs cur r in add_co-Running i cur q n r';
      },
    )

pub add_tasks-Keeps :
    (cbs : List ℕ) (p : Processor)
    → Sound p
    → (q : Processor) × (add_tasks cbs p ≡ some q) × Keeps p q
unfolding add_tasks
add_tasks-Keeps [] p s = (p, refl, Keeps-refl p s)
add_tasks-Keeps (cb ∷ cbs) p s =
    let (q, e, k) = add_task-Keeps cb p s in
    let (r, f, l) = add_tasks-Keeps cbs q k.sound in (r, rw (e) f, Keeps-trans p q r k l)
