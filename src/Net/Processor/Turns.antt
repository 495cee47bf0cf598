-- ===== src/Net/Processor/Turns.antt =====
-- burger/net/Processor.cc: any number of rounds of `run`, and the rounds in which every coroutine gets its turn.
use mathlib.Core.Path.{subst}
use mathlib.Core.Option.{some-injective}
use burger.Common.{
  Bool-cases, append-nil, inl, inr, ℕ, zero, suc, ◌≡◌, refl, sym, ap, ◌∙◌, Bool, true, false, not,
  ◌||◌, some, List, [], ◌∷◌, ◌++◌, arith, length, append_assoc,
}
use burger.Net.Processor.{
  Processor, empty, precreate, init_from, init, Burst, run_with, run_round, run, has_work,
}
use burger.Net.Processor.Sound.{count-append, Sound, add_task-Keeps}
use burger.Net.Processor.Rounds.{Fair, run_with_front, run_with-poll}

-- What the rounds ask of the kernel and of the timers: none wakes a coroutine that does not wait.
abbrev pub AllFair : List (List ℕ × Burst) → Processor → Type 0
AllFair [] p = Unit
AllFair ((fds, b) ∷ turns) p =
    Fair fds b p.runnable p
    × ((done : List ℕ) (q : Processor) → run_round fds b p ≡ some (done, q) → AllFair turns q)

precreate-Sound : (n : ℕ) (p : Processor) → Sound p → Sound (precreate n p)
unfolding precreate
precreate-Sound zero p s = s
precreate-Sound (suc n) p s =
    let i = p.next in
    precreate-Sound n _ (record {
      once = λ j.
          let h = count-append j p.idle (i ∷ []) in
          let k = s.once j in let l = s.known j in ground arith;
      ended = λ j g.
          let h = count-append j p.idle (i ∷ []) in
          let k = s.ended j in let l = s.known j in ground arith;
      active = λ j g. let k = s.active j g in let l = s.known j in (ground arith, ground arith);
      known = λ j g.
          let h = count-append j p.idle (i ∷ []) in let k = s.known j (omega arith) in ground arith;
    })

empty-Sound : Sound empty
empty-Sound = record {
  once = λ i. omega arith;
  ended = λ i h. absurd (omega arith);
  active = λ i h. absurd (omega arith);
  known = λ i h. omega arith;
}

init_from-Sound :
    (wake timers n : ℕ) (p : Processor)
    → Sound p
    → (q : Processor) × (init_from wake timers n p ≡ some q) × Sound q
unfolding init_from
init_from-Sound wake timers n p s =
    let (q, e, k) = add_task-Keeps wake p s in
    let (r, f, l) = add_task-Keeps timers q k.sound in
    (precreate n r, rw (e, f) refl, precreate-Sound n r l.sound)

pub init-Sound : (wake timers n : ℕ) (p : Processor) → init wake timers n ≡ some p → Sound p
unfolding init
init-Sound wake timers n p e =
    let (q, f, s) = init_from-Sound wake timers n empty empty-Sound in
    subst (λ r. Sound r) (some-injective q p (sym f ∙ e)) s

run_step :
    (fds : List ℕ) (b : Burst) (turns : List (List ℕ × Burst)) (p q q' : Processor)
    (done later : List ℕ)
    → (not p.stop || has_work p.runnable) ≡ true
    → run_round fds b p ≡ some (done, q)
    → run turns q ≡ some (later, q')
    → run ((fds, b) ∷ turns) p ≡ some (done ++ later, q')
unfolding run
run_step fds b turns p q q' done later h e f = rw (h, e, f) refl

run_stopped :
    (fds : List ℕ) (b : Burst) (turns : List (List ℕ × Burst)) (p : Processor)
    → (not p.stop || has_work p.runnable) ≡ false
    → run ((fds, b) ∷ turns) p ≡ some ([], p)
unfolding run
run_stopped fds b turns p h = rw (h) refl

-- A round that is fair goes through.
round_lem :
    (fds : List ℕ) (b : Burst) (p : Processor) (xs : List ℕ)
    → Sound p
    → p.runnable ≡ xs
    → Fair fds b xs p
    → (done : List ℕ) × (q : Processor) × (run_with fds b xs p ≡ some (done, q)) × Sound q
round_lem fds b p [] s e h = let (q, f, t) = run_with-poll fds b p s h in ([], q, f, t)
round_lem fds b p (cur ∷ rest) s e h =
    let (q, f, (t, x)) = run_with_front fds b cur rest p s e h in (cur ∷ [], q, f, t)

rounds_lem :
    (turns : List (List ℕ × Burst)) (p : Processor)
    → Sound p
    → AllFair turns p
    → (done : List ℕ) × (q : Processor) × (run turns p ≡ some (done, q)) × Sound q
unfolding run_round run
rounds_lem [] p s h = ([], p, refl, s)
rounds_lem ((fds, b) ∷ turns) p s (h, k) =
    let (done, q, e, t) = round_lem fds b p p.runnable s refl h in
    let (later, q', f, t') = rounds_lem turns q t (k done q e) in
    elim (Bool-cases (not p.stop || has_work p.runnable)) [
      | inl c ↦ (done ++ later, q', run_step fds b turns p q q' done later c e f, t')
      | inr c ↦ ([], p, run_stopped fds b turns p c, s)
    ]

-- From a new processor on, when no coroutine is woken that does not wait, any number of rounds of
-- run goes through: the assert of reset never fails and no context is resumed behind its end; and
-- then each coroutine stands at most once in the queues, idle ones are in TERM and runnable ones
-- in EXEC.
pub run-Sound :
    (wake timers n : ℕ) (p : Processor) (turns : List (List ℕ × Burst))
    → init wake timers n ≡ some p
    → AllFair turns p
    → (done : List ℕ) × (q : Processor) × (run turns p ≡ some (done, q)) × Sound q
run-Sound wake timers n p turns e h = rounds_lem turns p (init-Sound wake timers n p e) h

has_work_front : (cur : ℕ) (rest xs : List ℕ) → xs ≡ cur ∷ rest → has_work xs ≡ true
has_work_front cur rest xs e = ap has_work e

or_true : (b c : Bool) → c ≡ true → (b || c) ≡ true
or_true b c e = ground arith

-- When no coroutine is woken that does not wait, as many rounds of run as coroutines stand at the
-- front of a sound queue resume exactly these, each once and in order, whatever they do, even when
-- one stops the processor; those behind move up, and what became runnable meanwhile comes behind
-- them.
pub run_in_turn :
    (turns : List (List ℕ × Burst)) (queue behind : List ℕ) (p : Processor)
    → Sound p
    → p.runnable ≡ queue ++ behind
    → length turns ≡ length queue
    → AllFair turns p
    → (q : Processor) × (run turns p ≡ some (queue, q))
      × Sound q
      × ((new : List ℕ) × (q.runnable ≡ behind ++ new))
unfolding run_round run
run_in_turn [] [] behind p s e l h = (p, refl, s, ([], e ∙ sym (append-nil behind)))
run_in_turn [] (cur ∷ queue) behind p s e l h = absurd (omega (arith, l))
run_in_turn (turn ∷ turns) [] behind p s e l h = absurd (omega (arith, l))
run_in_turn ((fds, b) ∷ turns) (cur ∷ queue) behind p s e l (h, k) =
    let (q, f, (t, (new, x))) =
      run_with_front fds b cur (queue ++ behind) p s e (subst (λ xs. Fair fds b xs p) e h) in
    let g : run_round fds b p ≡ some (cur ∷ [], q) = ap (λ xs. run_with fds b xs p) e ∙ f in
    let (q', f', t', (new', x')) =
      run_in_turn turns queue (behind ++ new) q t (x ∙ append_assoc queue behind new)
        (omega (arith, l)) (k (cur ∷ []) q g) in
    (
      q',
      run_step fds b turns p q q' (cur ∷ []) queue
          (or_true (not p.stop) (has_work p.runnable)
            (has_work_front cur (queue ++ behind) p.runnable e))
          g f',
      t',
      (new ++ new', x' ∙ append_assoc behind new new'),
    )
