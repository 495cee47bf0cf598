-- ===== src/Net/Scheduler/Deal.antt =====
-- burger/net/Scheduler.cc: which processor gets which task.
use native.Mathlib.Nat.{mod-eq_of_lt, mod_self}
use mathlib.Core.Path.{subst}
use mathlib.Core.Option.{some-injective, none-ne-some}
use burger.Common.{
  Option-cases, inl, inr, ℕ, suc, ◌+◌, ◌≤◌, ◌<◌, ◌%◌, ◌≡◌, refl, sym, ap, ◌∙◌, true, some, List, [],
  ◌∷◌, ◌++◌, ltb, length, arith, lt→ltb, length-append, append_assoc,
}
use burger.Net.Processor.{Processor, add_pending_task}
use burger.Net.Scheduler.{
  Scheduler, pick_of, pick_one_work_processor, change_at, add_task, add_all, the_work,
}

-- One task for each processor, from the first on.
abbrev pub each : List ℕ → List Processor → List Processor
each [] ps = ps
each (task ∷ tasks) [] = []
each (task ∷ tasks) (p ∷ ps) = add_pending_task task p ∷ each tasks ps

change_at_front :
    (f : Processor → Processor) (before : List Processor) (p : Processor) (after : List Processor)
    → change_at (length before) f (before ++ p ∷ after) ≡ some (before ++ f p ∷ after)
change_at_front f [] p after = refl
change_at_front f (b ∷ before) p after = rw (change_at_front f before p after) refl

pick_lem :
    (i : ℕ) (ps : List Processor) (s : Scheduler)
    → s.index ≡ i
    → i < length ps
    → pick_of ps s ≡ some (the_work i, record s { index = (i + 1) % length ps })
pick_lem i [] s e h = absurd (omega arith)
pick_lem i (p ∷ ps) s e h =
    let t : ltb s.index (length (p ∷ ps)) ≡ true =
      lt→ltb s.index (length (p ∷ ps)) (omega (arith, e)) in
    rw (t, e) refl

add_task_lem :
    (task : ℕ) (before : List Processor) (p : Processor) (after : List Processor) (s : Scheduler)
    → add_task task (record s { works = before ++ p ∷ after; index = length before })
      ≡ some (record s {
        works = before ++ add_pending_task task p ∷ after;
        index = (length before + 1) % length (before ++ p ∷ after);
      })
unfolding add_task pick_one_work_processor
add_task_lem task before p after s =
    let ps = before ++ p ∷ after in
    let n = length-append before (p ∷ after) in
    rw
      (
        pick_lem (length before) ps (record s { works = ps; index = length before }) refl
            (omega (arith, n)),
        change_at_front (add_pending_task task) before p after,
      )
      refl

abbrev pub with_works : Scheduler → List Processor → ℕ → Scheduler
with_works s ps i = record s { works = ps; index = i }

-- Tasks that do not go beyond the last processor.
add_all_part :
    (tasks : List ℕ) (before after : List Processor) (s : Scheduler)
    → length tasks ≤ length after
    → 0 < length after
    → add_all tasks (with_works s (before ++ after) (length before))
      ≡ some (
          with_works s
            (before ++ each tasks after)
            ((length before + length tasks) % length (before ++ after)))
unfolding add_all
add_all_part [] before after s h k =
    let l = length-append before after in
    let e : (length before + 0) % length (before ++ after) ≡ length before =
      mod-eq_of_lt (omega (arith, l)) ∙ omega arith in
    ap (λ i. some (with_works s (before ++ after) i)) (sym e)
add_all_part (task ∷ tasks) before [] s h k = absurd (omega arith)
add_all_part (task ∷ []) before (p ∷ after) s h k = rw (add_task_lem task before p after s) refl
add_all_part (task ∷ task' ∷ tasks) before (p ∷ []) s h k = absurd (omega arith)
add_all_part (task ∷ task' ∷ tasks) before (p ∷ p' ∷ after) s h k =
    let q = add_pending_task task p in
    let front = before ++ q ∷ [] in
    let rest = p' ∷ after in
    let l = length-append before (p ∷ rest) in
    let m = length-append before (q ∷ []) in
    let n = length-append front rest in
    let e : (length before + 1) % length (before ++ p ∷ rest) ≡ length front =
      mod-eq_of_lt (omega (arith, l)) ∙ omega (arith, m) in
    let f : length front + length (task' ∷ tasks) ≡ length before + length (task ∷ task' ∷ tasks) =
      omega (arith, m) in
    let g : length (front ++ rest) ≡ length (before ++ p ∷ rest) = omega (arith, l, m, n) in
    rw (add_task_lem task before p rest s) (
      ap (λ i. add_all (task' ∷ tasks) (with_works s (before ++ q ∷ rest) i)) e
      ∙ ap (λ ps. add_all (task' ∷ tasks) (with_works s ps (length front)))
          (sym (append_assoc before (q ∷ []) rest))
      ∙ add_all_part (task' ∷ tasks) front rest s (omega arith) (omega arith)
      ∙ ap
          (λ ps.
            some
              (with_works s ps ((length front + length (task' ∷ tasks)) % length (front ++ rest))))
          (append_assoc before (q ∷ []) (each (task' ∷ tasks) rest))
      ∙ ap
          (λ i. some (
            with_works s (before ++ each (task ∷ task' ∷ tasks) (p ∷ rest))
              (i % length (front ++ rest))))
          f
      ∙ ap
          (λ n. some (
            with_works s (before ++ each (task ∷ task' ∷ tasks) (p ∷ rest))
              ((length before + length (task ∷ task' ∷ tasks)) % n)))
          g)

length-each :
    (tasks : List ℕ) (ps : List Processor)
    → length tasks ≤ length ps
    → length (each tasks ps) ≡ length ps
length-each [] ps h = refl
length-each (task ∷ tasks) [] h = absurd (omega arith)
length-each (task ∷ tasks) (p ∷ ps) h = ap suc (length-each tasks ps (omega arith))

add_all-append :
    (xs ys : List ℕ) (s t : Scheduler) → add_all xs s ≡ some t → add_all (xs ++ ys) s ≡ add_all ys t
unfolding add_all
add_all-append [] ys s t e = ap (add_all ys) (some-injective s t e)
add_all-append (x ∷ xs) ys s t e = elim (Option-cases (add_task x s)) [
  | inl f ↦ absurd (none-ne-some t (rw f at e))
  | inr (u, f) ↦ rw f (add_all-append xs ys u t (rw f at e))
]

abbrev pub rounds : List (List ℕ) → List Processor → List Processor
rounds [] ps = ps
rounds (tasks ∷ turns) ps = rounds turns (each tasks ps)

abbrev pub concat : List (List ℕ) → List ℕ
concat [] = []
concat (tasks ∷ turns) = tasks ++ concat turns

-- As many tasks as there are processors, each time.
abbrev pub Rounds : ℕ → List (List ℕ) → Type 0
Rounds n [] = Unit
Rounds n (tasks ∷ turns) = (length tasks ≡ n) × Rounds n turns

-- Tasks that are added to a scheduler with processors of its own, in rounds of as many as it has,
-- all go through and are dealt in turn from the first on: each processor queues one task of each
-- round, the one at its place, and the next task goes to the first again.
pub add_all-rounds :
    (turns : List (List ℕ)) (works : List Processor) (s : Scheduler)
    → 0 < length works
    → Rounds (length works) turns
    → add_all (concat turns) (with_works s works 0) ≡ some (with_works s (rounds turns works) 0)
unfolding add_all
add_all-rounds [] works s h r = refl
add_all-rounds (tasks ∷ turns) works s h (e, r) =
    let l = length-each tasks works (omega (arith, e)) in
    let next = with_works s (each tasks works) ((0 + length tasks) % length works) in
    let i : (0 + length tasks) % length works ≡ 0 =
      ap (λ n. n % length works) (omega (arith, e)) ∙ mod_self (length works) in
    add_all-append tasks (concat turns) (with_works s works 0) next
      (add_all_part tasks [] works s (omega (arith, e)) h)
    ∙ ap (λ i. add_all (concat turns) (with_works s (each tasks works) i)) i
    ∙ add_all-rounds turns (each tasks works) s (omega (arith, l))
        (subst (λ n. Rounds n turns) (sym l) r)
