-- ===== src/Net/Acceptor/Balance.antt =====
-- burger/net/Acceptor.cc: no descriptor is lost.
use mathlib.Core.Path.{subst}
use mathlib.Core.Option.{some-injective}
use burger.Common.{
  ℕ, ◌+◌, ◌≡◌, refl, Bool, true, false, Option, none, some, List, [], ◌∷◌, ◌++◌, if◌then◌else◌,
  ◌==◌, arith, Bool-cases, inl, inr, ltb,
}
use burger.Net.Acceptor.{
  Event, opened, closed, handed, Accepted, accepted, refused, emfile, Acceptor, init,
  set_new_connection_callback, listen, close_event, open_event, spare, handle_read, finish,
}

abbrev pub one_if : Bool → ℕ
one_if true = 1
one_if false = 0

-- How often a log opens a descriptor, and how often it closes it or hands it to the callback.
abbrev pub opened_count : ℕ → List Event → ℕ
opened_count fd [] = 0
opened_count fd (opened f ∷ log) = one_if (f == fd) + opened_count fd log
opened_count fd (closed f ∷ log) = opened_count fd log
opened_count fd (handed f ∷ log) = opened_count fd log

abbrev pub released_count : ℕ → List Event → ℕ
released_count fd [] = 0
released_count fd (opened f ∷ log) = released_count fd log
released_count fd (closed f ∷ log) = one_if (f == fd) + released_count fd log
released_count fd (handed f ∷ log) = one_if (f == fd) + released_count fd log

abbrev pub idle_count : ℕ → Option ℕ → ℕ
idle_count fd none = 0
idle_count fd (some f) = one_if (f == fd)

opened_count-append :
    (fd : ℕ) (xs ys : List Event)
    → opened_count fd (xs ++ ys) ≡ opened_count fd xs + opened_count fd ys
opened_count-append fd [] ys = omega arith
opened_count-append fd (opened f ∷ xs) ys = omega (arith, opened_count-append fd xs ys)
opened_count-append fd (closed f ∷ xs) ys = opened_count-append fd xs ys
opened_count-append fd (handed f ∷ xs) ys = opened_count-append fd xs ys

released_count-append :
    (fd : ℕ) (xs ys : List Event)
    → released_count fd (xs ++ ys) ≡ released_count fd xs + released_count fd ys
released_count-append fd [] ys = omega arith
released_count-append fd (opened f ∷ xs) ys = released_count-append fd xs ys
released_count-append fd (closed f ∷ xs) ys = omega (arith, released_count-append fd xs ys)
released_count-append fd (handed f ∷ xs) ys = omega (arith, released_count-append fd xs ys)

-- Each descriptor was released as often as it was opened, or is the spare one.
abbrev pub Balanced : Option ℕ → List Event → Type 0
Balanced idle log = (fd : ℕ) → opened_count fd log ≡ released_count fd log + idle_count fd idle

close_balance :
    (fd : ℕ) (o : Option ℕ)
    → (opened_count fd (close_event o) ≡ 0) × (released_count fd (close_event o) ≡ idle_count fd o)
close_balance fd none = (refl, refl)
close_balance fd (some f) = (refl, omega arith)

open_balance :
    (fd : ℕ) (o : Option ℕ)
    → (opened_count fd (open_event o) ≡ idle_count fd o) × (released_count fd (open_event o) ≡ 0)
open_balance fd none = (refl, refl)
open_balance fd (some f) = (omega arith, refl)

spare-Balanced :
    (idle conn again : Option ℕ) (log : List Event)
    → Balanced idle log
    → Balanced (spare idle conn again log).0 (spare idle conn again log).1
unfolding spare
spare-Balanced idle conn again log b fd =
    let l = close_event idle in
    let m = open_event conn in
    let n = close_event conn in
    let o = open_event again in
    let (p, q) = close_balance fd idle in
    let (r, s) = open_balance fd conn in
    let (t, u) = close_balance fd conn in
    let (v, w) = open_balance fd again in
    omega (
      arith,
      b fd,
      p,
      q,
      r,
      s,
      t,
      u,
      v,
      w,
      opened_count-append fd (log ++ l ++ m ++ n) o,
      opened_count-append fd (log ++ l ++ m) n,
      opened_count-append fd (log ++ l) m,
      opened_count-append fd log l,
      released_count-append fd (log ++ l ++ m ++ n) o,
      released_count-append fd (log ++ l ++ m) n,
      released_count-append fd (log ++ l) m,
      released_count-append fd log l,
    )

accept-Balanced :
    (callback : Bool) (f : ℕ) (idle : Option ℕ) (log : List Event)
    → Balanced idle log
    → Balanced idle (log ++ opened f ∷ (if callback then handed f else closed f) ∷ [])
accept-Balanced true f idle log b fd =
    let new = opened f ∷ handed f ∷ [] in
    omega (arith, b fd, opened_count-append fd log new, released_count-append fd log new)
accept-Balanced false f idle log b fd =
    let new = opened f ∷ closed f ∷ [] in
    omega (arith, b fd, opened_count-append fd log new, released_count-append fd log new)

handle_read-Balanced :
    (answer : Accepted) (conn again : Option ℕ) (a : Acceptor)
    → Balanced a.idle a.log
    → Balanced (handle_read answer conn again a).idle (handle_read answer conn again a).log
unfolding handle_read
handle_read-Balanced (accepted f) conn again a b = accept-Balanced a.has_callback f a.idle a.log b
handle_read-Balanced (refused errno) conn again a b = elim (Bool-cases (errno == emfile)) [
  | inl c ↦ rw (c) (spare-Balanced a.idle conn again a.log b)
  | inr c ↦ rw (c) b
]

pub data Call : Type 0 where
  sets_callback listens : Call
  reads : Accepted → Option ℕ → Option ℕ → Call

abbrev pub step : Call → Acceptor → Acceptor
step sets_callback a = set_new_connection_callback a
step listens a = listen a
step (reads answer conn again) a = handle_read answer conn again a

abbrev pub run : List Call → Acceptor → Acceptor
run [] a = a
run (c ∷ cs) a = run cs (step c a)

step-Balanced :
    (c : Call) (a : Acceptor) → Balanced a.idle a.log → Balanced (step c a).idle (step c a).log
step-Balanced sets_callback a b = b
step-Balanced listens a b = b
step-Balanced (reads answer conn again) a b = handle_read-Balanced answer conn again a b

run-Balanced :
    (cs : List Call) (a : Acceptor)
    → Balanced a.idle a.log
    → Balanced (run cs a).idle (run cs a).log
run-Balanced [] a b = b
run-Balanced (c ∷ cs) a b = run-Balanced cs (step c a) (step-Balanced c a b)

finish-Balanced : (a : Acceptor) → Balanced a.idle a.log → Balanced none (finish a).log
finish-Balanced a b fd =
    let l = close_event a.idle in
    let (p, q) = close_balance fd a.idle in
    omega (arith, b fd, p, q, opened_count-append fd a.log l, released_count-append fd a.log l)

init-Balanced : (idle : ℕ) (a : Acceptor) → init (some idle) ≡ some a → Balanced a.idle a.log
init-Balanced idle a e = elim (Bool-cases (ltb 0 idle)) [
  | inl c ↦ subst (λ b. Balanced b.idle b.log) (some-injective _ a (rw (c) at e)) (λ f. omega arith)
  | inr c ↦ absurd (ground arith)
]

-- Over any calls of a new acceptor and any answers of accept and open, each descriptor was closed
-- or handed to the callback as often as it was opened, but for the spare one, which is closed at
-- the end.
pub run_balance :
    (idle : ℕ) (a : Acceptor) (cs : List Call)
    → init (some idle) ≡ some a
    → (fd : ℕ)
    → (opened_count fd (run cs a).log
        ≡ released_count fd (run cs a).log + idle_count fd (run cs a).idle)
      × (opened_count fd (finish (run cs a)).log ≡ released_count fd (finish (run cs a)).log)
run_balance idle a cs e fd =
    let b = run-Balanced cs a (init-Balanced idle a e) in
    let h = finish-Balanced (run cs a) b fd in (b fd, omega (arith, h))
