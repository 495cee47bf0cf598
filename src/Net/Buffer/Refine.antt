-- ===== src/Net/Buffer/Refine.antt =====
-- Calls on a burger/net/Buffer.cc buffer in sequence, against a queue of bytes that never moves memory.
use burger.Common.{
  ℕ, ◌+◌, ◌≤◌, ◌<◌, ◌≡◌, refl, ap, inl, inr, Option, none, some, List, [], ◌∷◌, ◌++◌, arith, leb,
  if◌then◌else◌, ◌>>=◌, Bool-cases, tests, length, take, drop, max_size,
}
use burger.Net.Buffer.{Buffer, append, retrieve, retrieve_as_string}
use burger.Net.Buffer.Valid.{IsValid, contents, append_lem}
use burger.Net.Buffer.Queue.{
  retrieve_lem, retrieve-none, retrieve_as_string_lem, retrieve_as_string-none,
}

-- What a client asks for: bytes in, bytes dropped, bytes out.
pub data Call : Type 0 where
  appends : List ℕ → Call
  retrieves : ℕ → Call
  takes : ℕ → Call

-- Each call answers with the bytes that it hands out.
pub step : Call → Buffer → Option (List ℕ × Buffer)
step (appends text) b = append text b >>= λ b'. some ([], b')
step (retrieves n) b = retrieve n b >>= λ b'. some ([], b')
step (takes n) b = retrieve_as_string n b

pub run : List Call → Buffer → Option (List (List ℕ))
run [] b = some []
run (c ∷ cs) b = step c b >>= λ r. run cs r.1 >>= λ os. some (r.0 ∷ os)

-- The same calls on a queue. Taking more than it holds stops the program.
pub queue_step : Call → List ℕ → Option (List ℕ × List ℕ)
queue_step (appends text) q = some ([], q ++ text)
queue_step (retrieves n) q = if leb n (length q) then some ([], drop n q) else none
queue_step (takes n) q = if leb n (length q) then some (take n q, drop n q) else none

pub queue_run : List Call → List ℕ → Option (List (List ℕ))
queue_run [] q = some []
queue_run (c ∷ cs) q = queue_step c q >>= λ r. queue_run cs r.1 >>= λ os. some (r.0 ∷ os)

-- How many bytes the calls put in.
abbrev pub demand : List Call → ℕ
demand [] = 0
demand (appends text ∷ cs) = length text + demand cs
demand (retrieves n ∷ cs) = demand cs
demand (takes n ∷ cs) = demand cs

-- One call answers as the queue does and leaves its content, or stops where the queue does.
abbrev Agrees : Buffer → ℕ → Option (List ℕ × Buffer) → Option (List ℕ × List ℕ) → Type 0
Agrees b n r none = r ≡ none
Agrees b n r (some (o, q)) =
    (b' : Buffer) × (r ≡ some (o, b'))
    × IsValid b'
    × (contents b' ≡ q)
    × (length b'.bytes ≤ length b.bytes + n)

step-Agrees :
    (c : Call) (b : Buffer)
    → IsValid b
    → length b.bytes + demand (c ∷ []) < max_size
    → Agrees b (demand (c ∷ [])) (step c b) (queue_step c (contents b))
unfolding step queue_step
step-Agrees (appends text) b v h =
    let (b', e, v', s, g, _) = append_lem text b v (omega arith) in
    (b', rw e refl, v', s, omega (arith, g))
step-Agrees (retrieves n) b v h = elim (Bool-cases (leb n (length (contents b)))) [
  | inl le ↦ rw le (
      let (b', e, v', s, l) = retrieve_lem n b v (omega (tests, le)) in
      (b', rw e refl, v', s, omega (arith, ap (length {0}) l)))
  | inr gt ↦ rw (gt, retrieve-none n b v (omega (tests, gt))) refl
]
step-Agrees (takes n) b v h = elim (Bool-cases (leb n (length (contents b)))) [
  | inl le ↦ rw le (
      let (b', e, v', s, l) = retrieve_as_string_lem n b v (omega (tests, le)) in
      (b', e, v', s, omega (arith, ap (length {0}) l)))
  | inr gt ↦ rw gt (retrieve_as_string-none n b v (omega (tests, gt)))
]

demand_cons : (c : Call) (cs : List Call) → demand (c ∷ cs) ≡ demand (c ∷ []) + demand cs
demand_cons (appends text) cs = omega arith
demand_cons (retrieves n) cs = omega arith
demand_cons (takes n) cs = omega arith

run-step :
    (c : Call) (cs : List Call) (b : Buffer) (q : Option (List ℕ × List ℕ))
    → Agrees b (demand (c ∷ [])) (step c b) q
    → queue_step c (contents b) ≡ q
    → length b.bytes + demand (c ∷ cs) < max_size
    → ((b' : Buffer)
        → IsValid b'
        → length b'.bytes + demand cs < max_size
        → run cs b' ≡ queue_run cs (contents b'))
    → run (c ∷ cs) b ≡ queue_run (c ∷ cs) (contents b)
unfolding run queue_run
run-step c cs b none a e h ih = rw (a, e)
run-step c cs b (some (o, q)) (b', r, v', s, g) e h ih =
    let room : length b'.bytes + demand cs < max_size = omega (arith, demand_cons c cs) in
    rw (r, e, ← s, ih b' v' room)

-- A sequence of appends, retrieves and takes on a valid buffer gives out the bytes that a queue of
-- its content gives out, call by call, and stops where the queue does, as long as the vector may
-- grow by all bytes put in.
pub run_refines :
    (cs : List Call) (b : Buffer)
    → IsValid b
    → length b.bytes + demand cs < max_size
    → run cs b ≡ queue_run cs (contents b)
run_refines [] b v h = unfold run queue_run in refl
run_refines (c ∷ cs) b v h =
    run-step c cs b (queue_step c (contents b))
      (step-Agrees c b v (omega (arith, demand_cons c cs))) refl h (run_refines cs)
