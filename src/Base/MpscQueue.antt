-- ===== src/Base/MpscQueue.antt =====
-- burger/base/MpscQueue.h: the queue of many producers and one consumer. A node is its address, and
-- each new node a fresh one. Each access to an atomic is a step of its own, in one order for all
-- threads.
pub mod Fifo
mod Tests
use burger.Common.{
  ℕ, suc, ◌≡◌, Bool, true, false, Option, none, some, List, [], ◌∷◌, ◌++◌, ◌==◌, if◌then◌else◌,
}

-- `head_`, `tail_`, and `next_` and `dataPtr_` of each node.
pub record Queue : Type 0 where
  pub head : ℕ
  pub tail : ℕ
  pub next : ℕ → Option ℕ
  pub data_ptr : ℕ → Option ℕ
  pub fresh : ℕ

unfoldable pub init : Queue
init = record { head = 0; tail = 0; next = λ a. none; data_ptr = λ a. none; fresh = 1 }

abbrev pub set {ℓ} : {A : Type ℓ} → ℕ → A → (ℕ → A) → ℕ → A
set a x f b = if a == b then x else f b

-- The first half of `enqueue`, up to `head_.exchange`: the old head, the new node, the queue.
unfoldable pub exchange : ℕ → Queue → ℕ × ℕ × Queue
exchange input q = (
  q.head,
  q.fresh,
  record q {
    head = q.fresh;
    data_ptr = set q.fresh (some input) q.data_ptr;
    next = set q.fresh none q.next;
    fresh = suc q.fresh;
  },
)

-- The second half: `prevhead->next_.store(node)`.
unfoldable pub link : ℕ → ℕ → Queue → Queue
link prevhead node q = record q { next = set prevhead (some node) q.next }

-- `dequeue` past the test of `next`. The old tail is deleted.
abbrev pub take_node : Option ℕ → Queue → Option ℕ × Queue
take_node none q = (none, q)
take_node (some n) q = (q.data_ptr n, record q { tail = n; data_ptr = set n none q.data_ptr })

unfoldable pub dequeue : Queue → Option ℕ × Queue
dequeue q = take_node (q.next q.tail) q

unfoldable pub empty : Queue → Bool
empty q = elim (q.next q.tail) [ none ↦ true | some n ↦ false ]
