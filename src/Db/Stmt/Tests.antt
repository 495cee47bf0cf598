-- ===== src/Db/Stmt/Tests.antt =====
-- Runs of the model at concrete inputs.
use burger.Common.{
  ℕ, ◌<◌, ◌≡◌, ◌↔◌, refl, true, Option, none, some, List, [], ◌∷◌, length, take, drop, get_elem?,
  to_memory, ℤ, pos, overlay, write_at,
}
use burger.Db.Bind.{Bind, Heap}
use burger.Db.Stmt.{
  Stmt, Slot, create, empty_bind, bind_copy, bind_copy_len, bind_fixed, bind_int8, bind_string,
  c_text,
}
use burger.Db.Stmt.Calls.{Value, int8, int64, text, null, bind_slot, bind_at, bind}
use burger.Db.Stmt.Sent.{bind-payload, payload}
use burger.Db.Stmt.Room.{bind_all, bind_all-total}
use burger.Db.Stmt.Again.{bind_slot-again}

abbrev abc : List ℕ
abc = b'a' ∷ b'b' ∷ b'c' ∷ []

abbrev fresh : Stmt
fresh = record {
  binds = empty_bind ∷ empty_bind ∷ [];
  heap = record { mallocs = 0; frees = 0 };
  log = [];
}

created : (create true 0 2).0 ≡ some fresh
unfolding create
created = refl

abbrev calls : List (ℤ × Value)
calls = (pos 1, int8 255) ∷ (pos 2, text abc) ∷ (pos 1, text abc) ∷ (pos 2, null) ∷ []

abbrev result : Option Stmt → Stmt
result none = fresh
result (some s) = s

abbrev bound : Stmt
bound = result (bind_all 7 calls fresh)

ran : bind_all 7 calls fresh ≡ some bound
unfolding bind_all bind bind_at bind_slot bind_int8 bind_string bind_fixed bind_copy bind_copy_len
    to_memory write_at overlay
ran = refl

-- Parameters are counted from 1.
bind_zero : bind 7 (pos 0) (int8 1) fresh ≡ none
unfolding bind
bind_zero = refl

bind_past : bind 7 (pos 3) (int8 1) fresh ≡ none
unfolding bind bind_at
bind_past = refl

c_text_cut : c_text (b'a' ∷ 0 ∷ b'b' ∷ []) ≡ some (b'a' ∷ [])
unfolding c_text
c_text_cut = refl

abbrev first : Stmt
first = result (bind 7 (pos 1) (text abc) fresh)

first_bound : bind 7 (pos 1) (text abc) fresh ≡ some first
unfolding bind bind_at bind_slot bind_string bind_copy_len write_at overlay
first_bound = refl

bind-payload_example :
    (b : Bind) × (get_elem? first.binds 0 ≡ some b)
    × (payload b ≡ some abc)
    × (take 0 first.binds ≡ take 0 fresh.binds)
    × (drop 1 first.binds ≡ drop 1 fresh.binds)
bind-payload_example = bind-payload 7 0 (text abc) fresh first abc refl first_bound

abbrev second : Bind
second = elim (get_elem? bound.binds 1) [ none ↦ empty_bind | some b ↦ b ]

second_lem : get_elem? bound.binds 1 ≡ some second
unfolding bind_all bind bind_at bind_slot bind_int8 bind_string bind_fixed bind_copy bind_copy_len
    to_memory write_at overlay
second_lem = refl

bind_all-total_example : (u : Stmt) × (bind 7 (pos 2) (text abc) bound ≡ some u)
bind_all-total_example =
    bind_all-total true 0 2 7 calls fresh bound created ran 1 (text abc) second abc second_lem refl
      refl

abbrev no_blocks : Heap
no_blocks = record { mallocs = 0; frees = 0 }

abbrev tiny_slot : Slot
tiny_slot = elim (bind_slot 7 (int8 5) (empty_bind, no_blocks)) [
  | none ↦ (empty_bind, no_blocks)
  | some s ↦ s
]

tiny_bound : bind_slot 7 (int8 5) (empty_bind, no_blocks) ≡ some tiny_slot
unfolding bind_slot bind_int8 bind_fixed bind_copy to_memory write_at overlay
tiny_bound = refl

bind_slot-again_example :
    (bind_slot 7 (int64 5) tiny_slot ≡ none) ↔ (length (to_memory 1 5) < length (to_memory 8 5))
bind_slot-again_example =
    bind_slot-again 7 (int8 5) (int64 5) empty_bind no_blocks tiny_slot (to_memory 1 5)
      (to_memory 8 5) refl refl tiny_bound refl refl
