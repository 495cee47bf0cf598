-- ===== src/Db/Stmt/Blocks.antt =====
-- Every block that `malloc` gave to a parameter is freed once.
use burger.Common.{
  ℕ, zero, suc, ◌+◌, ◌≡◌, refl, Bool, true, false, Option, none, some, List, [], ◌∷◌, >>=-eq-some,
  arith, Option-cases, read_bytes, replicate, to_memory, ℤ, pos, negsuc, inl, inr,
}
use mathlib.Core.Path.{subst}
use mathlib.Core.Option.{some-injective}
use burger.Db.Bind.{FieldType, string, blob, Bind, Heap, count_free}
use burger.Db.Stmt.{
  Stmt, Slot, create, empty_bind, bind_copy, bind_copy_len, bind_fixed, with_type, c_text,
  bind_int8, bind_uint8, bind_int16, bind_uint16, bind_int32, bind_uint32, bind_int64, bind_uint64,
  bind_float, bind_double, bind_c_string, bind_string, bind_blob_raw, bind_blob,
}
use burger.Db.Stmt.Calls.{
  Value, int8, uint8, int16, uint16, int32, uint32, int64, uint64, float, double, text, c_memory,
  blob_text, blob_memory, null, bind_slot, bind_at, bind, free_all, destroy,
}
use burger.Db.Stmt.Room.{bind_all}

abbrev pub own : Bind → ℕ
own b = elim b.buffer [ none ↦ 0 | some x ↦ 1 ]

pub owned : List Bind → ℕ
owned [] = 0
owned (b ∷ bs) = own b + owned bs

-- From one slot to the next, as many blocks are live as the parameter has.
abbrev Even : Slot → Slot → Type 0
Even s t = t.1.mallocs + (s.1.frees + own s.0) ≡ t.1.frees + own t.0 + s.1.mallocs

module _ (fill : ℕ) (bytes : List ℕ) where
  fixed-Even :
      (type : FieldType) (unsigned : Option Bool) (s t : Slot)
      → bind_fixed type unsigned fill bytes s ≡ some t
      → Even s t
  unfolding bind_fixed bind_copy
  fixed-Even type unsigned (b, h) t e = ground arith

  text-Even :
      (type : FieldType) (s t : Slot)
      → bind_copy_len fill bytes (with_type type s) ≡ some t
      → Even s t
  unfolding bind_copy_len
  text-Even type (b, h) t e = ground arith

slot-Even : (fill : ℕ) (v : Value) (s t : Slot) → bind_slot fill v s ≡ some t → Even s t
unfolding bind_slot bind_int8 bind_uint8 bind_int16 bind_uint16 bind_int32 bind_uint32 bind_int64
    bind_uint64 bind_float bind_double bind_c_string bind_string bind_blob_raw bind_blob
slot-Even fill (int8 v) s t e = fixed-Even fill (to_memory 1 v) _ (some false) s t e
slot-Even fill (uint8 v) s t e = fixed-Even fill (to_memory 1 v) _ (some true) s t e
slot-Even fill (int16 v) s t e = fixed-Even fill (to_memory 2 v) _ (some false) s t e
slot-Even fill (uint16 v) s t e = fixed-Even fill (to_memory 2 v) _ (some true) s t e
slot-Even fill (int32 v) s t e = fixed-Even fill (to_memory 4 v) _ (some false) s t e
slot-Even fill (uint32 v) s t e = fixed-Even fill (to_memory 4 v) _ (some true) s t e
slot-Even fill (int64 v) s t e = fixed-Even fill (to_memory 8 v) _ (some false) s t e
slot-Even fill (uint64 v) s t e = fixed-Even fill (to_memory 8 v) _ (some true) s t e
slot-Even fill (float v) s t e = fixed-Even fill (to_memory 4 v) _ none s t e
slot-Even fill (double v) s t e = fixed-Even fill (to_memory 8 v) _ none s t e
slot-Even fill (text x) s t e = text-Even fill x string s t e
slot-Even fill (blob_text x) s t e = text-Even fill x blob s t e
slot-Even fill (c_memory memory) s t e =
    let (x, k, f) = >>=-eq-some (c_text memory) _ e in text-Even fill x string s t f
slot-Even fill (blob_memory memory (pos n)) s t e =
    let (x, k, f) = >>=-eq-some (read_bytes memory 0 n) _ e in text-Even fill x blob s t f
slot-Even fill (blob_memory memory (negsuc n)) s t e = cc
slot-Even fill null (b, h) t e = ground arith

bind_at-even :
    (fill : ℕ) (v : Value) (i : ℕ) (bs cs : List Bind) (h k : Heap)
    → bind_at fill v i bs h ≡ some (cs, k)
    → k.mallocs + (h.frees + owned bs) ≡ k.frees + owned cs + h.mallocs
unfolding bind_at owned
bind_at-even fill v i [] cs h k e = cc
bind_at-even fill v zero (b ∷ bs) cs h k e =
    let (t, e', f) = >>=-eq-some (bind_slot fill v (b, h)) _ e in
    ground (arith, slot-Even fill v (b, h) t e')
bind_at-even fill v (suc i) (b ∷ bs) cs h k e =
    let (t, e', f) = >>=-eq-some (bind_at fill v i bs h) _ e in
    ground (arith, bind_at-even fill v i bs t.0 h t.1 e')

abbrev Balanced : Stmt → Type 0
Balanced s = s.heap.mallocs ≡ s.heap.frees + owned s.binds

bind-Balanced :
    (fill : ℕ) (idx : ℤ) (v : Value) (s t : Stmt)
    → bind fill idx v s ≡ some t
    → Balanced s
    → Balanced t
unfolding bind
bind-Balanced fill (pos zero) v s t e r = cc
bind-Balanced fill (negsuc n) v s t e r = cc
bind-Balanced fill (pos (suc i)) v s t e r =
    let (x, e', f) = >>=-eq-some (bind_at fill v i s.binds s.heap) _ e in
    ground (arith, bind_at-even fill v i s.binds x.0 s.heap x.1 e')

bind_all-Balanced :
    (fill : ℕ) (calls : List (ℤ × Value)) (s t : Stmt)
    → bind_all fill calls s ≡ some t
    → Balanced s
    → Balanced t
unfolding bind_all
bind_all-Balanced fill [] s t e r = subst Balanced (some-injective _ _ e) r
bind_all-Balanced fill ((idx, v) ∷ calls) s t e r =
    let (u, e', f) = >>=-eq-some (bind fill idx v s) _ e in
    bind_all-Balanced fill calls u t f (bind-Balanced fill idx v s u e' r)

owned-replicate : (n : ℕ) → owned (replicate n empty_bind) ≡ 0
unfolding owned
owned-replicate zero = refl
owned-replicate (suc n) = omega (arith, owned-replicate n)

create-Balanced :
    (init : Bool) (rt count : ℕ) (s : Stmt) → (create init rt count).0 ≡ some s → Balanced s
unfolding create
create-Balanced false rt count s e = cc
create-Balanced true (suc rt) count s e = cc
create-Balanced true zero count s e = ground (arith, owned-replicate count)

free_all-owned :
    (bs : List Bind) (h : Heap)
    → ((free_all bs h).frees ≡ h.frees + owned bs) × ((free_all bs h).mallocs ≡ h.mallocs)
unfolding free_all owned
free_all-owned [] h = ground arith
free_all-owned (b ∷ bs) h = elim (Option-cases b.buffer) [
  | inl e ↦ rw e (ground (arith, free_all-owned bs h))
  | inr (x, e) ↦ rw e (ground (arith, free_all-owned bs (count_free h)))
]

-- After any binds of a new statement that succeed, its destructor leaves as many calls of free as
-- of malloc.
pub destroy-balanced :
    (init : Bool) (rt count fill : ℕ) (calls : List (ℤ × Value)) (s t : Stmt)
    → (create init rt count).0 ≡ some s
    → bind_all fill calls s ≡ some t
    → (destroy t).0.mallocs ≡ (destroy t).0.frees
unfolding destroy
destroy-balanced init rt count fill calls s t made ran =
    let r = bind_all-Balanced fill calls s t ran (create-Balanced init rt count s made) in
    omega (arith, r, free_all-owned t.binds t.heap)
