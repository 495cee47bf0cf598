-- ===== src/Db/Stmt/Room.antt =====
-- When binding again is safe: texts always find room, values of a fixed size only where the block is as wide.
use burger.Common.{
  ℕ, zero, suc, ◌+◌, ◌≤◌, ◌≡◌, refl, ap, inl, inr, Bool, true, false, Option, none, some, List, [],
  ◌∷◌, ◌>>=◌, >>=-eq-some, arith, Option-cases, Bool-cases, ltb, leb, length, get_elem?, replicate,
  write_at, length-replicate, le→leb, if_true, ℤ, pos, negsuc,
}
use mathlib.Core.Path.{subst}
use mathlib.Core.Option.{some-injective}
use burger.Db.Bind.{FieldType, string, blob, Bind, Heap}
use burger.Db.Stmt.{
  Stmt, create, empty_bind, Slot, block_for, bind_copy_len, with_type, bind_c_string, bind_string,
  bind_blob_raw, bind_blob,
}
use burger.Db.Stmt.Calls.{
  Value, int8, uint8, int16, uint16, int32, uint32, int64, uint64, float, double, text, c_memory,
  blob_text, blob_memory, null, bind_slot, bind_at, bind,
}
use burger.Db.Stmt.Sent.{value_bytes, Holds, slot-Holds}

abbrev pub Room : Bind → Type 0
Room b = (x : List ℕ) → b.buffer ≡ some x → b.buffer_length ≤ length x

pub AllRoom : List Bind → Type 0
AllRoom [] = Unit {0}
AllRoom (b ∷ bs) = Room b × AllRoom bs

Holds-Room : (bytes : List ℕ) (b : Bind) → Holds bytes b → Room b
Holds-Room bytes b h x e = ground (arith, h.same_block, h.same_length, h.within)

-- A bind that has no bytes to copy is the one of NULL.
slot-null :
    (fill : ℕ) (v : Value) (s t : Slot)
    → value_bytes v ≡ none
    → bind_slot fill v s ≡ some t
    → with_type FieldType.null s ≡ t
unfolding bind_slot bind_c_string bind_blob_raw
slot-null fill (int8 x) s t k e = cc
slot-null fill (uint8 x) s t k e = cc
slot-null fill (int16 x) s t k e = cc
slot-null fill (uint16 x) s t k e = cc
slot-null fill (int32 x) s t k e = cc
slot-null fill (uint32 x) s t k e = cc
slot-null fill (int64 x) s t k e = cc
slot-null fill (uint64 x) s t k e = cc
slot-null fill (float x) s t k e = cc
slot-null fill (double x) s t k e = cc
slot-null fill (text x) s t k e = cc
slot-null fill (blob_text x) s t k e = cc
slot-null fill (c_memory memory) s t k e = ground arith
slot-null fill (blob_memory memory (pos n)) s t k e = ground arith
slot-null fill (blob_memory memory (negsuc n)) s t k e = cc
slot-null fill null s t k e = some-injective _ _ e

slot-Room : (fill : ℕ) (v : Value) (s t : Slot) → bind_slot fill v s ≡ some t → Room s.0 → Room t.0
slot-Room fill v s t e r = elim (Option-cases (value_bytes v)) [
  | inl k ↦ subst (λ x. Room x.0) (slot-null fill v s t k e) r
  | inr (bytes, k) ↦ Holds-Room bytes t.0 (slot-Holds fill v s t bytes k e)
]

bind_at-AllRoom :
    (fill : ℕ) (v : Value) (i : ℕ) (bs cs : List Bind) (h k : Heap)
    → bind_at fill v i bs h ≡ some (cs, k)
    → AllRoom bs
    → AllRoom cs
unfolding bind_at AllRoom
bind_at-AllRoom fill v i [] cs h k e r = cc
bind_at-AllRoom fill v zero (b ∷ bs) cs h k e r =
    let (t, e', f) = >>=-eq-some (bind_slot fill v (b, h)) _ e in
    let same : t.0 ∷ bs ≡ cs = ap (λ x. x.0) (some-injective _ _ f) in
    subst AllRoom same (slot-Room fill v (b, h) t e' r.0, r.1)
bind_at-AllRoom fill v (suc i) (b ∷ bs) cs h k e r =
    let (t, e', f) = >>=-eq-some (bind_at fill v i bs h) _ e in
    let same : b ∷ t.0 ≡ cs = ap (λ x. x.0) (some-injective _ _ f) in
    subst AllRoom same (r.0, bind_at-AllRoom fill v i bs t.0 h t.1 e' r.1)

bind-AllRoom :
    (fill : ℕ) (idx : ℤ) (v : Value) (s t : Stmt)
    → bind fill idx v s ≡ some t
    → AllRoom s.binds
    → AllRoom t.binds
unfolding bind
bind-AllRoom fill (pos zero) v s t e r = cc
bind-AllRoom fill (negsuc n) v s t e r = cc
bind-AllRoom fill (pos (suc i)) v s t e r =
    let (x, e', f) = >>=-eq-some (bind_at fill v i s.binds s.heap) _ e in
    subst AllRoom (ap (λ y. y.binds) (some-injective _ _ f))
      (bind_at-AllRoom fill v i s.binds x.0 s.heap x.1 e' r)

unfoldable pub bind_all : ℕ → List (ℤ × Value) → Stmt → Option Stmt
bind_all fill [] s = some s
bind_all fill ((idx, v) ∷ calls) s = bind fill idx v s >>= bind_all fill calls

bind_all-AllRoom :
    (fill : ℕ) (calls : List (ℤ × Value)) (s t : Stmt)
    → bind_all fill calls s ≡ some t
    → AllRoom s.binds
    → AllRoom t.binds
unfolding bind_all
bind_all-AllRoom fill [] s t e r = subst (λ x. AllRoom x.binds) (some-injective _ _ e) r
bind_all-AllRoom fill ((idx, v) ∷ calls) s t e r =
    let (u, e', f) = >>=-eq-some (bind fill idx v s) _ e in
    bind_all-AllRoom fill calls u t f (bind-AllRoom fill idx v s u e' r)

replicate-AllRoom : (n : ℕ) → AllRoom (replicate n empty_bind)
unfolding AllRoom
replicate-AllRoom zero = tt
replicate-AllRoom (suc n) = (λ x e. cc, replicate-AllRoom n)

create-AllRoom :
    (init : Bool) (rt count : ℕ) (s : Stmt) → (create init rt count).0 ≡ some s → AllRoom s.binds
unfolding create
create-AllRoom false rt count s e = cc
create-AllRoom true (suc rt) count s e = cc
create-AllRoom true zero count s e =
    subst (λ x. AllRoom x.binds) (some-injective _ _ e) (replicate-AllRoom count)

block_for-fits :
    (fill n : ℕ) (b : Bind) (h : Heap) → Room b → n ≤ length (block_for fill n (b, h)).0
block_for-fits fill n b h r = elim (Option-cases b.buffer) [
  | inl e ↦ rw e (omega (arith, length-replicate n fill))
  | inr (x, e) ↦ elim (Bool-cases (ltb b.buffer_length n)) [
    | inl short ↦ rw (e, short) (omega (arith, length-replicate n fill))
    | inr long ↦ rw (e, long) (ground (arith, r x e))
  ]
]

copy_len-total :
    (fill : ℕ) (bytes : List ℕ) (s : Slot)
    → Room s.0
    → (t : Slot) × (bind_copy_len fill bytes s ≡ some t)
unfolding bind_copy_len
copy_len-total fill bytes (b, h) r =
    let (block, h') = block_for fill (length bytes) (b, h) in
    let fits = block_for-fits fill (length bytes) b h r in
    (
      (record b { buffer = some (write_at block 0 bytes); buffer_length = length bytes }, h'),
      ap (λ o. o >>= λ y. some (record b { buffer = some y; buffer_length = length bytes }, h'))
          (if_true (leb (0 + length bytes) (length block)) _ _ (le→leb _ _ (omega (arith, fits)))),
    )

-- The values whose block grows.
abbrev pub is_text : Value → Bool
is_text (text bytes) = true
is_text (c_memory memory) = true
is_text (blob_text bytes) = true
is_text (blob_memory memory size) = true
is_text v = false

slot-total :
    (fill : ℕ) (v : Value) (s : Slot) (bytes : List ℕ)
    → is_text v ≡ true
    → value_bytes v ≡ some bytes
    → Room s.0
    → (t : Slot) × (bind_slot fill v s ≡ some t)
unfolding bind_slot bind_c_string bind_string bind_blob_raw bind_blob
slot-total fill (text x) s bytes a k r = copy_len-total fill x (with_type string s) r
slot-total fill (blob_text x) s bytes a k r = copy_len-total fill x (with_type blob s) r
slot-total fill (c_memory memory) s bytes a k r =
    rw k (copy_len-total fill bytes (with_type string s) r)
slot-total fill (blob_memory memory (pos n)) s bytes a k r =
    rw k (copy_len-total fill bytes (with_type blob s) r)
slot-total fill (blob_memory memory (negsuc n)) s bytes a k r = cc
slot-total fill (int8 x) s bytes a k r = cc
slot-total fill (uint8 x) s bytes a k r = cc
slot-total fill (int16 x) s bytes a k r = cc
slot-total fill (uint16 x) s bytes a k r = cc
slot-total fill (int32 x) s bytes a k r = cc
slot-total fill (uint32 x) s bytes a k r = cc
slot-total fill (int64 x) s bytes a k r = cc
slot-total fill (uint64 x) s bytes a k r = cc
slot-total fill (float x) s bytes a k r = cc
slot-total fill (double x) s bytes a k r = cc
slot-total fill null s bytes a k r = cc

bind_at-total :
    (fill : ℕ) (v : Value) (i : ℕ) (bs : List Bind) (b : Bind) (h : Heap) (bytes : List ℕ)
    → is_text v ≡ true
    → value_bytes v ≡ some bytes
    → get_elem? bs i ≡ some b
    → AllRoom bs
    → (r : List Bind × Heap) × (bind_at fill v i bs h ≡ some r)
unfolding bind_at AllRoom
bind_at-total fill v i [] b h bytes a k g r = cc
bind_at-total fill v zero (c ∷ bs) b h bytes a k g r =
    let (t, e) = slot-total fill v (c, h) bytes a k r.0 in rw e (_, refl)
bind_at-total fill v (suc i) (c ∷ bs) b h bytes a k g r =
    let (t, e) = bind_at-total fill v i bs b h bytes a k g r.1 in rw e (_, refl)

-- After any binds of a new statement that succeed, the bind of a text or a blob that can be read
-- to a parameter that the statement has succeeds too, and so writes inside its block.
pub bind_all-total :
    (init : Bool) (rt count fill : ℕ) (calls : List (ℤ × Value)) (s t : Stmt)
    → (create init rt count).0 ≡ some s
    → bind_all fill calls s ≡ some t
    → (i : ℕ) (v : Value) (b : Bind) (bytes : List ℕ) → get_elem? t.binds i ≡ some b
    → is_text v ≡ true
    → value_bytes v ≡ some bytes
    → (u : Stmt) × (bind fill (pos (suc i)) v t ≡ some u)
unfolding bind
bind_all-total init rt count fill calls s t made ran i v b bytes g a k =
    let r = bind_all-AllRoom fill calls s t ran (create-AllRoom init rt count s made) in
    let (x, e) = bind_at-total fill v i t.binds b t.heap bytes a k g r in rw e (_, refl)
