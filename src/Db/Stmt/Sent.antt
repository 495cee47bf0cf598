-- ===== src/Db/Stmt/Sent.antt =====
-- What the library sends for a parameter: the first `buffer_length` bytes of its block.
use burger.Common.{
  ℕ, zero, suc, ◌+◌, ◌≤◌, ◌≡◌, refl, sym, ap, ◌∙◌, inl, inr, Bool, true, false, Option, none, some,
  List, [], ◌∷◌, ◌>>=◌, >>=-eq-some, arith, Bool-cases, leb, length, take, drop, get_elem?,
  write_at, read_bytes, write_bytes, length-write_at, slice-write_at, to_memory, pos, negsuc,
}
use mathlib.Core.Path.{subst}
use mathlib.Core.Option.{some-injective}
use burger.Db.Bind.{FieldType, Bind, Heap}
use burger.Db.Stmt.{
  Stmt, Slot, bind_copy, bind_copy_len, bind_fixed, c_text, bind_int8, bind_uint8, bind_int16,
  bind_uint16, bind_int32, bind_uint32, bind_int64, bind_uint64, bind_float, bind_double,
  bind_c_string, bind_string, bind_blob_raw, bind_blob,
}
use burger.Db.Stmt.Calls.{
  Value, int8, uint8, int16, uint16, int32, uint32, int64, uint64, float, double, text, c_memory,
  blob_text, blob_memory, null, bind_slot, bind_at, bind,
}

-- The bytes of a value; none for NULL and for a memory that cannot be read.
abbrev pub value_bytes : Value → Option (List ℕ)
value_bytes (int8 v) = some (to_memory 1 v)
value_bytes (uint8 v) = some (to_memory 1 v)
value_bytes (int16 v) = some (to_memory 2 v)
value_bytes (uint16 v) = some (to_memory 2 v)
value_bytes (int32 v) = some (to_memory 4 v)
value_bytes (uint32 v) = some (to_memory 4 v)
value_bytes (int64 v) = some (to_memory 8 v)
value_bytes (uint64 v) = some (to_memory 8 v)
value_bytes (float v) = some (to_memory 4 v)
value_bytes (double v) = some (to_memory 8 v)
value_bytes (text bytes) = some bytes
value_bytes (c_memory memory) = c_text memory
value_bytes (blob_text bytes) = some bytes
value_bytes (blob_memory memory (pos n)) = read_bytes memory 0 n
value_bytes (blob_memory memory (negsuc n)) = none
value_bytes null = none

-- A parameter whose block begins with `bytes`, as many as its length says.
pub record Holds (bytes : List ℕ) (b : Bind) : Type 0 where
  pub block : List ℕ
  pub same_block : b.buffer ≡ some block
  pub same_length : b.buffer_length ≡ length bytes
  pub within : length bytes ≤ length block
  pub front : take (length bytes) block ≡ bytes

written :
    (x y bytes : List ℕ)
    → write_bytes x 0 bytes ≡ some y
    → (length bytes ≤ length y) × (take (length bytes) y ≡ bytes)
written x y bytes e = elim (Bool-cases (leb (0 + length bytes) (length x))) [
  | inl fits ↦
      let y' : write_at x 0 bytes ≡ y = ground arith in
      ground (arith, length-write_at x 0 bytes, slice-write_at x 0 bytes)
  | inr narrow ↦ absurd (ground arith)
]

module _ (fill : ℕ) (bytes : List ℕ) where
  pub fixed-Holds :
      (type : FieldType) (unsigned : Option Bool) (s t : Slot)
      → bind_fixed type unsigned fill bytes s ≡ some t
      → Holds bytes t.0
  unfolding bind_fixed bind_copy
  fixed-Holds type unsigned (b, h) t e =
      let (r, e', f) =
        >>=-eq-some (bind_copy fill bytes (record b { buffer_type = type }, h)) _ e in
      let (y, copied, g) = >>=-eq-some _ _ e' in
      let (within, front) = written _ y bytes copied in
      record {
        block = y;
        same_block =
            ap (λ x. x.0.buffer) (some-injective _ _ (sym f))
            ∙ ap (λ x. x.0.buffer) (some-injective _ _ (sym g));
        same_length = ap (λ x. x.0.buffer_length) (some-injective _ _ (sym f));
        within = within;
        front = front;
      }

  pub text-Holds : (s t : Slot) → bind_copy_len fill bytes s ≡ some t → Holds bytes t.0
  unfolding bind_copy_len
  text-Holds (b, h) t e =
      let (y, copied, f) = >>=-eq-some _ _ e in
      let (within, front) = written _ y bytes copied in
      record {
        block = y;
        same_block = ap (λ x. x.0.buffer) (some-injective _ _ (sym f));
        same_length = ap (λ x. x.0.buffer_length) (some-injective _ _ (sym f));
        within = within;
        front = front;
      }

-- Whatever is bound, the block holds the value's bytes.
pub slot-Holds :
    (fill : ℕ) (v : Value) (s t : Slot) (bytes : List ℕ)
    → value_bytes v ≡ some bytes
    → bind_slot fill v s ≡ some t
    → Holds bytes t.0
unfolding bind_slot bind_int8 bind_uint8 bind_int16 bind_uint16 bind_int32 bind_uint32 bind_int64
    bind_uint64 bind_float bind_double bind_c_string bind_string bind_blob_raw bind_blob
slot-Holds fill (int8 v) s t bytes k e =
    subst (λ x. Holds x t.0) (some-injective _ _ k)
      (fixed-Holds fill (to_memory 1 v) _ (some false) s t e)
slot-Holds fill (uint8 v) s t bytes k e =
    subst (λ x. Holds x t.0) (some-injective _ _ k)
      (fixed-Holds fill (to_memory 1 v) _ (some true) s t e)
slot-Holds fill (int16 v) s t bytes k e =
    subst (λ x. Holds x t.0) (some-injective _ _ k)
      (fixed-Holds fill (to_memory 2 v) _ (some false) s t e)
slot-Holds fill (uint16 v) s t bytes k e =
    subst (λ x. Holds x t.0) (some-injective _ _ k)
      (fixed-Holds fill (to_memory 2 v) _ (some true) s t e)
slot-Holds fill (int32 v) s t bytes k e =
    subst (λ x. Holds x t.0) (some-injective _ _ k)
      (fixed-Holds fill (to_memory 4 v) _ (some false) s t e)
slot-Holds fill (uint32 v) s t bytes k e =
    subst (λ x. Holds x t.0) (some-injective _ _ k)
      (fixed-Holds fill (to_memory 4 v) _ (some true) s t e)
slot-Holds fill (int64 v) s t bytes k e =
    subst (λ x. Holds x t.0) (some-injective _ _ k)
      (fixed-Holds fill (to_memory 8 v) _ (some false) s t e)
slot-Holds fill (uint64 v) s t bytes k e =
    subst (λ x. Holds x t.0) (some-injective _ _ k)
      (fixed-Holds fill (to_memory 8 v) _ (some true) s t e)
slot-Holds fill (float v) s t bytes k e =
    subst (λ x. Holds x t.0) (some-injective _ _ k) (fixed-Holds fill (to_memory 4 v) _ none s t e)
slot-Holds fill (double v) s t bytes k e =
    subst (λ x. Holds x t.0) (some-injective _ _ k) (fixed-Holds fill (to_memory 8 v) _ none s t e)
slot-Holds fill (text x) s t bytes k e =
    subst (λ x. Holds x t.0) (some-injective _ _ k) (text-Holds fill x _ t e)
slot-Holds fill (blob_text x) s t bytes k e =
    subst (λ x. Holds x t.0) (some-injective _ _ k) (text-Holds fill x _ t e)
slot-Holds fill (c_memory memory) s t bytes k e =
    let (x, k', f) = >>=-eq-some (c_text memory) _ e in
    subst (λ y. Holds y t.0) (some-injective _ _ (sym k' ∙ k)) (text-Holds fill x _ t f)
slot-Holds fill (blob_memory memory (pos n)) s t bytes k e =
    let (x, k', f) = >>=-eq-some (read_bytes memory 0 n) _ e in
    subst (λ y. Holds y t.0) (some-injective _ _ (sym k' ∙ k)) (text-Holds fill x _ t f)
slot-Holds fill (blob_memory memory (negsuc n)) s t bytes k e = cc
slot-Holds fill null s t bytes k e = cc

-- The bytes that the library reads for a parameter.
abbrev pub payload : Bind → Option (List ℕ)
payload b = b.buffer >>= λ block. read_bytes block 0 b.buffer_length

Holds-payload : (bytes : List ℕ) (b : Bind) → Holds bytes b → payload b ≡ some bytes
Holds-payload bytes b h = rw (h.same_block, h.same_length) (ground (arith, h.within, h.front))

bind_at-Holds :
    (fill : ℕ) (v : Value) (i : ℕ) (bs cs : List Bind) (h k : Heap) (bytes : List ℕ)
    → value_bytes v ≡ some bytes
    → bind_at fill v i bs h ≡ some (cs, k)
    → (c : Bind) × (get_elem? cs i ≡ some c)
      × Holds bytes c
      × (take i cs ≡ take i bs)
      × (drop (suc i) cs ≡ drop (suc i) bs)
unfolding bind_at
bind_at-Holds fill v i [] cs h k bytes q e = cc
bind_at-Holds fill v zero (b ∷ bs) cs h k bytes q e =
    let (r, e', f) = >>=-eq-some (bind_slot fill v (b, h)) _ e in
    let same : r.0 ∷ bs ≡ cs = ap (λ x. x.0) (some-injective _ _ f) in
    rw⁻¹ same (r.0, refl, slot-Holds fill v (b, h) r bytes q e', refl, refl)
bind_at-Holds fill v (suc i) (b ∷ bs) cs h k bytes q e =
    let (r, e', f) = >>=-eq-some (bind_at fill v i bs h) _ e in
    let same : b ∷ r.0 ≡ cs = ap (λ x. x.0) (some-injective _ _ f) in
    let (c, at, holds, front, back) = bind_at-Holds fill v i bs r.0 h r.1 bytes q e' in
    rw⁻¹ same (c, at, holds, ap (◌∷◌ b) front, back)

-- When the bind of a parameter to a value with bytes succeeds, whatever it was bound to before,
-- the first bytes of its block, as many as its length says, are those of the value, and the
-- parameters before and after it are as they were.
pub bind-payload :
    (fill i : ℕ) (v : Value) (s t : Stmt) (bytes : List ℕ)
    → value_bytes v ≡ some bytes
    → bind fill (pos (suc i)) v s ≡ some t
    → (b : Bind) × (get_elem? t.binds i ≡ some b)
      × (payload b ≡ some bytes)
      × (take i t.binds ≡ take i s.binds)
      × (drop (suc i) t.binds ≡ drop (suc i) s.binds)
unfolding bind
bind-payload fill i v s t bytes q e =
    let (r, e', f) = >>=-eq-some (bind_at fill v i s.binds s.heap) _ e in
    let same : r.0 ≡ t.binds = ap (λ x. x.binds) (some-injective _ _ f) in
    let (c, at, holds, front, back) = bind_at-Holds fill v i s.binds r.0 s.heap r.1 bytes q e' in
    rw⁻¹ same (c, at, Holds-payload bytes c holds, front, back)
