-- ===== src/Db/Stmt/Again.antt =====
-- A value of a fixed size on a parameter that was bound before.
use burger.Common.{
  ℕ, ◌<◌, ◌≡◌, sym, ap, ◌∙◌, ◌↔◌, Bool, true, false, Option, none, some, List, >>=-eq-some, arith,
  length, read_bytes, write_bytes, length-replicate, length-write_at, to_memory, pos, negsuc,
}
use mathlib.Core.Path.{subst}
use mathlib.Core.Option.{some-injective}
use burger.Db.Bind.{FieldType, Bind, Heap, malloc}
use burger.Db.Stmt.{
  Slot, own_block, bind_copy, block_for, bind_copy_len, bind_fixed, with_type, c_text, bind_int8,
  bind_uint8, bind_int16, bind_uint16, bind_int32, bind_uint32, bind_int64, bind_uint64, bind_float,
  bind_double, bind_c_string, bind_string, bind_blob_raw, bind_blob,
}
use burger.Db.Stmt.Calls.{
  Value, int8, uint8, int16, uint16, int32, uint32, int64, uint64, float, double, text, c_memory,
  blob_text, blob_memory, null, bind_slot,
}
use burger.Db.Stmt.Sent.{value_bytes}

-- The block of a parameter has `n` bytes.
abbrev pub BlockOf : ℕ → Bind → Type 0
BlockOf n b = (x : List ℕ) × (b.buffer ≡ some x) × (length x ≡ n)

write-length : (x y bytes : List ℕ) → write_bytes x 0 bytes ≡ some y → length y ≡ length x
write-length x y bytes e = ground (arith, length-write_at x 0 bytes)

module _ (fill : ℕ) (bytes : List ℕ) (b : Bind) (h : Heap) (fresh : b.buffer ≡ none)
    (t : Slot) where
  fixed-BlockOf :
      (type : FieldType) (unsigned : Option Bool)
      → bind_fixed type unsigned fill bytes (b, h) ≡ some t
      → BlockOf (length bytes) t.0
  unfolding bind_fixed bind_copy
  fixed-BlockOf type unsigned e =
      let old : (own_block fill (length bytes) (record b { buffer_type = type }, h)).0
          ≡ malloc fill (length bytes) =
        ground arith in
      let (r, e', f) =
        >>=-eq-some (bind_copy fill bytes (record b { buffer_type = type }, h)) _ e in
      let (y, copied, g) = >>=-eq-some _ _ e' in
      (
        y,
        ap (λ x. x.0.buffer) (some-injective _ _ (sym f))
            ∙ ap (λ x. x.0.buffer) (some-injective _ _ (sym g)),
        write-length _ y bytes copied ∙ ap length old ∙ length-replicate (length bytes) fill,
      )

  text-BlockOf :
      (type : FieldType)
      → bind_copy_len fill bytes (with_type type (b, h)) ≡ some t
      → BlockOf (length bytes) t.0
  unfolding bind_copy_len
  text-BlockOf type e =
      let old : (block_for fill (length bytes) (with_type type (b, h))).0
          ≡ malloc fill (length bytes) =
        ground arith in
      let (y, copied, f) = >>=-eq-some _ _ e in
      (
        y,
        ap (λ x. x.0.buffer) (some-injective _ _ (sym f)),
        write-length _ y bytes copied ∙ ap length old ∙ length-replicate (length bytes) fill,
      )

fresh-BlockOf :
    (fill : ℕ) (v : Value) (b : Bind) (h : Heap) (t : Slot) (bytes : List ℕ)
    → b.buffer ≡ none
    → value_bytes v ≡ some bytes
    → bind_slot fill v (b, h) ≡ some t
    → BlockOf (length bytes) t.0
unfolding bind_slot bind_int8 bind_uint8 bind_int16 bind_uint16 bind_int32 bind_uint32 bind_int64
    bind_uint64 bind_float bind_double bind_c_string bind_string bind_blob_raw bind_blob
fresh-BlockOf fill (int8 v) b h t bytes n k e =
    subst (λ x. BlockOf (length x) t.0) (some-injective _ _ k)
      (fixed-BlockOf fill (to_memory 1 v) b h n t _ (some false) e)
fresh-BlockOf fill (uint8 v) b h t bytes n k e =
    subst (λ x. BlockOf (length x) t.0) (some-injective _ _ k)
      (fixed-BlockOf fill (to_memory 1 v) b h n t _ (some true) e)
fresh-BlockOf fill (int16 v) b h t bytes n k e =
    subst (λ x. BlockOf (length x) t.0) (some-injective _ _ k)
      (fixed-BlockOf fill (to_memory 2 v) b h n t _ (some false) e)
fresh-BlockOf fill (uint16 v) b h t bytes n k e =
    subst (λ x. BlockOf (length x) t.0) (some-injective _ _ k)
      (fixed-BlockOf fill (to_memory 2 v) b h n t _ (some true) e)
fresh-BlockOf fill (int32 v) b h t bytes n k e =
    subst (λ x. BlockOf (length x) t.0) (some-injective _ _ k)
      (fixed-BlockOf fill (to_memory 4 v) b h n t _ (some false) e)
fresh-BlockOf fill (uint32 v) b h t bytes n k e =
    subst (λ x. BlockOf (length x) t.0) (some-injective _ _ k)
      (fixed-BlockOf fill (to_memory 4 v) b h n t _ (some true) e)
fresh-BlockOf fill (int64 v) b h t bytes n k e =
    subst (λ x. BlockOf (length x) t.0) (some-injective _ _ k)
      (fixed-BlockOf fill (to_memory 8 v) b h n t _ (some false) e)
fresh-BlockOf fill (uint64 v) b h t bytes n k e =
    subst (λ x. BlockOf (length x) t.0) (some-injective _ _ k)
      (fixed-BlockOf fill (to_memory 8 v) b h n t _ (some true) e)
fresh-BlockOf fill (float v) b h t bytes n k e =
    subst (λ x. BlockOf (length x) t.0) (some-injective _ _ k)
      (fixed-BlockOf fill (to_memory 4 v) b h n t _ none e)
fresh-BlockOf fill (double v) b h t bytes n k e =
    subst (λ x. BlockOf (length x) t.0) (some-injective _ _ k)
      (fixed-BlockOf fill (to_memory 8 v) b h n t _ none e)
fresh-BlockOf fill (text x) b h t bytes n k e =
    subst (λ x. BlockOf (length x) t.0) (some-injective _ _ k) (text-BlockOf fill x b h n t _ e)
fresh-BlockOf fill (blob_text x) b h t bytes n k e =
    subst (λ x. BlockOf (length x) t.0) (some-injective _ _ k) (text-BlockOf fill x b h n t _ e)
fresh-BlockOf fill (c_memory memory) b h t bytes n k e =
    let (x, k', f) = >>=-eq-some (c_text memory) _ e in
    subst (λ y. BlockOf (length y) t.0) (some-injective _ _ (sym k' ∙ k))
      (text-BlockOf fill x b h n t _ f)
fresh-BlockOf fill (blob_memory memory (pos m)) b h t bytes n k e =
    let (x, k', f) = >>=-eq-some (read_bytes memory 0 m) _ e in
    subst (λ y. BlockOf (length y) t.0) (some-injective _ _ (sym k' ∙ k))
      (text-BlockOf fill x b h n t _ f)
fresh-BlockOf fill (blob_memory memory (negsuc m)) b h t bytes n k e = cc
fresh-BlockOf fill null b h t bytes n k e = cc

copy-fault :
    (fill n : ℕ) (bytes : List ℕ) (b : Bind) (h : Heap)
    → BlockOf n b
    → (bind_copy fill bytes (b, h) ≡ none) ↔ (n < length bytes)
unfolding bind_copy
copy-fault fill n bytes b h (x, e, l) = ground arith

fixed-fault :
    (type : FieldType) (unsigned : Option Bool) (fill n : ℕ) (bytes : List ℕ) (s : Slot)
    → BlockOf n s.0
    → (bind_fixed type unsigned fill bytes s ≡ none) ↔ (n < length bytes)
unfolding bind_fixed
fixed-fault type unsigned fill n bytes (b, h) l =
    ground (arith, copy-fault fill n bytes (record b { buffer_type = type }) h l)

-- The values of a fixed size.
abbrev pub is_fixed : Value → Bool
is_fixed (int8 v) = true
is_fixed (uint8 v) = true
is_fixed (int16 v) = true
is_fixed (uint16 v) = true
is_fixed (int32 v) = true
is_fixed (uint32 v) = true
is_fixed (int64 v) = true
is_fixed (uint64 v) = true
is_fixed (float v) = true
is_fixed (double v) = true
is_fixed v = false

slot-fault :
    (fill n : ℕ) (w : Value) (s : Slot) (bytes : List ℕ)
    → is_fixed w ≡ true
    → value_bytes w ≡ some bytes
    → BlockOf n s.0
    → (bind_slot fill w s ≡ none) ↔ (n < length bytes)
unfolding bind_slot bind_int8 bind_uint8 bind_int16 bind_uint16 bind_int32 bind_uint32 bind_int64
    bind_uint64 bind_float bind_double
slot-fault fill n (int8 v) s bytes a k l =
    subst (λ x. ((bind_slot fill (int8 v) s ≡ none) ↔ (n < length x))) (some-injective _ _ k)
      (fixed-fault _ (some false) fill n (to_memory 1 v) s l)
slot-fault fill n (uint8 v) s bytes a k l =
    subst (λ x. ((bind_slot fill (uint8 v) s ≡ none) ↔ (n < length x))) (some-injective _ _ k)
      (fixed-fault _ (some true) fill n (to_memory 1 v) s l)
slot-fault fill n (int16 v) s bytes a k l =
    subst (λ x. ((bind_slot fill (int16 v) s ≡ none) ↔ (n < length x))) (some-injective _ _ k)
      (fixed-fault _ (some false) fill n (to_memory 2 v) s l)
slot-fault fill n (uint16 v) s bytes a k l =
    subst (λ x. ((bind_slot fill (uint16 v) s ≡ none) ↔ (n < length x))) (some-injective _ _ k)
      (fixed-fault _ (some true) fill n (to_memory 2 v) s l)
slot-fault fill n (int32 v) s bytes a k l =
    subst (λ x. ((bind_slot fill (int32 v) s ≡ none) ↔ (n < length x))) (some-injective _ _ k)
      (fixed-fault _ (some false) fill n (to_memory 4 v) s l)
slot-fault fill n (uint32 v) s bytes a k l =
    subst (λ x. ((bind_slot fill (uint32 v) s ≡ none) ↔ (n < length x))) (some-injective _ _ k)
      (fixed-fault _ (some true) fill n (to_memory 4 v) s l)
slot-fault fill n (int64 v) s bytes a k l =
    subst (λ x. ((bind_slot fill (int64 v) s ≡ none) ↔ (n < length x))) (some-injective _ _ k)
      (fixed-fault _ (some false) fill n (to_memory 8 v) s l)
slot-fault fill n (uint64 v) s bytes a k l =
    subst (λ x. ((bind_slot fill (uint64 v) s ≡ none) ↔ (n < length x))) (some-injective _ _ k)
      (fixed-fault _ (some true) fill n (to_memory 8 v) s l)
slot-fault fill n (float v) s bytes a k l =
    subst (λ x. ((bind_slot fill (float v) s ≡ none) ↔ (n < length x))) (some-injective _ _ k)
      (fixed-fault _ none fill n (to_memory 4 v) s l)
slot-fault fill n (double v) s bytes a k l =
    subst (λ x. ((bind_slot fill (double v) s ≡ none) ↔ (n < length x))) (some-injective _ _ k)
      (fixed-fault _ none fill n (to_memory 8 v) s l)
slot-fault fill n (text x) s bytes a k l = cc
slot-fault fill n (c_memory x) s bytes a k l = cc
slot-fault fill n (blob_text x) s bytes a k l = cc
slot-fault fill n (blob_memory x m) s bytes a k l = cc
slot-fault fill n null s bytes a k l = cc

-- When a parameter without a block was bound to a value, its bind to a value of a fixed size is a
-- fault exactly when the new value has more bytes than the first.
pub bind_slot-again :
    (fill : ℕ) (v w : Value) (b : Bind) (h : Heap) (t : Slot) (xs ys : List ℕ)
    → b.buffer ≡ none
    → value_bytes v ≡ some xs
    → bind_slot fill v (b, h) ≡ some t
    → value_bytes w ≡ some ys
    → is_fixed w ≡ true
    → (bind_slot fill w t ≡ none) ↔ (length xs < length ys)
bind_slot-again fill v w b h t xs ys fresh kv e kw a =
    slot-fault fill (length xs) w t ys a kw (fresh-BlockOf fill v b h t xs fresh kv e)
