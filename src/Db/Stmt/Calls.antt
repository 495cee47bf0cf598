-- ===== src/Db/Stmt/Calls.antt =====
-- The calls of a prepared statement (burger/db/MysqlStmt.cc): the overloads of bind on a parameter's number,
-- execution, and the destructor.
use burger.Common.{ℕ, zero, suc, Option, none, some, List, [], ◌∷◌, ◌++◌, ◌>>=◌, ℤ, pos}
use burger.Db.Bind.{FieldType, Bind, Heap, count_free}
use burger.Db.Stmt.{
  Call, stmt_closed, executed, params_bound, Stmt, Slot, with_type, bind_int8, bind_uint8,
  bind_int16, bind_uint16, bind_int32, bind_uint32, bind_int64, bind_uint64, bind_float,
  bind_double, bind_c_string, bind_string, bind_blob_raw, bind_blob,
}

-- What a parameter is bound to; a number is the bits of the value.
pub data Value : Type 0 where
  int8 uint8 int16 uint16 int32 uint32 int64 uint64 float double : ℕ → Value
  text c_memory blob_text : List ℕ → Value
  blob_memory : List ℕ → ℤ → Value
  null : Value

unfoldable pub bind_slot : ℕ → Value → Slot → Option Slot
unfolding bind_int8 bind_uint8 bind_int16 bind_uint16 bind_int32 bind_uint32 bind_int64 bind_uint64
    bind_float bind_double bind_c_string bind_string bind_blob_raw bind_blob
bind_slot fill (int8 v) s = bind_int8 fill v s
bind_slot fill (uint8 v) s = bind_uint8 fill v s
bind_slot fill (int16 v) s = bind_int16 fill v s
bind_slot fill (uint16 v) s = bind_uint16 fill v s
bind_slot fill (int32 v) s = bind_int32 fill v s
bind_slot fill (uint32 v) s = bind_uint32 fill v s
bind_slot fill (int64 v) s = bind_int64 fill v s
bind_slot fill (uint64 v) s = bind_uint64 fill v s
bind_slot fill (float v) s = bind_float fill v s
bind_slot fill (double v) s = bind_double fill v s
bind_slot fill (text bytes) s = bind_string fill bytes s
bind_slot fill (c_memory memory) s = bind_c_string fill memory s
bind_slot fill (blob_text bytes) s = bind_blob fill bytes s
bind_slot fill (blob_memory memory size) s = bind_blob_raw fill memory size s
bind_slot fill null s = some (with_type FieldType.null s)

-- The parameter at an index of the vector.
unfoldable pub bind_at : ℕ → Value → ℕ → List Bind → Heap → Option (List Bind × Heap)
unfolding bind_slot
bind_at fill v i [] h = none
bind_at fill v zero (b ∷ bs) h = bind_slot fill v (b, h) >>= λ r. some (r.0 ∷ bs, r.1)
bind_at fill v (suc i) (b ∷ bs) h = bind_at fill v i bs h >>= λ r. some (b ∷ r.0, r.1)

-- `bind`: parameters are counted from 1.
unfoldable pub bind : ℕ → ℤ → Value → Stmt → Option Stmt
unfolding bind_at
bind fill (pos (suc i)) v s =
    bind_at fill v i s.binds s.heap >>= λ r. some (record s { binds = r.0; heap = r.1 })
bind fill idx v s = none

unfoldable pub execute : ℕ → Stmt → ℕ × Stmt
execute rt s = (rt, record s { log = s.log ++ params_bound s.binds ∷ executed ∷ [] })

unfoldable pub free_all : List Bind → Heap → Heap
free_all [] h = h
free_all (b ∷ bs) h = free_all bs (elim b.buffer [ none ↦ h | some x ↦ count_free h ])

-- The destructor.
unfoldable pub destroy : Stmt → Heap × List Call
unfolding free_all
destroy s = (free_all s.binds s.heap, s.log ++ stmt_closed ∷ [])
