-- ===== src/Db/Stmt.antt =====
-- burger/db/MysqlStmt.h and burger/db/MysqlStmt.cc: a prepared statement and the blocks that its parameters are
-- copied to. What the library answers is an argument, and the calls of it are logged; `none` is an access outside
-- the vector of the parameters or outside a block.
pub mod Again
pub mod Blocks
pub mod Calls
pub mod Room
pub mod Sent
mod Tests
use burger.Common.{
  ℕ, zero, suc, ◌+◌, Bool, true, false, not, Option, none, some, List, [], ◌∷◌, ◌++◌, if◌then◌else◌,
  ltb, to_memory, ◌==◌, ◌>>=◌, length, take, replicate, read_bytes, write_bytes, ℤ, pos, negsuc,
}
use burger.Db.Bind.{
  FieldType, decimal, tiny, short, long, long_long, float, double, string, blob, Bind, Heap, malloc,
  count_malloc, count_free,
}

pub data Call : Type 0 where
  stmt_closed executed metadata_asked result_stored fetched result_freed : Call
  params_bound : List Bind → Call
  result_bound : List (FieldType × ℕ) → Call

pub record Stmt : Type 0 where
  pub binds : List Bind
  pub heap : Heap
  pub log : List Call

-- A parameter after `memset`.
abbrev pub empty_bind : Bind
empty_bind = record { buffer = none; buffer_type = decimal; buffer_length = 0; is_unsigned = false }

-- `init` says whether there is memory for the statement, `rt` what the preparation answers.
unfoldable pub create : Bool → ℕ → ℕ → Option Stmt × List Call
create false rt count = (none, [])
create true (suc rt) count = (none, stmt_closed ∷ [])
create true zero count = (
  some (record {
    binds = replicate count empty_bind;
    heap = record { mallocs = 0; frees = 0 };
    log = [];
  }),
  [],
)

-- One parameter with the heap.
abbrev pub Slot : Type 0
Slot = Bind × Heap

abbrev pub own_block : ℕ → ℕ → Slot → List ℕ × Heap
own_block fill size (b, h) = elim b.buffer [
  | none ↦ (malloc fill size, count_malloc h)
  | some x ↦ (x, h)
]

-- The macro BIND_COPY.
unfoldable pub bind_copy : ℕ → List ℕ → Slot → Option Slot
bind_copy fill bytes (b, h) =
    let (block, h') = own_block fill (length bytes) (b, h) in
    write_bytes block 0 bytes >>= λ block'. some (record b { buffer = some block' }, h')

-- The block that the macro BIND_COPY_LEN copies to.
abbrev pub block_for : ℕ → ℕ → Slot → List ℕ × Heap
block_for fill size (b, h) = elim b.buffer [
  | none ↦ (malloc fill size, count_malloc h)
  | some x ↦
      if ltb b.buffer_length size then (malloc fill size, count_malloc (count_free h)) else (x, h)
]

unfoldable pub bind_copy_len : ℕ → List ℕ → Slot → Option Slot
bind_copy_len fill bytes (b, h) =
    let (block, h') = block_for fill (length bytes) (b, h) in
    write_bytes block 0 bytes >>= λ block'.
    some (record b { buffer = some block'; buffer_length = length bytes }, h')

-- A value of a fixed size: an integer with its sign, or a float, which leaves the sign alone.
unfoldable pub bind_fixed : FieldType → Option Bool → ℕ → List ℕ → Slot → Option Slot
unfolding bind_copy
bind_fixed type unsigned fill bytes (b, h) =
    bind_copy fill bytes (record b { buffer_type = type }, h) >>= λ r. some (
      record r.0 {
        is_unsigned = elim unsigned [ none ↦ r.0.is_unsigned | some u ↦ u ];
        buffer_length = length bytes;
      },
      r.1,
    )

unfoldable pub bind_int8 : ℕ → ℕ → Slot → Option Slot
unfolding bind_fixed
bind_int8 fill v s = bind_fixed tiny (some false) fill (to_memory 1 v) s

unfoldable pub bind_uint8 : ℕ → ℕ → Slot → Option Slot
unfolding bind_fixed
bind_uint8 fill v s = bind_fixed tiny (some true) fill (to_memory 1 v) s

unfoldable pub bind_int16 : ℕ → ℕ → Slot → Option Slot
unfolding bind_fixed
bind_int16 fill v s = bind_fixed short (some false) fill (to_memory 2 v) s

unfoldable pub bind_uint16 : ℕ → ℕ → Slot → Option Slot
unfolding bind_fixed
bind_uint16 fill v s = bind_fixed short (some true) fill (to_memory 2 v) s

unfoldable pub bind_int32 : ℕ → ℕ → Slot → Option Slot
unfolding bind_fixed
bind_int32 fill v s = bind_fixed long (some false) fill (to_memory 4 v) s

unfoldable pub bind_uint32 : ℕ → ℕ → Slot → Option Slot
unfolding bind_fixed
bind_uint32 fill v s = bind_fixed long (some true) fill (to_memory 4 v) s

unfoldable pub bind_int64 : ℕ → ℕ → Slot → Option Slot
unfolding bind_fixed
bind_int64 fill v s = bind_fixed long_long (some false) fill (to_memory 8 v) s

unfoldable pub bind_uint64 : ℕ → ℕ → Slot → Option Slot
unfolding bind_fixed
bind_uint64 fill v s = bind_fixed long_long (some true) fill (to_memory 8 v) s

unfoldable pub bind_float : ℕ → ℕ → Slot → Option Slot
unfolding bind_fixed
bind_float fill v s = bind_fixed float none fill (to_memory 4 v) s

unfoldable pub bind_double : ℕ → ℕ → Slot → Option Slot
unfolding bind_fixed
bind_double fill v s = bind_fixed double none fill (to_memory 8 v) s

-- The text before the first zero byte of a memory.
unfoldable pub c_text : List ℕ → Option (List ℕ)
c_text [] = none
c_text (c ∷ cs) = let rest = c_text cs in if c == 0 then some [] else (rest >>= λ r. some (c ∷ r))

abbrev pub with_type : FieldType → Slot → Slot
with_type type (b, h) = (record b { buffer_type = type }, h)

unfoldable pub bind_c_string : ℕ → List ℕ → Slot → Option Slot
unfolding c_text bind_copy_len
bind_c_string fill memory s = c_text memory >>= λ text. bind_copy_len fill text (with_type string s)

unfoldable pub bind_string : ℕ → List ℕ → Slot → Option Slot
unfolding bind_copy_len
bind_string fill text s = bind_copy_len fill text (with_type string s)

-- The block of `malloc` for a negative size is null.
unfoldable pub bind_blob_raw : ℕ → List ℕ → ℤ → Slot → Option Slot
unfolding bind_copy_len
bind_blob_raw fill memory (pos size) s =
    read_bytes memory 0 size >>= λ bytes. bind_copy_len fill bytes (with_type blob s)
bind_blob_raw fill memory (negsuc size) s = none

unfoldable pub bind_blob : ℕ → List ℕ → Slot → Option Slot
unfolding bind_copy_len
bind_blob fill text s = bind_copy_len fill text (with_type blob s)
