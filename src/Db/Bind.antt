-- ===== src/Db/Bind.antt =====
-- MYSQL_BIND and the column types of the MySQL client library, as burger/db uses them, with the blocks of
-- `malloc` behind its pointers. Fresh memory holds a byte `fill`.
use burger.Common.{ℕ, suc, Bool, Option, List, replicate}

pub data FieldType : Type 0 where
  decimal tiny short long long_long float double null timestamp date time datetime string blob :
      FieldType
  other : ℕ → FieldType

pub record Bind : Type 0 where
  pub buffer : Option (List ℕ)
  pub buffer_type : FieldType
  pub buffer_length : ℕ
  pub is_unsigned : Bool

-- How often `malloc` and `free` were called.
pub record Heap : Type 0 where
  pub mallocs : ℕ
  pub frees : ℕ

abbrev pub malloc : ℕ → ℕ → List ℕ
malloc fill size = replicate size fill

abbrev pub count_malloc : Heap → Heap
count_malloc h = record h { mallocs = suc h.mallocs }

abbrev pub count_free : Heap → Heap
count_free h = record h { frees = suc h.frees }
