-- ===== src/Db/StmtRes.antt =====
-- burger/db/MysqlStmtRes.h and burger/db/MysqlStmtRes.cc: the result of a prepared statement, with a block for each
-- column that the library fetches into. What the library answers is an argument; `none` is an
-- access outside the columns or outside a block.
pub mod Columns
pub mod Queries
mod Tests
use burger.Common.{
  ℕ, zero, suc, Bool, true, false, not, ◌&&◌, Option, none, some, List, [], ◌∷◌, ◌++◌, map,
  if◌then◌else◌, ◌==◌, ltb, ◌-◌, ◌%◌, ◌^◌, ◌>>=◌, length, get_elem?, read_bytes, from_memory, ℤ,
  pos, negsuc,
}
use burger.Db.Bind.{
  FieldType, decimal, tiny, short, long, long_long, float, double, null, timestamp, date, time,
  datetime, string, blob, other, malloc,
}
use burger.Db.Stmt.{
  Stmt, Call, metadata_asked, result_bound, result_stored, fetched, result_freed, params_bound,
}
use burger.Db.Stmt.Calls.{execute}

-- `MySQLStmtRes::Data`.
pub record Column : Type 0 where
  pub is_null : Bool
  pub error : Bool
  pub type : FieldType
  pub data_size : ℕ
  pub data_length : ℕ
  pub block : Option (List ℕ)

abbrev pub new_column : Column
new_column = record {
  is_null = false;
  error = false;
  type = decimal;
  data_size = 0;
  data_length = 0;
  block = none;
}

unfoldable pub alloc : ℕ → ℕ → Column → Column
alloc fill size c = record c {
  block = some (malloc fill size);
  data_size = size;
  data_length = size;
}

-- A column of the library's metadata, with its longest length.
pub record Field : Type 0 where
  pub type : FieldType
  pub longest : ℕ

-- `time_size` is the size of MYSQL_TIME.
unfoldable pub size_for : ℕ → FieldType → ℕ → ℕ
size_for time_size tiny longest = 1
size_for time_size short longest = 2
size_for time_size long longest = 4
size_for time_size long_long longest = 8
size_for time_size float longest = 4
size_for time_size double longest = 8
size_for time_size timestamp longest = time_size
size_for time_size datetime longest = time_size
size_for time_size date longest = time_size
size_for time_size time longest = time_size
size_for time_size decimal longest = longest
size_for time_size null longest = longest
size_for time_size string longest = longest
size_for time_size blob longest = longest
size_for time_size (other n) longest = longest

unfoldable pub column_for : ℕ → ℕ → Field → Column
unfolding alloc size_for
column_for fill time_size f =
    alloc fill (size_for time_size f.type f.longest) (record new_column { type = f.type })

pub record StmtRes : Type 0 where
  pub errno : ℕ
  pub columns : List Column

-- What the library answers during `Create`. The error numbers after the first are those that it
-- reports where a step fails; `meta` is none when there is no result set.
pub record Answers : Type 0 where
  pub errno : ℕ
  pub meta : Option (List Field)
  pub meta_errno : ℕ
  pub bind_rt : ℕ
  pub bind_errno : ℕ
  pub execute_rt : ℕ
  pub store_rt : ℕ
  pub store_errno : ℕ

abbrev pub note : Call → Stmt → Stmt
note c s = record s { log = s.log ++ c ∷ [] }

abbrev pub failed : ℕ → StmtRes
failed errno = record { errno = errno; columns = [] }

abbrev pub bind_of : Column → FieldType × ℕ
bind_of c = (c.type, c.data_length)

-- From the metadata on.
unfoldable pub create_with : ℕ → ℕ → Answers → Option (List Field) → Stmt → StmtRes × Stmt
unfolding column_for execute
create_with fill time_size a none s = (failed a.meta_errno, s)
create_with fill time_size a (some fields) s =
    let columns : List Column = map (column_for fill time_size) fields in
    let s1 : Stmt = note (result_bound (map bind_of columns)) s in
    let s2 : Stmt = note result_stored (execute a.execute_rt s1).1 in
    if not (a.bind_rt == 0)
    then (failed a.bind_errno, s1)
    else if not (a.store_rt == 0)
    then (failed a.store_errno, s2)
    else (record { errno = a.errno; columns = columns }, s2)

unfoldable pub create : ℕ → ℕ → Answers → Stmt → StmtRes × Stmt
unfolding create_with
create fill time_size a s =
    if not (a.errno == 0)
    then (failed a.errno, s)
    else create_with fill time_size a a.meta (note metadata_asked s)

-- `MySQLStmt::query`.
unfoldable pub query : ℕ → ℕ → Answers → Stmt → StmtRes × Stmt
unfolding create
query fill time_size a s = create fill time_size a (note (params_bound s.binds) s)

abbrev pub column_at : ℤ → StmtRes → Option Column
column_at (pos i) r = get_elem? r.columns i
column_at (negsuc i) r = none

-- The rows or columns that the library counts, cast to `int`.
abbrev pub cast_int : ℕ → ℤ
cast_int n = let m = n % 2 ^ 32 in if ltb m (2 ^ 31) then pos m else negsuc (2 ^ 32 - 1 - m)

-- The `int` is cast back to `uint64_t`.
unfoldable pub get_data_count : ℕ → ℕ
get_data_count rows = elim (cast_int rows) [ pos m ↦ m | negsuc m ↦ 2 ^ 64 - 1 - m ]

unfoldable pub get_column_count : ℕ → ℤ
get_column_count count = cast_int count

unfoldable pub get_column_bytes : ℤ → StmtRes → Option ℤ
get_column_bytes idx r = column_at idx r >>= λ c. some (cast_int c.data_size)

unfoldable pub get_column_type : ℤ → StmtRes → Option FieldType
get_column_type idx r = column_at idx r >>= λ c. some c.type

unfoldable pub is_null : ℤ → StmtRes → Option Bool
is_null idx r = column_at idx r >>= λ c. some c.is_null

-- The first bytes of a column's block.
abbrev pub read_column : ℕ → Column → Option (List ℕ)
read_column n c = c.block >>= λ x. read_bytes x 0 n

-- The getters of a value of `w` bytes give its bits: `getInt8` to `getDouble` are these.
unfoldable pub get_fixed : ℕ → ℤ → StmtRes → Option ℕ
get_fixed w idx r = column_at idx r >>= read_column w >>= λ x. some (from_memory x)

unfoldable pub get_string : ℤ → StmtRes → Option (List ℕ)
get_string idx r = column_at idx r >>= λ c. read_column c.data_size c

-- `fetch` is the library's, which writes the row into the columns.
unfoldable pub next : (List Column → ℕ × List Column) → StmtRes → Stmt → Bool × StmtRes × Stmt
next fetch r s =
    let (rt, columns) = fetch r.columns in (rt == 0, record r { columns = columns }, note fetched s)

-- The destructor.
unfoldable pub destroy : StmtRes → Stmt → Stmt
destroy r s = if r.errno == 0 then note result_freed s else s
