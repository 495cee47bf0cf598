-- ===== src/Db/StmtRes/Columns.antt =====
-- Which getters a column's block is wide enough for. The client library documents the C type in
-- which it stores a value of each column type.
use burger.Common.{ℕ}
use burger.Db.Bind.{
  FieldType, tiny, short, long, long_long, float, double, timestamp, datetime, date, time,
}
use burger.Db.Stmt.{Stmt}

-- The C types of values; `char_array` is an array of as many bytes as the longest value has.
pub data CType : Type 0 where
  signed_char short_int int_type long_long_int float_type double_type mysql_time char_array : CType

-- The C type of a column's values by the library's documentation.
abbrev pub c_type : FieldType → CType
c_type tiny = signed_char
c_type short = short_int
c_type long = int_type
c_type long_long = long_long_int
c_type float = float_type
c_type double = double_type
c_type timestamp = mysql_time
c_type datetime = mysql_time
c_type date = mysql_time
c_type time = mysql_time
c_type t = char_array

-- `sizeof`, where MYSQL_TIME has `time_size` bytes.
abbrev pub sizeof : ℕ → ℕ → CType → ℕ
sizeof time_size longest signed_char = 1
sizeof time_size longest short_int = 2
sizeof time_size longest int_type = 4
sizeof time_size longest long_long_int = 8
sizeof time_size longest float_type = 4
sizeof time_size longest double_type = 8
sizeof time_size longest mysql_time = time_size
sizeof time_size longest char_array = longest
