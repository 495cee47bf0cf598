-- ===== src/Db/Res.antt =====
-- burger/db/MysqlRes.h, burger/db/MysqlRes.cc and the integers of burger/base/Type.cc: a stored result. The rows
-- and the names of the columns that the library has not handed out yet are lists; a value is none for NULL.
-- `none` is a null dereference or an access outside a row or the names. There are fewer than 2 ^ 31 rows.
mod Rows
mod Tests
use burger.Common.{
  ℕ, zero, suc, ◌+◌, ◌%◌, ◌^◌, Bool, true, false, Option, none, some, List, [], ◌∷◌, ◌++◌,
  if◌then◌else◌, ltb, ◌>>=◌, length, get_elem?,
}

abbrev pub Row : Type 0
Row = List (Option (List ℕ))

pub record Res : Type 0 where
  pub errno : ℕ
  pub rows : List Row
  pub row_count : ℕ
  pub column_count : ℕ
  pub cur : Option Row
  pub fields : List (List ℕ)
  pub column : List (List ℕ)

unfoldable pub new_res : ℕ → List Row → List (List ℕ) → Res
new_res errno rows fields = record {
  errno = errno;
  rows = rows;
  row_count = length rows;
  column_count = length fields;
  cur = none;
  fields = fields;
  column = [];
}

-- The loop of `foreach` from row number `i` on; the callback has a state. The rows that are left
-- come back.
unfoldable pub foreach_rows :
    {S : Type 0} → (Row → ℕ → ℕ → S → Bool × S) → ℕ → ℕ → List Row → S → List Row × S
foreach_rows cb columns i [] s = ([], s)
foreach_rows cb columns i (row ∷ rows) s =
    let (more, s') = cb row columns i s in
    let rest = foreach_rows cb columns (suc i) rows s' in if more then rest else (rows, s')

unfoldable pub foreach : {S : Type 0} → (Row → ℕ → ℕ → S → Bool × S) → Res → S → Bool × Res × S
unfolding foreach_rows
foreach cb r s =
    let (rows, s') = foreach_rows cb r.column_count 0 r.rows s in
    (true, record r { rows = rows }, s')

unfoldable pub next : Res → Bool × Res
next r = elim r.rows [
  | [] ↦ (false, record r { cur = none })
  | row ∷ rows ↦ (true, record r { rows = rows; cur = some row })
]

abbrev pub value_at : ℕ → Res → Option (Option (List ℕ))
value_at idx r = r.cur >>= λ row. get_elem? row idx

abbrev pub length_of : Option (List ℕ) → ℕ
length_of none = 0
length_of (some text) = length text

unfoldable pub get_column_bytes : ℕ → Res → Option ℕ
get_column_bytes idx r = value_at idx r >>= λ v. some (length_of v)

abbrev pub name_at : ℕ → List (List ℕ) → List ℕ
name_at idx column = elim (get_elem? column idx) [ none ↦ [] | some name ↦ name ]

-- The names are fetched once, when none is there.
unfoldable pub get_column_name : ℕ → Res → Option (List ℕ × Res)
get_column_name idx r = elim r.column [
  | [] ↦
      let column = r.fields in
      some (
        (if ltb idx (length column) then name_at idx column else []),
        record r { column = column; fields = [] },
      )
  | name ∷ names ↦ get_elem? (name ∷ names) idx >>= λ n. some (n, r)
]

unfoldable pub is_null : ℕ → Res → Option Bool
is_null idx r = value_at idx r >>= λ v. some (elim v [ none ↦ true | some text ↦ false ])

-- `strToInt64` over the system's `strtoull`, as the bits of the integer.
unfoldable pub str_to_int64 : (List ℕ → ℕ) → Option (List ℕ) → ℕ
str_to_int64 strtoull none = 0
str_to_int64 strtoull (some text) = strtoull text % 2 ^ 64

unfoldable pub get_int : (List ℕ → ℕ) → ℕ → Res → Option ℕ
unfolding str_to_int64
get_int strtoull idx r = value_at idx r >>= λ v. some (str_to_int64 strtoull v)

unfoldable pub get_string : ℕ → Res → Option (List ℕ)
get_string idx r = value_at idx r >>= λ v. some (elim v [ none ↦ [] | some text ↦ text ])
