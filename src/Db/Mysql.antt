-- ===== src/Db/Mysql.antt =====
-- burger/db/Mysql.h, burger/db/Mysql.cc and GetParamValue of burger/base/Util.h: a session of the MySQL client
-- library behind a handle. A session is its number; what the library answers to a call is an
-- argument, and the calls are logged. No one else holds the session; `none` is a null handle given
-- to the library.
pub mod Selected
mod Tests
use burger.Common.{
  ℕ, ◌+◌, Bool, true, false, not, ◌&&◌, Option, none, some, List, [], ◌∷◌, ◌++◌, if◌then◌else◌, ltb,
  sub64, ◌==◌, ◌>>=◌, ℤ, pos, negsuc,
}
use burger.Base.StringUtil.{same}

-- The parameters that the code asks for.
pub data Key : Type 0 where
  host port user passwd dbname pool : Key

abbrev pub Params : Type 0
Params = Key → Option (List ℕ)

-- The library calls that matter, with the session they go to.
pub data Call : Type 0 where
  init no_reconnect charset_utf8mb4 : Call
  connect_timeout : ℕ → Call
  connected : ℕ → List ℕ → Call
  closed pinged : ℕ → Call
  queried : ℕ → List ℕ → ℕ → Call
  selected : ℕ → List ℕ → Bool → Call

pub record MySql : Type 0 where
  pub params : Params
  pub mysql : Option ℕ
  pub cmd : List ℕ
  pub dbname : List ℕ
  pub last_used : ℕ
  pub has_error : Bool
  pub pool_size : ℤ
  pub log : List Call

-- `util::GetParamValue` over `boost::lexical_cast`, which is `cast`.
unfoldable pub get_param_value : {A : Type 0} → (List ℕ → Option A) → Option (List ℕ) → A → A
get_param_value cast none def = def
get_param_value cast (some v) def = elim (cast v) [ none ↦ def | some a ↦ a ]

unfoldable pub get_text : Params → Key → List ℕ
unfolding get_param_value
get_text params key = get_param_value some (params key) []

unfoldable pub new_mysql : Params → ℕ → MySql
new_mysql args now = record {
  params = args;
  mysql = none;
  cmd = [];
  dbname = [];
  last_used = now;
  has_error = false;
  pool_size = pos 10;
  log = [];
}

-- The handle that `mysql_init` answers, and whether `mysql_real_connect` then connects.
unfoldable pub mysql_init : Params → ℕ → Option ℕ → Bool → Option ℕ × List Call
unfolding get_text
mysql_init params timeout none connects = (none, init ∷ [])
mysql_init params timeout (some s) connects =
    let options : List Call =
      init
      ∷ ((if ltb 0 timeout then connect_timeout timeout ∷ [] else [])
          ++ no_reconnect ∷ charset_utf8mb4 ∷ []) in
    if connects
    then (some s, options ++ connected s (get_text params dbname) ∷ [])
    else (none, options ++ closed s ∷ [])

abbrev pub close_old : Option ℕ → List Call
close_old none = []
close_old (some s) = closed s ∷ []

unfoldable pub finish_connect : (List ℕ → Option ℤ) → Option ℕ × List Call → MySql → MySql × Bool
unfolding get_param_value
finish_connect cast (none, calls) m = (record m { has_error = true; log = m.log ++ calls }, false)
finish_connect cast (some s, calls) m = (
  record m {
    has_error = false;
    pool_size = get_param_value cast (m.params pool) (pos 5);
    mysql = some s;
    log = m.log ++ calls ++ close_old m.mysql;
  },
  true,
)

abbrev pub is_open : Option ℕ → Bool
is_open none = false
is_open (some s) = true

unfoldable pub connect : (List ℕ → Option ℤ) → Option ℕ → Bool → MySql → MySql × Bool
unfolding mysql_init finish_connect
connect cast handle connects m =
    if is_open m.mysql && not m.has_error
    then (m, true)
    else finish_connect cast (mysql_init m.params 0 handle connects) m

abbrev pub ping_on : Option ℕ → ℕ → MySql → MySql × Bool
ping_on none rt m = (m, false)
ping_on (some s) rt m =
    (record m { has_error = not (rt == 0); log = m.log ++ pinged s ∷ [] }, rt == 0)

unfoldable pub ping : ℕ → MySql → MySql × Bool
ping rt m = ping_on m.mysql rt m

-- `rt` is what `mysql_query` answers.
unfoldable pub execute : List ℕ → ℕ → MySql → Option (MySql × ℕ)
execute sql rt m = m.mysql >>= λ s.
    some
      (record m { cmd = sql; has_error = not (rt == 0); log = m.log ++ queried s sql rt ∷ [] }, rt)

abbrev pub stored : ℕ → Option ℕ → Option ℕ
stored rt res = if rt == 0 then res else none

unfoldable pub my_mysql_query : Option ℕ → List ℕ → ℕ → Option ℕ → Option ℕ × List Call
my_mysql_query none sql rt res = (none, [])
my_mysql_query (some s) sql rt res = (stored rt res, queried s sql rt ∷ [])

-- The stored result with its error number. `res` is what `mysql_store_result` answers.
unfoldable pub query : List ℕ → ℕ → Option ℕ → ℕ → MySql → MySql × Option (ℕ × ℕ)
unfolding my_mysql_query
query sql rt res errno m =
    let (r, calls) = my_mysql_query m.mysql sql rt res in
    let m' : MySql = record m { cmd = sql; log = m.log ++ calls } in
    elim r [
      | none ↦ (record m' { has_error = true }, none)
      | some x ↦ (record m' { has_error = false }, some (x, errno))
    ]

abbrev pub use_on : Option ℕ → List ℕ → Bool → MySql → MySql × Bool
use_on none db selects m = (m, false)
use_on (some s) db selects m = if same m.dbname db then (m, true) else (
  record m {
    dbname = if selects then db else [];
    has_error = not selects;
    log = m.log ++ selected s db selects ∷ [];
  },
  selects,
)

-- `use`; `selects` says whether `mysql_select_db` succeeds.
unfoldable pub use_db : List ℕ → Bool → MySql → MySql × Bool
use_db db selects m = use_on m.mysql db selects m

unfoldable pub get_errno : ℕ → MySql → ℤ
get_errno errno m = elim m.mysql [ none ↦ negsuc 0 | some s ↦ pos errno ]

unfoldable pub get_affected_rows : ℕ → MySql → ℕ
get_affected_rows rows m = elim m.mysql [ none ↦ 0 | some s ↦ rows ]

unfoldable pub get_insert_id : ℕ → MySql → ℕ
get_insert_id id m = elim m.mysql [ none ↦ 0 | some s ↦ id ]

-- Times are in microseconds; `timeDifference` subtracts them as unsigned numbers.
unfoldable pub is_need_check : ℕ → MySql → Bool
is_need_check now m = not (ltb (sub64 now m.last_used) 5000000 && not m.has_error)
