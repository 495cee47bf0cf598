-- ===== src/Db/Mysql/Tests.antt =====
-- Runs of the model at concrete inputs.
use burger.Common.{ℕ, ◌≡◌, ◌≢◌, refl, true, false, Option, none, some, List, [], ◌∷◌, ℤ, pos}
use burger.Db.Mysql.{
  Key, Params, MySql, new_mysql, connect, mysql_init, finish_connect, get_text, get_param_value,
  execute, use_db, is_need_check,
}
use burger.Db.Mysql.Selected.{Op, execute_op, use_op, step, run, current, run-use, connect-stale}

abbrev shop : List ℕ
shop = b's' ∷ b'h' ∷ b'o' ∷ b'p' ∷ []

abbrev logs : List ℕ
logs = b'l' ∷ b'o' ∷ b'g' ∷ b's' ∷ []

abbrev params : Params
params Key.host = some (b'h' ∷ [])
params Key.port = none
params Key.user = none
params Key.passwd = none
params Key.dbname = some shop
params Key.pool = some (b'7' ∷ [])

abbrev seven : List ℕ → Option ℤ
seven text = some (pos 7)

abbrev opened : MySql
opened = (connect seven (some 1) true (new_mysql params 0)).0

opened_pool : opened.pool_size ≡ pos 7
unfolding connect new_mysql mysql_init finish_connect get_param_value
opened_pool = refl

opened_checked : is_need_check 4000000 opened ≡ false
unfolding connect new_mysql mysql_init finish_connect is_need_check
opened_checked = refl

refused : (connect seven (some 1) false (new_mysql params 0)).1 ≡ false
unfolding connect new_mysql mysql_init finish_connect
refused = refl

abbrev ops : List Op
ops = use_op logs true ∷ execute_op shop 0 ∷ []

abbrev result : Option MySql → MySql
result none = opened
result (some m) = m

abbrev worked : MySql
worked = result (run ops opened)

ran : run ops opened ≡ some worked
unfolding run step use_db execute connect new_mysql mysql_init finish_connect
ran = refl

shop-ne-nil : shop ≢ []
shop-ne-nil = λ e. cc

used : (use_db shop true worked).1 ≡ true
unfolding run step use_db execute connect new_mysql mysql_init finish_connect
used = refl

run-use_example : current 1 [] (use_db shop true worked).0.log ≡ shop
run-use_example = run-use seven params 0 1 ops worked shop true shop-ne-nil ran used

connect-stale_example :
    let broken : MySql = record worked { mysql = some 1; has_error = true } in
    let m' = (connect seven (some 2) true broken).0 in
    (use_db worked.dbname false m' ≡ (m', true))
    × (m'.mysql ≡ some 2)
    × (current 2 [] m'.log ≡ get_text worked.params Key.dbname)
connect-stale_example = connect-stale seven worked 1 2 false
