-- ===== src/Db/Transaction.antt =====
-- burger/db/MysqlTransaction.h and burger/db/MysqlTransaction.cc: a transaction on a session. What the server
-- answers to each statement is an argument; `none` is a session that is not connected.
pub mod Created
pub mod Ended
pub mod Life
mod Tests
use burger.Common.{
  ℕ, Bool, true, false, not, ◌||◌, Option, none, some, List, [], ◌∷◌, if◌then◌else◌, ◌==◌, ◌>>=◌, ℤ,
  pos, negsuc,
}
use burger.Db.Mysql.{MySql, execute as execute_on}

pub record Transaction : Type 0 where
  pub mysql : MySql
  pub auto_commit : Bool
  pub is_finished : Bool
  pub has_error : Bool

abbrev pub begin_text : List ℕ
begin_text = b'B' ∷ b'E' ∷ b'G' ∷ b'I' ∷ b'N' ∷ []

abbrev pub commit_text : List ℕ
commit_text = b'C' ∷ b'O' ∷ b'M' ∷ b'M' ∷ b'I' ∷ b'T' ∷ []

abbrev pub rollback_text : List ℕ
rollback_text = b'R' ∷ b'O' ∷ b'L' ∷ b'L' ∷ b'B' ∷ b'A' ∷ b'C' ∷ b'K' ∷ []

abbrev pub is_zero : ℤ → Bool
is_zero (pos n) = n == 0
is_zero (negsuc n) = false

unfoldable pub new_transaction : MySql → Bool → Transaction
new_transaction m auto = record {
  mysql = m;
  auto_commit = auto;
  is_finished = false;
  has_error = false;
}

unfoldable pub execute : List ℕ → ℕ → Transaction → Option (Transaction × ℤ)
unfolding execute_on
execute sql rt t =
    if t.is_finished
    then some (t, negsuc 0)
    else (execute_on sql rt t.mysql >>= λ r.
        some
          (record t { mysql = r.0; has_error = if r.1 == 0 then t.has_error else true }, pos r.1))

unfoldable pub begin : ℕ → Transaction → Option (Transaction × Bool)
unfolding execute
begin rt t = execute begin_text rt t >>= λ r. some (r.0, is_zero r.1)

-- What `commit` and `rollback` do with the answer.
abbrev pub settle : Transaction × ℤ → Transaction × Bool
settle (t, r) =
    if is_zero r
    then (record t { is_finished = true }, true)
    else (record t { has_error = true }, false)

unfoldable pub commit : ℕ → Transaction → Option (Transaction × Bool)
unfolding execute
commit rt t =
    if t.is_finished || t.has_error
    then some (t, not t.has_error)
    else (execute commit_text rt t >>= λ r. some (settle r))

unfoldable pub rollback : ℕ → Transaction → Option (Transaction × Bool)
unfolding execute
rollback rt t =
    if t.is_finished then some (t, true) else (execute rollback_text rt t >>= λ r. some (settle r))

-- The destructor.
unfoldable pub destroy : ℕ → Transaction → Option MySql
unfolding commit rollback
destroy rt t = (if t.auto_commit then commit rt t else rollback rt t) >>= λ r. some r.0.mysql

-- A transaction that does not begin is destroyed, with the server's answer `last` to that.
abbrev pub keep : ℕ → Transaction × Bool → Option (MySql × Option Transaction)
keep last (t, true) = some (t.mysql, some t)
keep last (t, false) = destroy last t >>= λ m. some (m, none)

unfoldable pub create : MySql → Bool → ℕ → ℕ → Option (MySql × Option Transaction)
unfolding begin new_transaction destroy
create m auto rt last = begin rt (new_transaction m auto) >>= keep last
