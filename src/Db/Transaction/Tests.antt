-- ===== src/Db/Transaction/Tests.antt =====
-- Runs of the model at concrete inputs.
use burger.Common.{ℕ, ◌≡◌, refl, true, false, Option, none, some, List, [], ◌∷◌, ◌++◌, ◌>>=◌}
use burger.Db.Mysql.{MySql, Params, queried, new_mysql, execute as execute_on}
use burger.Db.Transaction.{
  Transaction, begin_text, rollback_text, new_transaction, execute, begin, commit, rollback,
  destroy, create,
}
use burger.Db.Transaction.Life.{
  Op, statement, commit_op, rollback_op, step, run, Lives, all_answered,
}
use burger.Db.Transaction.Created.{run_create-Lives}
use burger.Db.Transaction.Ended.{live, live-log, calls, ending}

abbrev params : Params
params key = none

abbrev session : MySql
session = record (new_mysql params 0) { mysql = some 4 }

session-open : session.mysql ≡ some 4
session-open = refl

abbrev result : Option (MySql × Option Transaction) → Transaction
result (some (m, some t)) = t
result other = new_transaction session true

abbrev created : Transaction
created = result (create session true 0 0)

abbrev insert_text : List ℕ
insert_text = b'I' ∷ []

abbrev ops : List Op
ops = statement insert_text 0 ∷ commit_op 0 ∷ rollback_op 0 ∷ statement insert_text 0 ∷ []

abbrev last_state : Option Transaction → Transaction
last_state none = created
last_state (some t) = t

abbrev committed : Transaction
committed = last_state (run ops created)

created_lem : create session true 0 0 ≡ some (created.mysql, some created)
unfolding create begin new_transaction execute execute_on new_mysql
created_lem = refl

ran : run ops created ≡ some committed
unfolding run step commit rollback create begin new_transaction execute execute_on new_mysql
ran = refl

run_create-Lives_example : Lives 4 session.log committed
run_create-Lives_example =
    run_create-Lives session created.mysql true 4 0 0 ops created committed session-open created_lem
      ran

-- A commit after the rollback says that it has committed.
rolled_back : (rollback 0 created >>= λ r. commit 1 r.0 >>= λ c. some c.1) ≡ some true
unfolding commit rollback create begin new_transaction execute execute_on new_mysql
rolled_back = refl

-- A transaction that could not begin sends `ROLLBACK` when it is destroyed.
not_begun :
    (create session false 1 0 >>= λ r. some r.0.log)
    ≡ some (queried 4 begin_text 1 ∷ queried 4 rollback_text 0 ∷ [])
unfolding create begin new_transaction execute execute_on new_mysql destroy rollback
not_begun = refl

abbrev inserts : List (List ℕ × ℕ)
inserts = (insert_text, 0) ∷ (insert_text, 3) ∷ []

live-log_example :
    (n : MySql) × (live session true 0 0 inserts ≡ some n)
    × (n.log
        ≡ session.log
          ++ queried 4 begin_text 0 ∷ calls 4 inserts
          ++ ending 4 true (all_answered (calls 4 inserts)) 0)
live-log_example = live-log session true 4 0 inserts session-open
