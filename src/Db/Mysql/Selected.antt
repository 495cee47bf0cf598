-- ===== src/Db/Mysql/Selected.antt =====
-- Which database a session works on, as its calls tell, and what `use` says of it.
use burger.Common.{
  ℕ, ◌≡◌, ◌≢◌, refl, sym, Bool, true, false, Option, some, List, [], ◌∷◌, ◌++◌, if◌then◌else◌, ◌==◌,
  ==_refl, ◌>>=◌, >>=-eq-some, arith, ℤ, ◌∙◌,
}
use mathlib.Core.Path.{subst}
use burger.Base.StringUtil.Same.{same→eq, same_refl}
use burger.Db.Mysql.{
  Key, Params, Call, connected, closed, pinged, queried, selected, MySql, new_mysql, connect,
  mysql_init, finish_connect, ping, execute, query, my_mysql_query, use_db, get_text,
}

-- The database of session `s` after one more call.
abbrev pub after : ℕ → List ℕ → Call → List ℕ
after s db (connected t d) = if s == t then d else db
after s db (selected t d true) = if s == t then d else db
after s db call = db

pub current : ℕ → List ℕ → List Call → List ℕ
current s db [] = db
current s db (c ∷ cs) = current s (after s db c) cs

pub current-append :
    (s : ℕ) (db : List ℕ) (cs ds : List Call)
    → current s db (cs ++ ds) ≡ current s (current s db cs) ds
unfolding current
current-append s db [] ds = refl
current-append s db (c ∷ cs) ds = current-append s (after s db c) cs ds

-- The calls that do not replace the session.
pub data Op : Type 0 where
  ping_op : ℕ → Op
  execute_op : List ℕ → ℕ → Op
  query_op : List ℕ → ℕ → Option ℕ → ℕ → Op
  use_op : List ℕ → Bool → Op

unfoldable pub step : Op → MySql → Option MySql
step (ping_op rt) m = some (ping rt m).0
step (execute_op sql rt) m = execute sql rt m >>= λ r. some r.0
step (query_op sql rt res errno) m = some (query sql rt res errno m).0
step (use_op db selects) m = some (use_db db selects m).0

unfoldable pub run : List Op → MySql → Option MySql
run [] m = some m
run (o ∷ os) m = step o m >>= run os

-- A database that the object remembers is the one that its session works on.
pub record Remembers (s : ℕ) (m : MySql) : Type 0 where
  pub session : m.mysql ≡ some s
  pub remembered : m.dbname ≢ [] → current s [] m.log ≡ m.dbname

current-snoc :
    (s : ℕ) (cs : List Call) (c : Call) → current s [] (cs ++ c ∷ []) ≡ after s (current s [] cs) c
unfolding current
current-snoc s cs c = current-append s [] cs (c ∷ [])

ping-Remembers : (s rt : ℕ) (m : MySql) → Remembers s m → Remembers s (ping rt m).0
unfolding ping
ping-Remembers s rt m h = ground (arith, current-snoc s m.log (pinged s))

execute-Remembers :
    (s : ℕ) (sql : List ℕ) (rt : ℕ) (m n : MySql)
    → step (execute_op sql rt) m ≡ some n
    → Remembers s m
    → Remembers s n
unfolding step execute
execute-Remembers s sql rt m n e h = ground (arith, current-snoc s m.log (queried s sql rt))

query-Remembers :
    (s : ℕ) (sql : List ℕ) (rt : ℕ) (res : Option ℕ) (errno : ℕ) (m : MySql)
    → Remembers s m
    → Remembers s (query sql rt res errno m).0
unfolding query my_mysql_query
query-Remembers s sql rt res errno m h = ground (arith, current-snoc s m.log (queried s sql rt))

use-Remembers :
    (s : ℕ) (db : List ℕ) (selects : Bool) (m : MySql)
    → Remembers s m
    → Remembers s (use_db db selects m).0
unfolding use_db
use-Remembers s db true m h = ground (arith, current-snoc s m.log (selected s db true), ==_refl s)
use-Remembers s db false m h = ground (arith, current-snoc s m.log (selected s db false))

step-Remembers : (s : ℕ) (o : Op) (m n : MySql) → step o m ≡ some n → Remembers s m → Remembers s n
unfolding step
step-Remembers s (ping_op rt) m n e h = ground (arith, ping-Remembers s rt m h)
step-Remembers s (execute_op sql rt) m n e h = execute-Remembers s sql rt m n e h
step-Remembers s (query_op sql rt res errno) m n e h =
    ground (arith, query-Remembers s sql rt res errno m h)
step-Remembers s (use_op db selects) m n e h = ground (arith, use-Remembers s db selects m h)

run-Remembers :
    (s : ℕ) (os : List Op) (m n : MySql) → run os m ≡ some n → Remembers s m → Remembers s n
unfolding run
run-Remembers s [] m n e h = ground arith
run-Remembers s (o ∷ os) m n e h =
    let (k, e', r) = >>=-eq-some (step o m) (run os) e in
    run-Remembers s os k n r (step-Remembers s o m k e' h)

use-dbname :
    (s : ℕ) (db : List ℕ) (selects : Bool) (m : MySql)
    → m.mysql ≡ some s
    → (use_db db selects m).1 ≡ true
    → (use_db db selects m).0.dbname ≡ db
unfolding use_db
use-dbname s db selects m e u = ground (arith, same→eq m.dbname db)

connect-Remembers :
    (cast : List ℕ → Option ℤ) (params : Params) (now s : ℕ)
    → Remembers s (connect cast (some s) true (new_mysql params now)).0
unfolding connect new_mysql mysql_init finish_connect
connect-Remembers cast params now s = record { session = refl; remembered = λ ne. absurd (ne refl) }

-- After the first connect of a session and any calls but a further connect, when use of a database
-- whose name is not empty returns true, that database is the one that the calls on the session
-- connected to or selected last.
pub run-use :
    (cast : List ℕ → Option ℤ) (params : Params) (now s : ℕ) (os : List Op) (m : MySql)
    (db : List ℕ) (selects : Bool)
    → db ≢ []
    → run os (connect cast (some s) true (new_mysql params now)).0 ≡ some m
    → (use_db db selects m).1 ≡ true
    → current s [] (use_db db selects m).0.log ≡ db
run-use cast params now s os m db selects ne e u =
    let r = run-Remembers s os _ m e (connect-Remembers cast params now s) in
    let d = use-dbname s db selects m r.session u in
    (use-Remembers s db selects m r).remembered (subst (λ x. x ≢ []) (sym d) ne) ∙ d

connected_calls :
    (s : ℕ) (params : Params) (old : List Call)
    → current s [] (old ++ (mysql_init params 0 (some s) true).1) ≡ get_text params Key.dbname
unfolding mysql_init current
connected_calls s params old =
    rw (current-append s [] old (mysql_init params 0 (some s) true).1, ==_refl s)

-- When a session with an error is connected anew, use of the database that the old session had
-- selected returns true without a call of the library, and the new session works on the database
-- of the parameters.
pub connect-stale :
    (cast : List ℕ → Option ℤ) (m : MySql) (old s : ℕ) (selects : Bool)
    → let broken : MySql = record m { mysql = some old; has_error = true } in
      let m' = (connect cast (some s) true broken).0 in
      (use_db m.dbname selects m' ≡ (m', true))
      × (m'.mysql ≡ some s)
      × (current s [] m'.log ≡ get_text m.params Key.dbname)
unfolding use_db connect mysql_init finish_connect current
connect-stale cast m old s selects = (
  rw (same_refl m.dbname),
  refl,
  current-append s [] (m.log ++ (mysql_init m.params 0 (some s) true).1) (closed old ∷ [])
      ∙ connected_calls s m.params m.log,
)
