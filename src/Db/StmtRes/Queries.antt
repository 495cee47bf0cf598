-- ===== src/Db/StmtRes/Queries.antt =====
-- Whether a query runs its statement.
use burger.Common.{
  ℕ, ◌+◌, ◌≡◌, Bool, true, false, ◌&&◌, Option, none, some, List, [], ◌∷◌, ◌++◌, map, if◌then◌else◌,
  ◌==◌, arith,
}
use burger.Db.Stmt.{Stmt, Call, executed, metadata_asked, result_bound, result_stored, params_bound}
use burger.Db.Stmt.Calls.{execute}
use burger.Db.StmtRes.{Answers, Field, column_for, bind_of, create_with, create, query, note}

abbrev pub is_executed : Call → ℕ
is_executed executed = 1
is_executed c = 0

-- How often a statement was executed.
pub executions : List Call → ℕ
executions [] = 0
executions (c ∷ cs) = is_executed c + executions cs

pub executions-append : (cs ds : List Call) → executions (cs ++ ds) ≡ executions cs + executions ds
unfolding executions
executions-append [] ds = omega arith
executions-append (c ∷ cs) ds = omega (arith, executions-append cs ds)

abbrev pub has_meta : Option (List Field) → Bool
has_meta none = false
has_meta (some fields) = true

create_with-executions :
    (fill time_size : ℕ) (a : Answers) (m : Option (List Field)) (s : Stmt)
    → executions (create_with fill time_size a m s).1.log
      ≡ executions s.log + (if has_meta m && a.bind_rt == 0 then 1 else 0)
unfolding create_with execute executions
create_with-executions fill time_size a none s = omega arith
create_with-executions fill time_size a (some fields) s =
    let b : Call = result_bound (map bind_of (map (column_for fill time_size) fields)) in
    let l1 : List Call = s.log ++ b ∷ [] in
    let l2 : List Call = l1 ++ params_bound s.binds ∷ executed ∷ [] in
    ground (
      arith,
      executions-append s.log (b ∷ []),
      executions-append l1 (params_bound s.binds ∷ executed ∷ []),
      executions-append l2 (result_stored ∷ []),
    )

-- Over any answers of the library, a query executes its statement exactly once when no error is
-- pending, the statement has a result set and the binding of its columns succeeds, and else not at
-- all.
pub query-executions :
    (fill time_size : ℕ) (a : Answers) (s : Stmt)
    → executions (query fill time_size a s).1.log
      ≡ executions s.log + (if a.errno == 0 && has_meta a.meta && a.bind_rt == 0 then 1 else 0)
unfolding query create executions
query-executions fill time_size a s =
    let l1 : List Call = s.log ++ params_bound s.binds ∷ [] in
    ground (
      arith,
      executions-append s.log (params_bound s.binds ∷ []),
      executions-append l1 (metadata_asked ∷ []),
      create_with-executions fill time_size a a.meta
          (note metadata_asked (note (params_bound s.binds) s)),
    )
