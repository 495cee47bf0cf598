-- ===== src/Db/StmtRes/Tests.antt =====
-- Runs of the model at concrete inputs.
use burger.Common.{◌≡◌, refl, none, some, List, [], ◌∷◌, ◌+◌, if◌then◌else◌, ◌==◌, ◌&&◌, ◌-◌, ◌^◌}
use burger.Db.Bind.{long, string}
use burger.Db.Stmt.{Stmt}
use burger.Db.StmtRes.{Answers, Field, query, get_data_count, create, create_with}
use burger.Db.StmtRes.Queries.{executions, has_meta, query-executions}

abbrev fields : List Field
fields = record { type = long; longest = 11 } ∷ record { type = string; longest = 3 } ∷ []

abbrev answers : Answers
answers = record {
  errno = 0;
  meta = some fields;
  meta_errno = 0;
  bind_rt = 0;
  bind_errno = 0;
  execute_rt = 0;
  store_rt = 0;
  store_errno = 0;
}

abbrev stmt : Stmt
stmt = record { binds = []; heap = record { mallocs = 0; frees = 0 }; log = [] }

-- A statement without a result set does not run, and no error is told.
no_result_set : (query 7 40 (record answers { meta = none }) stmt).0.errno ≡ 0
unfolding query create create_with
no_result_set = refl

many_rows : get_data_count (2 ^ 31) ≡ 2 ^ 64 - 2 ^ 31
unfolding get_data_count
many_rows = refl

query-executions_example :
    executions (query 7 40 answers stmt).1.log
    ≡ executions stmt.log
      + (if answers.errno == 0 && has_meta answers.meta && answers.bind_rt == 0 then 1 else 0)
query-executions_example = query-executions 7 40 answers stmt
