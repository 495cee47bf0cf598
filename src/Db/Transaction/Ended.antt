-- ===== src/Db/Transaction/Ended.antt =====
-- All that a transaction sends when a caller executes statements in it and lets it go.
use burger.Common.{
  ℕ, pos, ◌≡◌, refl, ap, ◌∙◌, Bool, true, false, not, ◌&&◌, ◌||◌, Option, none, some, List, [], ◌∷◌,
  ◌++◌, append-nil, append_assoc, if◌then◌else◌, ◌==◌, ◌>>=◌, arith,
}
use burger.Db.Mysql.{MySql, Call, queried}
use burger.Db.Transaction.{
  Transaction, begin_text, commit_text, rollback_text, new_transaction, commit, rollback, settle,
  destroy, create,
}
use burger.Db.Transaction.Life.{all_answered, Op, statement, step, run, after, execute-after}
use burger.Db.Transaction.Created.{begun, create-keep}

-- The statements that a caller executes, each with the server's answer.
abbrev pub statements : List (List ℕ × ℕ) → List Op
statements [] = []
statements ((sql, rt) ∷ xs) = statement sql rt ∷ statements xs

abbrev pub calls : ℕ → List (List ℕ × ℕ) → List Call
calls s [] = []
calls s ((sql, rt) ∷ xs) = queried s sql rt ∷ calls s xs

-- Creation, the statements and the destructor, to which the server answers `last`.
unfoldable pub live : MySql → Bool → ℕ → ℕ → List (List ℕ × ℕ) → Option MySql
live m auto rt last xs = create m auto rt last >>= λ r. elim r.1 [
  | none ↦ some r.0
  | some t ↦ run (statements xs) t >>= destroy last
]

-- What the destructor sends to a session on which the statements were answered so.
abbrev pub ending : ℕ → Bool → Bool → ℕ → List Call
ending s auto clean last =
    if auto
    then (if clean then queried s commit_text last ∷ [] else [])
    else queried s rollback_text last ∷ []

-- An open transaction on session `s`.
record Open (s : ℕ) (auto err : Bool) (log : List Call) (t : Transaction) : Type 0 where
  session : t.mysql.mysql ≡ some s
  going : t.is_finished ≡ false
  same_auto : t.auto_commit ≡ auto
  error : t.has_error ≡ err
  same_log : t.mysql.log ≡ log

not-not : (b : Bool) → not (not b) ≡ b
not-not true = refl
not-not false = refl

or_not : (a b c : Bool) → (a || not b || not c) ≡ (a || not (b && c))
or_not true b c = refl
or_not false true c = refl
or_not false false c = refl

run-statements :
    (s : ℕ) (auto err : Bool) (log : List Call) (xs : List (List ℕ × ℕ)) (t : Transaction)
    → Open s auto err log t
    → (u : Transaction) × (run (statements xs) t ≡ some u)
      × Open s auto (err || not (all_answered (calls s xs))) (log ++ calls s xs) u
unfolding run step
run-statements s auto err log [] t o = (t, refl, ground (arith, append-nil log))
run-statements s auto err log ((sql, rt) ∷ xs) t o =
    let (u, e, p) =
      run-statements s auto (err || not (rt == 0)) (log ++ queried s sql rt ∷ []) xs
        (after s sql rt t) (ground arith) in
    (
      u,
      rw (execute-after s [] sql rt t o.going o.session) e,
      record {
        session = p.session;
        going = p.going;
        same_auto = p.same_auto;
        error = p.error ∙ or_not err (rt == 0) (all_answered (calls s xs));
        same_log = p.same_log ∙ append_assoc log (queried s sql rt ∷ []) (calls s xs);
      },
    )

settle-mysql : (t : Transaction) (r : ℕ) → (settle (t, pos r)).0.mysql ≡ t.mysql
settle-mysql t r = ground arith

destroy-ending :
    (s last : ℕ) (auto err : Bool) (log : List Call) (t : Transaction)
    → Open s auto err log t
    → (n : MySql) × (destroy last t ≡ some n) × (n.log ≡ log ++ ending s auto (not err) last)
unfolding destroy commit rollback
destroy-ending s last true true log t o =
    (t.mysql, rw (o.same_auto, o.error, o.going) refl, ground (arith, append-nil log))
destroy-ending s last true false log t o = (
  (after s commit_text last t).mysql,
  ground (
    arith,
    execute-after s [] commit_text last t o.going o.session,
    settle-mysql (after s commit_text last t) last,
  ),
  ap (λ l. l ++ queried s commit_text last ∷ []) o.same_log,
)
destroy-ending s last false err log t o = (
  (after s rollback_text last t).mysql,
  ground (
    arith,
    execute-after s [] rollback_text last t o.going o.session,
    settle-mysql (after s rollback_text last t) last,
  ),
  ap (λ l. l ++ queried s rollback_text last ∷ []) o.same_log,
)

begun-Open :
    (m : MySql) (auto : Bool) (s : ℕ)
    → m.mysql ≡ some s
    → Open s auto false (m.log ++ queried s begin_text 0 ∷ []) (begun m auto s 0)
unfolding begun new_transaction
begun-Open m auto s h = record {
  session = h;
  going = refl;
  same_auto = refl;
  error = refl;
  same_log = refl;
}

live-run :
    (m : MySql) (auto : Bool) (s last : ℕ) (xs : List (List ℕ × ℕ))
    → m.mysql ≡ some s
    → live m auto 0 last xs ≡ (run (statements xs) (begun m auto s 0) >>= destroy last)
unfolding live
live-run m auto s last xs h = rw (create-keep m auto s 0 last h) refl

ending_log :
    (s last : ℕ) (auto : Bool) (start body : List Call) (c : Call)
    → (start ++ c ∷ []) ++ body ++ ending s auto (not (not (all_answered body))) last
      ≡ start ++ c ∷ body ++ ending s auto (all_answered body) last
ending_log s last auto start body c =
    rw (not-not (all_answered body), append_assoc start (c ∷ []) body) refl

-- A transaction that is created on a connected session, given statements and destroyed sends BEGIN
-- and the statements, and then ROLLBACK if it is not to commit by itself, COMMIT if it is and
-- every statement succeeded, and nothing if it is and a statement failed.
pub live-log :
    (m : MySql) (auto : Bool) (s last : ℕ) (xs : List (List ℕ × ℕ))
    → m.mysql ≡ some s
    → (n : MySql) × (live m auto 0 last xs ≡ some n)
      × (n.log
          ≡ m.log
            ++ queried s begin_text 0 ∷ calls s xs
            ++ ending s auto (all_answered (calls s xs)) last)
live-log m auto s last xs h =
    let (u, ran, o) = run-statements s auto false _ xs (begun m auto s 0) (begun-Open m auto s h) in
    let (n, gone, log) = destroy-ending s last auto _ _ u o in
    (
      n,
      live-run m auto s last xs h ∙ ap (λ x. x >>= destroy last) ran ∙ gone,
      log ∙ ending_log s last auto m.log (calls s xs) (queried s begin_text 0),
    )
