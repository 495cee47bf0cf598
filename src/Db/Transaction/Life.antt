-- ===== src/Db/Transaction/Life.antt =====
-- What a transaction has sent to its session, over any calls and answers.
use burger.Common.{
  ℕ, zero, suc, ℤ, pos, ◌||◌, ◌≡◌, refl, ap, Bool, true, false, not, ◌&&◌, Option, some, List, [],
  ◌∷◌, ◌++◌, append_assoc, append-nil, if◌then◌else◌, ◌==◌, ◌>>=◌, >>=-eq-some, arith, ◌⊎◌, inl,
  inr, Bool-cases,
}
use mathlib.Core.Path.{subst}
use mathlib.Core.Option.{some-injective}
use burger.Db.Mysql.{Call, queried, execute as execute_on}
use burger.Db.Transaction.{
  Transaction, begin_text, commit_text, rollback_text, execute, commit, rollback, settle,
}

-- A statement that a caller executes, with the server's answer.
abbrev pub answered : Call → Bool
answered (queried s sql rt) = rt == 0
answered call = false

abbrev pub all_answered : List Call → Bool
all_answered [] = true
all_answered (c ∷ cs) = answered c && all_answered cs

all_answered-snoc :
    (cs : List Call) (c : Call) → all_answered (cs ++ c ∷ []) ≡ (all_answered cs && answered c)
all_answered-snoc [] c = ground arith
all_answered-snoc (d ∷ cs) c = ground (arith, all_answered-snoc cs c)

-- How a transaction stands after the calls `close`, which end it.
abbrev pub Closed : ℕ → Transaction → List Call → Type 0
Closed s t close =
    ((t.is_finished ≡ false) × (close ≡ []))
    ⊎ (((t.is_finished ≡ true) × (t.has_error ≡ false) × (close ≡ queried s commit_text 0 ∷ []))
        ⊎ ((t.is_finished ≡ true) × (close ≡ queried s rollback_text 0 ∷ [])))

-- The calls since the log `start`: `BEGIN`, the `body`, and at most one call that ends it.
pub record Lives (s : ℕ) (start : List Call) (t : Transaction) : Type 0 where
  pub session : t.mysql.mysql ≡ some s
  pub body : List Call
  pub close : List Call
  pub sent : t.mysql.log ≡ (start ++ queried s begin_text 0 ∷ body) ++ close
  pub errors : t.has_error ≡ not (all_answered body)
  pub closed : Closed s t close

pub data Op : Type 0 where
  statement : List ℕ → ℕ → Op
  commit_op rollback_op : ℕ → Op

unfoldable pub step : Op → Transaction → Option Transaction
step (statement sql rt) t = execute sql rt t >>= λ r. some r.0
step (commit_op rt) t = commit rt t >>= λ r. some r.0
step (rollback_op rt) t = rollback rt t >>= λ r. some r.0

unfoldable pub run : List Op → Transaction → Option Transaction
run [] t = some t
run (o ∷ os) t = step o t >>= run os

-- The transaction after a statement that reaches the server.
abbrev pub after : ℕ → List ℕ → ℕ → Transaction → Transaction
after s sql rt t = record t {
  mysql = record t.mysql {
    cmd = sql;
    has_error = not (rt == 0);
    log = t.mysql.log ++ queried s sql rt ∷ [];
  };
  has_error = if rt == 0 then t.has_error else true;
}

module _ (s : ℕ) (start : List Call) where
  is_open-close :
      (t : Transaction) (close : List Call) → t.is_finished ≡ false → Closed s t close → close ≡ []
  is_open-close t close f c = ground arith

  after-Lives :
      (sql : List ℕ) (rt : ℕ) (t : Transaction)
      → t.is_finished ≡ false
      → Lives s start t
      → Lives s start (after s sql rt t)
  after-Lives sql rt t f l =
      let nil : l.close ≡ [] = is_open-close t l.close f l.closed in
      record {
        session = l.session;
        body = l.body ++ queried s sql rt ∷ [];
        close = [];
        sent = simp (l.sent, nil, append-nil, append_assoc);
        errors = ground (arith, all_answered-snoc l.body (queried s sql rt), l.errors);
        closed = inl (f, refl);
      }

  ended-Lives :
      (sql : List ℕ) (t : Transaction)
      → t.is_finished ≡ false
      → (sql ≡ rollback_text) ⊎ ((sql ≡ commit_text) × (t.has_error ≡ false))
      → Lives s start t
      → Lives s start (record (after s sql 0 t) { is_finished = true })
  ended-Lives sql t f e l =
      let nil : l.close ≡ [] = is_open-close t l.close f l.closed in
      record {
        session = l.session;
        body = l.body;
        close = queried s sql 0 ∷ [];
        sent = simp (l.sent, nil, append-nil, append_assoc);
        errors = l.errors;
        closed = elim e [
          | inl r ↦ inr (inr (refl, ap (λ x. queried s x 0 ∷ []) r))
          | inr (c, h) ↦ inr (inl (refl, h, ap (λ x. queried s x 0 ∷ []) c))
        ];
      }

  pub execute-after :
      (sql : List ℕ) (rt : ℕ) (t : Transaction)
      → t.is_finished ≡ false
      → t.mysql.mysql ≡ some s
      → execute sql rt t ≡ some (after s sql rt t, pos rt)
  unfolding execute execute_on
  execute-after sql rt t f e = ground arith

  -- What `commit` and `rollback` leave when they send their text.
  settle-Lives :
      (sql : List ℕ) (rt : ℕ) (t : Transaction)
      → t.is_finished ≡ false
      → (sql ≡ rollback_text) ⊎ ((sql ≡ commit_text) × (t.has_error ≡ false))
      → Lives s start t
      → Lives s start (settle (after s sql rt t, pos rt)).0
  settle-Lives sql zero t f e l = ended-Lives sql t f e l
  settle-Lives sql (suc rt) t f e l =
      subst (Lives s start) (ground arith) (after-Lives sql (suc rt) t f l)

  execute-Lives :
      (sql : List ℕ) (rt : ℕ) (t u : Transaction) (r : ℤ)
      → execute sql rt t ≡ some (u, r)
      → Lives s start t
      → Lives s start u
  unfolding execute
  execute-Lives sql rt t u r e l = elim (Bool-cases t.is_finished) [
    | inl f ↦ subst (Lives s start) (ground arith) l
    | inr f ↦
        subst (Lives s start) (ground (arith, execute-after sql rt t f l.session))
          (after-Lives sql rt t f l)
  ]

  commit-Lives :
      (rt : ℕ) (t u : Transaction) (b : Bool)
      → commit rt t ≡ some (u, b)
      → Lives s start t
      → Lives s start u
  unfolding commit
  commit-Lives rt t u b e l = elim (Bool-cases (t.is_finished || t.has_error)) [
    | inl f ↦ subst (Lives s start) (ground arith) l
    | inr f ↦
        subst (Lives s start)
          (ground (arith, execute-after commit_text rt t (ground arith) l.session))
          (settle-Lives commit_text rt t (ground arith) (inr (refl, ground arith)) l)
  ]

  rollback-Lives :
      (rt : ℕ) (t u : Transaction) (b : Bool)
      → rollback rt t ≡ some (u, b)
      → Lives s start t
      → Lives s start u
  unfolding rollback
  rollback-Lives rt t u b e l = elim (Bool-cases t.is_finished) [
    | inl f ↦ subst (Lives s start) (ground arith) l
    | inr f ↦
        subst (Lives s start) (ground (arith, execute-after rollback_text rt t f l.session))
          (settle-Lives rollback_text rt t f (inl refl) l)
  ]

  step-Lives : (o : Op) (t u : Transaction) → step o t ≡ some u → Lives s start t → Lives s start u
  unfolding step
  step-Lives (statement sql rt) t u e l =
      let ((v, r), e', h) = >>=-eq-some (execute sql rt t) _ e in
      subst (Lives s start) (some-injective _ _ h) (execute-Lives sql rt t v r e' l)
  step-Lives (commit_op rt) t u e l =
      let ((v, r), e', h) = >>=-eq-some (commit rt t) _ e in
      subst (Lives s start) (some-injective _ _ h) (commit-Lives rt t v r e' l)
  step-Lives (rollback_op rt) t u e l =
      let ((v, r), e', h) = >>=-eq-some (rollback rt t) _ e in
      subst (Lives s start) (some-injective _ _ h) (rollback-Lives rt t v r e' l)

  pub run-Lives :
      (os : List Op) (t u : Transaction) → run os t ≡ some u → Lives s start t → Lives s start u
  unfolding run
  run-Lives [] t u e l = subst (Lives s start) (some-injective _ _ e) l
  run-Lives (o ∷ os) t u e l =
      let (v, e', h) = >>=-eq-some (step o t) (run os) e in
      run-Lives os v u h (step-Lives o t v e' l)
