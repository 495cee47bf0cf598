-- ===== src/Db/Transaction/Created.antt =====
-- A transaction from its creation on.
use burger.Common.{
  ℕ, ◌≡◌, refl, sym, ap, ◌∙◌, Bool, true, false, some, List, [], append-nil, ◌==◌, ◌>>=◌,
  >>=-eq-some, arith, inl,
}
use mathlib.Core.Path.{subst}
use mathlib.Core.Option.{some-injective}
use burger.Db.Mysql.{MySql}
use burger.Db.Transaction.{Transaction, begin_text, new_transaction, begin, destroy, create, keep}
use burger.Db.Transaction.Life.{Lives, Op, run, after, execute-after, run-Lives}

-- `BEGIN` was the first statement, and the transaction is open.
unfoldable pub begun : MySql → Bool → ℕ → ℕ → Transaction
unfolding new_transaction
begun m auto s rt = after s begin_text rt (new_transaction m auto)

begin-begun :
    (m : MySql) (auto : Bool) (s rt : ℕ)
    → m.mysql ≡ some s
    → begin rt (new_transaction m auto) ≡ some (begun m auto s rt, rt == 0)
unfolding begin begun new_transaction
begin-begun m auto s rt h = rw (execute-after s [] begin_text rt (new_transaction m auto) refl h)

pub begun-Lives :
    (m : MySql) (auto : Bool) (s : ℕ) → m.mysql ≡ some s → Lives s m.log (begun m auto s 0)
unfolding begun new_transaction
begun-Lives m auto s h = record {
  session = h;
  body = [];
  close = [];
  sent = sym (append-nil _);
  errors = refl;
  closed = inl (refl, refl);
}

keep-some :
    (last : ℕ) (t v : Transaction) (b : Bool) (n : MySql)
    → keep last (t, b) ≡ some (n, some v)
    → (b ≡ true) × (t ≡ v)
keep-some last t v true n e = (refl, some-injective t v (ap (λ p. p.1) (some-injective _ _ e)))
keep-some last t v false n e = let (k, a, h) = >>=-eq-some (destroy last t) _ e in cc

pub create-keep :
    (m : MySql) (auto : Bool) (s rt last : ℕ)
    → m.mysql ≡ some s
    → create m auto rt last ≡ keep last (begun m auto s rt, rt == 0)
unfolding create
create-keep m auto s rt last h = ap (λ x. x >>= keep last) (begin-begun m auto s rt h)

create-Lives :
    (m n : MySql) (auto : Bool) (s rt last : ℕ) (t : Transaction)
    → m.mysql ≡ some s
    → create m auto rt last ≡ some (n, some t)
    → Lives s m.log t
create-Lives m n auto s rt last t h e =
    let (ok, made) =
      keep-some last (begun m auto s rt) t (rt == 0) n (sym (create-keep m auto s rt last h) ∙ e) in
    let zeroed : rt ≡ 0 = ground arith in
    subst (Lives s m.log) made
      (subst (λ r. Lives s m.log (begun m auto s r)) (sym zeroed) (begun-Lives m auto s h))

-- Over any statements, commits and rollbacks on a transaction that Create has made, and any
-- answers of the server, the calls since are BEGIN, others, and then at most one COMMIT or
-- ROLLBACK, which succeeded and is there exactly when the transaction is finished; its error flag
-- says whether one of the others failed, and it is clear behind a COMMIT.
pub run_create-Lives :
    (m n : MySql) (auto : Bool) (s rt last : ℕ) (os : List Op) (t u : Transaction)
    → m.mysql ≡ some s
    → create m auto rt last ≡ some (n, some t)
    → run os t ≡ some u
    → Lives s m.log u
run_create-Lives m n auto s rt last os t u h e r =
    run-Lives s m.log os t u r (create-Lives m n auto s rt last t h e)
