-- ===== src/Db/Res/Rows.antt =====
-- The rows that a callback sees.
use burger.Common.{
  ℕ, suc, ◌≡◌, refl, ◌∙◌, Bool, List, [], ◌∷◌, ◌++◌, append_assoc, Bool-cases, inl, inr,
}
use burger.Db.Res.{Row, Res, foreach_rows, foreach}

-- A callback that also notes its rows.
abbrev pub noting :
    {S : Type 0} → (Row → ℕ → ℕ → S → Bool × S) → Row → ℕ → ℕ → S × List Row → Bool × (S × List Row)
noting cb row columns i (s, seen) =
    let (more, s') = cb row columns i s in (more, (s', seen ++ row ∷ []))

foreach_rows-seen :
    {S : Type 0} (cb : Row → ℕ → ℕ → S → Bool × S) (columns i : ℕ) (rows : List Row) (s : S)
    (seen : List Row)
    → let out = foreach_rows (noting cb) columns i rows (s, seen) in out.1.1 ++ out.0 ≡ seen ++ rows
unfolding foreach_rows
foreach_rows-seen cb columns i [] s seen = refl
foreach_rows-seen cb columns i (row ∷ rows) s seen = elim (Bool-cases (cb row columns i s).0) [
  | inl e ↦ rw e (
      foreach_rows-seen cb columns (suc i) rows (cb row columns i s).1 (seen ++ row ∷ [])
      ∙ append_assoc seen (row ∷ []) rows)
  | inr e ↦ rw e (append_assoc seen (row ∷ []) rows)
]

-- No row is lost or doubled between those that a callback sees and those that are left.
pub foreach-seen :
    {S : Type 0} (cb : Row → ℕ → ℕ → S → Bool × S) (r : Res) (s : S)
    → let out = foreach (noting cb) r (s, []) in out.2.1 ++ out.1.rows ≡ r.rows
unfolding foreach
foreach-seen cb r s = foreach_rows-seen cb r.column_count 0 r.rows s []
