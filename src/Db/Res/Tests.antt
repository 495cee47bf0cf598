-- ===== src/Db/Res/Tests.antt =====
-- Runs of the model at concrete inputs.
use burger.Common.{ℕ, ◌≡◌, refl, Bool, none, some, [], ◌∷◌, ◌>>=◌, ltb, suc}
use burger.Db.Res.{
  Row, Res, new_res, next, foreach, foreach_rows, get_column_name, get_string, get_int,
  str_to_int64,
}

abbrev row : ℕ → Row
row n = some (n ∷ []) ∷ none ∷ []

abbrev res : Res
res = new_res 0 (row 1 ∷ row 2 ∷ row 3 ∷ []) ((b'a' ∷ []) ∷ (b'b' ∷ []) ∷ [])

-- A name past the last column is empty the first time, and outside the vector the second time.
name_first : (get_column_name 2 res >>= λ r. some r.0) ≡ some []
unfolding get_column_name new_res
name_first = refl

name_again : (get_column_name 2 res >>= λ r. get_column_name 2 r.1 >>= λ s. some s.0) ≡ none
unfolding get_column_name new_res
name_again = refl

second_text : get_string 0 (next (next res).1).1 ≡ some (2 ∷ [])
unfolding get_string next new_res
second_text = refl

null_int : get_int (λ text. 9) 1 (next res).1 ≡ some 0
unfolding get_int str_to_int64 next new_res
null_int = refl

-- A callback that stops at the row with number 1.
abbrev until_one : Row → ℕ → ℕ → ℕ → Bool × ℕ
until_one r columns i calls = (ltb i 1, suc calls)

stopped : (foreach until_one res 0).2 ≡ 2
unfolding foreach foreach_rows new_res
stopped = refl
