-- ===== src/Base/StringUtil/Same.antt =====
-- The equality of texts.
use burger.Common.{ℕ, ◌≡◌, refl, true, List, [], ◌∷◌, ==_refl, arith}
use burger.Base.StringUtil.{same}

pub same→eq : (xs ys : List ℕ) → same xs ys ≡ true → xs ≡ ys
same→eq [] [] h = refl
same→eq [] (y ∷ ys) h = cc
same→eq (x ∷ xs) [] h = cc
same→eq (x ∷ xs) (y ∷ ys) h = ground (arith, same→eq xs ys)

pub same_refl : (xs : List ℕ) → same xs xs ≡ true
same_refl [] = refl
same_refl (x ∷ xs) = rw (==_refl x) (same_refl xs)
