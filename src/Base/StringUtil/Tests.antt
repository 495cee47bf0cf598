-- ===== src/Base/StringUtil/Tests.antt =====
-- Texts that are cut, and the theorem at one.
use burger.Common.{◌≡◌, refl, some, List, [], ◌∷◌, ◌++◌, arith, ℕ, pos, negsuc}
use burger.Base.StringUtil.{split, split_loop, split_whitespace, split_words, span}
use burger.Base.StringUtil.Join.{Parts, join-split}

abbrev text : List ℕ
text = b'a' ∷ b',' ∷ b',' ∷ b'b' ∷ b',' ∷ b'c' ∷ []

cut_once : split text (b',' ∷ []) (pos 2) ≡ some ((b'a' ∷ []) ∷ [] ∷ (b'b' ∷ b',' ∷ b'c' ∷ []) ∷ [])
unfolding split split_loop
cut_once = refl

cut_words :
    split (b' ' ∷ b'a' ∷ b' ' ∷ b' ' ∷ b'b' ∷ b' ' ∷ []) [] (negsuc 0)
    ≡ some ((b'a' ∷ []) ∷ (b'b' ∷ []) ∷ [])
unfolding split split_whitespace split_words span
cut_words = refl

-- The last separator is at the end, and one cut is left over.
join-split_example :
    Parts (split (text ++ b',' ∷ []) (b',' ∷ []) (pos 5)) (text ++ b',' ∷ []) (b',' ∷ []) 5
join-split_example = join-split (text ++ b',' ∷ []) (b',' ∷ []) (pos 5) (omega arith)
