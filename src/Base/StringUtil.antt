-- ===== src/Base/StringUtil.antt =====
-- burger/base/StringUtil.cc: texts cut at a separator or at white space. Texts are shorter than 2 ^ 63, so no
-- index wraps. The loops are on fuel; `none` is a loop that runs out of it.
pub mod Join
pub mod Same
mod Tests
use burger.Common.{
  ℕ, zero, suc, ◌+◌, ◌-◌, ◌≤◌, ◌^◌, Bool, true, false, not, ◌&&◌, ◌||◌, Option, none, some, List,
  [], ◌∷◌, ◌++◌, if◌then◌else◌, leb, ltb, ◌==◌, length, take, drop, slice, ℤ, pos, negsuc,
}

abbrev pub max_32bit_int : ℕ
max_32bit_int = 2147483647

abbrev pub same : List ℕ → List ℕ → Bool
same [] [] = true
same [] (y ∷ ys) = false
same (x ∷ xs) [] = false
same (x ∷ xs) (y ∷ ys) = x == y && same xs ys

-- A negative bound is none.
abbrev pub bound : ℤ → ℕ
bound (pos n) = n
bound (negsuc n) = max_32bit_int

-- The rounds of `split` from the indices `i` and `j` on; `maxsplit` parts may still be cut off.
unfoldable pub split_loop : ℕ → List ℕ → List ℕ → ℕ → ℕ → ℕ → List (List ℕ) → Option (List (List ℕ))
split_loop zero str sep i j maxsplit result = none
split_loop (suc fuel) str sep i j maxsplit result =
    let n = length sep in
    let cut =
      split_loop fuel str sep (i + n) (i + n) (maxsplit - 1) (result ++ slice str j (i - j) ∷ []) in
    let next = split_loop fuel str sep (i + 1) j maxsplit result in
    let last = some (result ++ drop j str ∷ []) in
    if leb (i + n) (length str)
    then (if same (slice str i n) sep then (if leb maxsplit 0 then last else cut) else next)
    else last

-- `isspace` in the C locale.
abbrev pub is_space : ℕ → Bool
is_space c = c == 32 || (leb 9 c && leb c 13)

-- The first part of a text that satisfies a test, and the rest.
unfoldable pub span : (ℕ → Bool) → List ℕ → List ℕ × List ℕ
span test [] = ([], [])
span test (c ∷ cs) =
    let (front, rest) = span test cs in if test c then (c ∷ front, rest) else ([], c ∷ cs)

abbrev pub rest_of : (ℕ → Bool) → List ℕ → List ℕ
rest_of test text = (span test text).1

abbrev pub front_of : (ℕ → Bool) → List ℕ → List ℕ
front_of test text = (span test text).0

abbrev pub keep_last : List ℕ → List (List ℕ) → List (List ℕ)
keep_last [] result = result
keep_last (c ∷ cs) result = result ++ (c ∷ cs) ∷ []

-- `text` is the part of the string from index `i` on. After a cut the white space behind a word is
-- skipped; when no cut is left the rest, from the word on, is the last part.
unfoldable pub split_words : ℕ → List ℕ → ℕ → List (List ℕ) → Option (List (List ℕ))
unfolding span
split_words zero text maxsplit result = none
split_words (suc fuel) [] maxsplit result = some result
split_words (suc fuel) (c ∷ cs) maxsplit result =
    let start = rest_of is_space (c ∷ cs) in
    let word = front_of (λ d. not (is_space d)) start in
    let behind = rest_of is_space (rest_of (λ d. not (is_space d)) start) in
    let later = split_words fuel behind (maxsplit - 1) (result ++ word ∷ []) in
    if ltb 0 (length word)
    then (if leb maxsplit 0 then some (keep_last start result) else later)
    else some (keep_last start result)

unfoldable pub split_whitespace : List ℕ → ℕ → Option (List (List ℕ))
unfolding split_words
split_whitespace str maxsplit = split_words (length str + 1) str maxsplit []

abbrev pub split_at : List ℕ → List ℕ → ℕ → Option (List (List ℕ))
split_at str [] maxsplit = split_whitespace str maxsplit
split_at str (c ∷ cs) maxsplit = split_loop (length str + 1) str (c ∷ cs) 0 0 maxsplit []

unfoldable pub split : List ℕ → List ℕ → ℤ → Option (List (List ℕ))
unfolding split_loop split_whitespace
split str sep maxsplit = split_at str sep (bound maxsplit)
