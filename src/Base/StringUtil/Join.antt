-- ===== src/Base/StringUtil/Join.antt =====
-- burger/base/StringUtil.cc: the parts of `split`, with the separator between them, are the text.
use burger.Common.{
  ℕ, zero, suc, ◌+◌, ◌-◌, ◌≤◌, ◌<◌, ◌≡◌, ◌≢◌, refl, sym, ap, ◌∙◌, Option, some, List, [], ◌∷◌, ◌++◌,
  false, ◌==◌, leb, length, take, drop, slice, ℤ, pos, negsuc, length-take, length-drop, drop-slice,
  take-slice, arith, append_assoc, append-nil, Bool-cases, inl, inr, take-append-drop, drop-drop,
  length-append, leb→le, leb_false→lt,
}
use burger.Base.StringUtil.{same, split_loop, split}
use burger.Base.StringUtil.Same.{same_refl, same→eq}

abbrev pub join : List ℕ → List (List ℕ) → List ℕ
join sep [] = []
join sep (p ∷ []) = p
join sep (p ∷ q ∷ ps) = p ++ sep ++ join sep (q ∷ ps)

-- Each part with the separator behind it.
abbrev glue : List ℕ → List (List ℕ) → List ℕ
glue sep [] = []
glue sep (p ∷ ps) = p ++ (sep ++ glue sep ps)

join-glue :
    (sep last : List ℕ) (ps : List (List ℕ)) → join sep (ps ++ last ∷ []) ≡ glue sep ps ++ last
join-glue sep last [] = refl
join-glue sep last (p ∷ []) = ap (λ l. (p ++ l) ++ last) (sym (append-nil sep))
join-glue sep last (p ∷ q ∷ ps) =
    let g = glue sep (q ∷ ps) in
    ap (λ l. (p ++ sep) ++ l) (join-glue sep last (q ∷ ps))
    ∙ sym (append_assoc (p ++ sep) g last)
    ∙ ap (λ l. l ++ last) (append_assoc p sep g)

glue-append :
    (sep p : List ℕ) (ps : List (List ℕ)) → glue sep (ps ++ p ∷ []) ≡ glue sep ps ++ (p ++ sep)
glue-append sep p [] = ap (λ l. p ++ l) (append-nil sep)
glue-append sep p (q ∷ ps) =
    let g = glue sep ps in
    ap (λ l. q ++ (sep ++ l)) (glue-append sep p ps)
    ∙ ap (λ l. q ++ l) (sym (append_assoc sep g (p ++ sep)))
    ∙ sym (append_assoc q (sep ++ g) (p ++ sep))

-- A separator at index `i` cuts the text there.
cut_lem :
    (str sep : List ℕ) (i j : ℕ)
    → j ≤ i
    → slice str i (length sep) ≡ sep
    → drop j str ≡ (slice str j (i - j) ++ sep) ++ drop (i + length sep) str
cut_lem str sep i j h e =
    let n = length sep in
    let d : drop (i - j) (drop j str) ≡ drop i str =
      sym (drop-drop str j (i - j) i (omega arith)) in
    let f : drop n (drop i str) ≡ drop (i + n) str = sym (drop-drop str i n (i + n) refl) in
    sym (take-append-drop (i - j) (drop j str))
    ∙ ap (λ l. slice str j (i - j) ++ l) (d ∙ sym (take-append-drop n (drop i str)))
    ∙ ap (λ l. slice str j (i - j) ++ (l ++ drop n (drop i str))) e
    ∙ ap (λ l. slice str j (i - j) ++ (sep ++ l)) f
    ∙ sym (append_assoc (slice str j (i - j)) sep (drop (i + n) str))

-- A window of a window is a window of the text.
slice-slice :
    (str : List ℕ) (j m k n : ℕ) → k + n ≤ m → slice (slice str j m) k n ≡ slice str (j + k) n
slice-slice str j m k n h =
    ap (take n) (sym (drop-slice str j k m (j + k) (m - k) refl refl (omega arith)))
    ∙ sym (take-slice str (j + k) n (m - k) (omega arith))

-- The separator stands nowhere in the text.
abbrev pub Without : List ℕ → List ℕ → Type 0
Without sep text = (k : ℕ) → k + length sep ≤ length text → slice text k (length sep) ≢ sep

abbrev pub AllWithout : List ℕ → List (List ℕ) → Type 0
AllWithout sep [] = Unit {0}
AllWithout sep (p ∷ ps) = Without sep p × AllWithout sep ps

AllWithout-append :
    (sep p : List ℕ) (ps : List (List ℕ))
    → AllWithout sep ps
    → Without sep p
    → AllWithout sep (ps ++ p ∷ [])
AllWithout-append sep p [] a w = (w, tt)
AllWithout-append sep p (q ∷ ps) (v, a) w = (v, AllWithout-append sep p ps a w)

-- The parts before the last, and the last: joined they are the text, there are at most `most` cuts,
-- and the separator is in no part but the last, and there only when all cuts were made.
pub record Cut (str sep : List ℕ) (most : ℕ) (fronts : List (List ℕ)) (last : List ℕ) : Type 0 where
  pub joined : join sep (fronts ++ last ∷ []) ≡ str
  pub bounded : length fronts ≤ most
  pub fronts_without : AllWithout sep fronts
  pub last_without : length fronts < most → Without sep last

abbrev pub Parts : Option (List (List ℕ)) → List ℕ → List ℕ → ℕ → Type 0
Parts result str sep most =
    (fronts : List (List ℕ)) × (last : List ℕ) × (result ≡ some (fronts ++ last ∷ []))
    × Cut str sep most fronts last

-- No separator begins from index `j` on before index `i`.
abbrev NoneFrom : List ℕ → List ℕ → ℕ → ℕ → Type 0
NoneFrom str sep j i =
    (k : ℕ) → j ≤ k → k < i → k + length sep ≤ length str → slice str k (length sep) ≢ sep

last_Parts :
    (str sep : List ℕ) (j most : ℕ) (result : List (List ℕ))
    → glue sep result ++ drop j str ≡ str
    → length result ≤ most
    → AllWithout sep result
    → (length result < most → Without sep (drop j str))
    → Parts (some (result ++ drop j str ∷ [])) str sep most
last_Parts str sep j most result e h a w = (
  result,
  drop j str,
  refl,
  record {
    joined = join-glue sep (drop j str) result ∙ e;
    bounded = h;
    fronts_without = a;
    last_without = w;
  },
)

-- No separator is left where the rest is too short for one at `i`.
rest-Without :
    (str sep : List ℕ) (i j : ℕ)
    → j ≤ length str
    → NoneFrom str sep j i
    → length str < i + length sep
    → Without sep (drop j str)
rest-Without str sep i j o free short k h e =
    let n = length-drop j str in
    free (j + k) (omega arith) (omega (arith, n)) (omega (arith, n))
      (ap (take (length sep)) (drop-drop str j k (j + k) refl) ∙ e)

part-Without :
    (str sep : List ℕ) (i j : ℕ)
    → j ≤ i
    → i ≤ length str
    → NoneFrom str sep j i
    → 0 < length sep
    → Without sep (slice str j (i - j))
part-Without str sep i j o l free n k h e =
    let m : length (slice str j (i - j)) ≡ i - j =
      length-take (i - j) (drop j str) ∙ omega (arith, length-drop j str) in
    free (j + k) (omega arith) (omega (arith, m)) (omega (arith, m))
      (sym (slice-slice str j (i - j) k (length sep) (omega (arith, m))) ∙ e)

-- The index `i` begins no separator either.
NoneFrom-next :
    (str sep : List ℕ) (i j : ℕ)
    → NoneFrom str sep j i
    → same (slice str i (length sep)) sep ≡ false
    → NoneFrom str sep j (i + 1)
NoneFrom-next str sep i j free b k l u h e = elim (Bool-cases (k == i)) [
  | inl p ↦
      let q : k ≡ i = ground arith in
      let s : slice str i (length sep) ≡ sep = rw (q) at e in
      absurd (ground (arith, (rw (s) at b), same_refl sep))
  | inr p ↦ free k l (ground arith) h e
]

split_loop-Parts :
    (fuel : ℕ) (str sep : List ℕ) (i j maxsplit most : ℕ) (result : List (List ℕ))
    → 0 < length sep
    → length str < fuel + i
    → i ≤ length str
    → j ≤ i
    → glue sep result ++ drop j str ≡ str
    → length result + maxsplit ≡ most
    → AllWithout sep result
    → NoneFrom str sep j i
    → Parts (split_loop fuel str sep i j maxsplit result) str sep most
unfolding split_loop
split_loop-Parts zero str sep i j maxsplit most result n f g o e h v free = absurd (omega arith)
split_loop-Parts (suc fuel) str sep i j maxsplit most result n f g o e h v free =
    let k = length sep in
    elim (Bool-cases (leb (i + k) (length str))) [
      | inl a ↦
          let room = leb→le (i + k) (length str) a in
          elim (Bool-cases (same (slice str i k) sep)) [
            | inl b ↦ elim (Bool-cases (leb maxsplit 0)) [
              | inl c ↦
                  let z = leb→le maxsplit 0 c in
                  rw (a, b, c)
                    (last_Parts str sep j most result e (omega arith) v (λ l. absurd (omega arith)))
              | inr c ↦
                  rw (a, b, c)
                    (let part = slice str j (i - j) in
                      let u = leb_false→lt maxsplit 0 c in
                      let m = length-append result (part ∷ []) in
                      let w : glue sep (result ++ part ∷ []) ++ drop (i + k) str ≡ str =
                        ap (λ l. l ++ drop (i + k) str) (glue-append sep part result)
                        ∙ append_assoc (glue sep result) (part ++ sep) (drop (i + k) str)
                        ∙ ap (λ l. glue sep result ++ l)
                            (sym (cut_lem str sep i j o (same→eq (slice str i k) sep b)))
                        ∙ e in
                      split_loop-Parts fuel str sep (i + k) (i + k) (maxsplit - 1) most
                        (result ++ part ∷ []) n (omega arith) room (omega arith) w
                        (omega (arith, m))
                        (AllWithout-append sep part result v (part-Without str sep i j o g free n))
                        (λ q l r. absurd (omega arith)))
            ]
            | inr b ↦
                rw (a, b)
                  (split_loop-Parts fuel str sep (i + 1) j maxsplit most result n (omega arith)
                    (omega arith) (omega arith) e h v (NoneFrom-next str sep i j free b))
          ]
      | inr a ↦
          let short = leb_false→lt (i + k) (length str) a in
          rw (a) (
            last_Parts str sep j most result e (omega arith) v
              (λ l. rest-Without str sep i j (omega arith) free short))
    ]

-- How many cuts a limit allows.
abbrev pub cuts : ℤ → ℕ
cuts (pos n) = n
cuts (negsuc n) = 2147483647

-- Splitting any text at a separator that is not empty ends; the parts with the separator between
-- them are the text, at most maxsplit cuts are made, where a negative maxsplit stands for
-- 2147483647, no part but the last contains the separator, and the last contains it only when all
-- the cuts allowed were made.
pub join-split :
    (str sep : List ℕ) (maxsplit : ℤ)
    → 0 < length sep
    → Parts (split str sep maxsplit) str sep (cuts maxsplit)
unfolding split
join-split str [] maxsplit h = absurd (omega arith)
join-split str (c ∷ cs) (pos n) h =
    split_loop-Parts (length str + 1) str (c ∷ cs) 0 0 n n [] h (omega arith) (omega arith)
      (omega arith) refl (omega arith) tt (λ k l r. absurd (omega arith))
join-split str (c ∷ cs) (negsuc n) h =
    split_loop-Parts (length str + 1) str (c ∷ cs) 0 0 2147483647 2147483647 [] h (omega arith)
      (omega arith) (omega arith) refl (omega arith) tt (λ k l r. absurd (omega arith))
