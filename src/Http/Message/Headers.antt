-- ===== src/Http/Message/Headers.antt =====
-- What headers that were set read as: the order of CaseInsensitiveLess finds a header by its name
-- whatever the case of its letters.
use burger.Common.{
  ℕ, ◌+◌, ◌≡◌, refl, sym, ap, ◌∙◌, true, false, Bool, ◌&&◌, ◌||◌, some, List, [], ◌∷◌,
  if◌then◌else◌, ◌==◌, leb, ltb, arith, Bool-cases, inl, inr, ◌⊎◌,
}
use burger.Http.Status.{Version}
use burger.Http.Message.Order.{Ascending, put-Ascending}
use burger.Http.Message.{
  Text, MapType, to_lower, less, put, find, get_or, Request, new_request, set_header, get_header,
}

-- A capital letter and its small letter.
abbrev pub is_pair : ℕ → ℕ → Bool
is_pair c d = leb b'A' c && leb c b'Z' && d == c + 32

abbrev pub alike_byte : ℕ → ℕ → Bool
alike_byte c d = c == d || is_pair c d || is_pair d c

-- Texts that are the same but for the case of letters.
unfoldable pub alike : Text → Text → Bool
alike [] [] = true
alike [] (d ∷ ds) = false
alike (c ∷ cs) [] = false
alike (c ∷ cs) (d ∷ ds) = alike_byte c d && alike cs ds

alike_byte_lem : (c d : ℕ) → alike_byte c d ≡ (to_lower c == to_lower d)
alike_byte_lem c d = ground arith

-- Of two texts one is less than the other, or they are alike.
abbrev Compares : Bool → Bool → Bool → Type 0
Compares below above same =
    ((below ≡ true) × (above ≡ false) × (same ≡ false))
    ⊎ ((below ≡ false) × (above ≡ true) × (same ≡ false))
    ⊎ ((below ≡ false) × (above ≡ false) × (same ≡ true))

less-Compares : (j k : Text) → Compares (less j k) (less k j) (alike j k)
unfolding less alike
less-Compares [] [] = inr (inr (refl, refl, refl))
less-Compares [] (d ∷ ds) = inl (refl, refl, refl)
less-Compares (c ∷ cs) [] = inr (inl (refl, refl, refl))
less-Compares (c ∷ cs) (d ∷ ds) =
    let e = alike_byte_lem c d in let ih = less-Compares cs ds in ground arith

==_eq : (m n : ℕ) → (m == n) ≡ true → m ≡ n
==_eq m n h = ground arith

alike-front :
    (c d : ℕ) (later : Bool)
    → (alike_byte c d && later) ≡ true
    → (to_lower c ≡ to_lower d) × (later ≡ true)
alike-front c d later h =
    let p = alike_byte_lem c d in
    elim (Bool-cases (alike_byte c d)) [
      | inl q ↦ (==_eq (to_lower c) (to_lower d) (sym p ∙ q), (rw (q) at h))
      | inr q ↦ let f : false ≡ true = (rw (q) at h) in absurd (cc)
    ]

-- One step of the comparison, on bytes that are in lower case.
abbrev step : ℕ → ℕ → Bool → Bool
step m n later = if ltb m n then true else if m == n then later else false

less-alike_left : (j k l : Text) → alike j k ≡ true → less j l ≡ less k l
unfolding less alike
less-alike_left [] [] l h = refl
less-alike_left [] (d ∷ ds) l h = cc
less-alike_left (c ∷ cs) [] l h = cc
less-alike_left (c ∷ cs) (d ∷ ds) [] h = refl
less-alike_left (c ∷ cs) (d ∷ ds) (e ∷ es) h =
    let (p, q) = alike-front c d (alike cs ds) h in
    ap (λ m. step m (to_lower e) (less cs es)) p
    ∙ ap (step (to_lower d) (to_lower e)) (less-alike_left cs ds es q)

less-alike_right : (j k l : Text) → alike j k ≡ true → less l j ≡ less l k
unfolding less alike
less-alike_right [] [] l h = refl
less-alike_right [] (d ∷ ds) l h = cc
less-alike_right (c ∷ cs) [] l h = cc
less-alike_right (c ∷ cs) (d ∷ ds) [] h = refl
less-alike_right (c ∷ cs) (d ∷ ds) (e ∷ es) h =
    let (p, q) = alike-front c d (alike cs ds) h in
    ap (λ m. step (to_lower e) m (less es cs)) p
    ∙ ap (step (to_lower e) (to_lower d)) (less-alike_right cs ds es q)

less_trans : (j k l : Text) → less j k ≡ true → less k l ≡ true → less j l ≡ true
unfolding less
less_trans [] [] l h i = cc
less_trans [] (d ∷ ds) [] h i = cc
less_trans [] (d ∷ ds) (e ∷ es) h i = refl
less_trans (c ∷ cs) [] l h i = cc
less_trans (c ∷ cs) (d ∷ ds) [] h i = cc
less_trans (c ∷ cs) (d ∷ ds) (e ∷ es) h i = ground (arith, less_trans cs ds es)

alike-alike : (j k l : Text) → alike j k ≡ true → alike l j ≡ alike l k
alike-alike j k l h =
    ground (
      arith,
      less-Compares l j,
      less-Compares l k,
      less-alike_left j k l h,
      less-alike_right j k l h,
    )

find-put :
    (j key val : Text) (m : MapType)
    → find j (put key val m) ≡ (if alike j key then some val else find j m)
unfolding find put
find-put j key val [] = ground (arith, less-Compares j key)
find-put j key val ((k, v) ∷ rest) = elim (less-Compares key k) [
  | inl (a, b, c) ↦
      rw (a, b) (ground (arith, less-Compares j key, less-Compares j k, less_trans j key k))
  | inr (inl (a, b, c)) ↦
      rw (b) (ground (arith, find-put j key val rest, less-Compares j k, less-alike_right j key k))
  | inr (inr (a, b, c)) ↦ rw (a, b, alike-alike key k j c) (ground (arith, less-Compares j k))
]

-- Calls of setHeader, the first one first.
abbrev pub set_all : List (Text × Text) → Request → Request
set_all [] r = r
set_all ((key, val) ∷ rest) r = set_all rest (set_header key val r)

-- The value of the last entry whose key is the same but for case, or the default.
abbrev pub last_of : Text → Text → List (Text × Text) → Text
last_of j def [] = def
last_of j def ((key, val) ∷ rest) = last_of j (if alike j key then val else def) rest

get_header-set_header :
    (j key val def : Text) (r : Request)
    → get_header j def (set_header key val r) ≡ (if alike j key then val else get_header j def r)
unfolding get_header set_header get_or
get_header-set_header j key val def r = ground (arith, find-put j key val r.headers)

set_all_lem :
    (j def : Text) (calls : List (Text × Text)) (r : Request)
    → get_header j def (set_all calls r) ≡ last_of j (get_header j def r) calls
set_all_lem j def [] r = refl
set_all_lem j def ((key, val) ∷ rest) r =
    set_all_lem j def rest (set_header key val r) ∙ rw (get_header-set_header j key val def r) refl

set_all-Ascending :
    (calls : List (Text × Text)) (r : Request)
    → Ascending r.headers
    → Ascending (set_all calls r).headers
unfolding set_header
set_all-Ascending [] r a = a
set_all-Ascending ((key, val) ∷ rest) r a =
    set_all-Ascending rest (set_header key val r) (put-Ascending key val r.headers a)

-- After any calls of setHeader on a new request, getHeader of a key gives the value of the last
-- call whose key is the same but for the case of its letters, and the default where there is none;
-- and the headers stand in ascending order of their keys, the case of letters aside.
pub get_header-set_all :
    (j def : Text) (calls : List (Text × Text)) (version : Version) (close : Bool)
    → let r = set_all calls (new_request version close) in
      (get_header j def r ≡ last_of j def calls) × Ascending r.headers
unfolding new_request get_header get_or find
get_header-set_all j def calls version close =
    let r = new_request version close in (set_all_lem j def calls r, set_all-Ascending calls r tt)
