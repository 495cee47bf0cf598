-- ===== src/Http/Message/Order.antt =====
-- The headers of a message stand in ascending order of their names, as std::map keeps them under
-- CaseInsensitiveLess.
use burger.Common.{
  ℕ, ◌+◌, ◌<◌, ◌≡◌, true, false, ◌&&◌, [], ◌∷◌, if◌then◌else◌, ◌==◌, leb, ltb, arith, Bool-cases,
  inl, inr,
}
use burger.Http.Message.{Text, MapType, to_lower, less, put}

-- The small letter of a capital one; other bytes stay.
abbrev pub small : ℕ → ℕ
small c = if leb b'A' c && leb c b'Z' then c + 32 else c

-- Before in the dictionary, the case of letters aside.
pub data Before : Text → Text → Type 0 where
  shorter : {d : ℕ} {ds : Text} → Before [] (d ∷ ds)
  smaller : {c d : ℕ} {cs ds : Text} → small c < small d → Before (c ∷ cs) (d ∷ ds)
  later : {c d : ℕ} {cs ds : Text} → small c ≡ small d → Before cs ds → Before (c ∷ cs) (d ∷ ds)

abbrev pub First : Text → MapType → Type 0
First key [] = Unit {0}
First key ((k, v) ∷ rest) = Before key k

abbrev pub Ascending : MapType → Type 0
Ascending [] = Unit {0}
Ascending ((k, v) ∷ rest) = First k rest × Ascending rest

less-Before : (j k : Text) → less j k ≡ true → Before j k
unfolding less
less-Before [] [] h = absurd (ground arith)
less-Before [] (d ∷ ds) h = shorter
less-Before (c ∷ cs) [] h = absurd (ground arith)
less-Before (c ∷ cs) (d ∷ ds) h = elim (Bool-cases (ltb (to_lower c) (to_lower d))) [
  | inl p ↦ smaller (ground arith)
  | inr p ↦ elim (Bool-cases (to_lower c == to_lower d)) [
    | inl q ↦ later (ground arith) (less-Before cs ds (rw (p, q) at h))
    | inr q ↦ let f : false ≡ true = (rw (p, q) at h) in absurd (cc)
  ]
]

put-First : (k key val : Text) (m : MapType) → Before k key → First k m → First k (put key val m)
unfolding put
put-First k key val [] b f = b
put-First k key val ((l, w) ∷ rest) b f = elim (Bool-cases (less l key)) [
  | inl p ↦ rw p f
  | inr p ↦ elim (Bool-cases (less key l)) [ inl q ↦ rw (p, q) b | inr q ↦ rw (p, q) f ]
]

pub put-Ascending : (key val : Text) (m : MapType) → Ascending m → Ascending (put key val m)
unfolding put
put-Ascending key val [] a = (tt, tt)
put-Ascending key val ((k, v) ∷ rest) (f, a) = elim (Bool-cases (less k key)) [
  | inl p ↦ rw p (put-First k key val rest (less-Before k key p) f, put-Ascending key val rest a)
  | inr p ↦ elim (Bool-cases (less key k)) [
    | inl q ↦ rw (p, q) (less-Before key k q, (f, a))
    | inr q ↦ rw (p, q) (f, a)
  ]
]
