-- ===== src/Net/Buffer/Search.antt =====
-- `findCRLF` and `findEOL` of burger/net/Buffer.cc: the pointer is that of the first match.
use burger.Common.{
  ℕ, zero, suc, ◌-◌, ◌≤◌, ◌<◌, ◌≡◌, inl, inr, ◌&&◌, Option, none, some, List, [], ◌∷◌, arith, ◌==◌,
  ◌>>=◌, Bool-cases, sub64, get_elem?, drop, drop-slice,
}
use burger.Net.Buffer.{
  Buffer, search_crlf, search_byte, pointer, find_crlf, find_eol, find_crlf_from,
}
use burger.Net.Buffer.Valid.{IsValid, contents}

abbrev pub CrlfAt : List ℕ → ℕ → Type 0
CrlfAt s n = (get_elem? s n ≡ some 13) × (get_elem? s (suc n) ≡ some 10)

abbrev pub ByteAt : ℕ → List ℕ → ℕ → Type 0
ByteAt c s n = get_elem? s n ≡ some c

-- The first place with the property, or that there is none.
abbrev pub First : (ℕ → Type 0) → Option ℕ → Type 0
First P none = (m : ℕ) → ¬ P m
First P (some n) = P n × ((m : ℕ) → m < n → ¬ P m)

First-shift :
    (P : ℕ → Type 0) (o : Option ℕ)
    → ¬ P 0
    → First (λ m. P (suc m)) o
    → First P (o >>= λ n. some (suc n))
First-shift P none h f = go
  where
    go : (m : ℕ) → ¬ P m
    go zero = h
    go (suc m) = f m
First-shift P (some n) h f = (f.0, go)
  where
    go : (m : ℕ) → m < suc n → ¬ P m
    go zero lt = h
    go (suc m) lt = f.1 m (omega arith)

search_crlf-First : (s : List ℕ) → First (CrlfAt s) (search_crlf s)
unfolding search_crlf
search_crlf-First [] = λ m p. cc
search_crlf-First (x ∷ []) = go
  where
    go : (m : ℕ) → ¬ CrlfAt (x ∷ []) m
    go zero p = cc
    go (suc m) p = cc
search_crlf-First (x ∷ y ∷ r) = elim (Bool-cases (x == 13 && y == 10)) [
  | inl h ↦ rw h ((ground arith, ground arith), λ m lt. absurd (omega arith))
  | inr h ↦ rw h (
      First-shift (CrlfAt (x ∷ y ∷ r)) (search_crlf (y ∷ r)) (λ p. ground arith)
        (search_crlf-First (y ∷ r)))
]

search_byte-First : (c : ℕ) (s : List ℕ) → First (ByteAt c s) (search_byte c s)
unfolding search_byte
search_byte-First c [] = λ m p. cc
search_byte-First c (x ∷ r) = elim (Bool-cases (x == c)) [
  | inl h ↦ rw h (ground arith, λ m lt. absurd (omega arith))
  | inr h ↦
      rw h (
        First-shift (ByteAt c (x ∷ r)) (search_byte c r) (λ p. ground arith)
          (search_byte-First c r))
]

module _ (b : Buffer) (v : IsValid b) where
  -- On a valid buffer findCRLF is the pointer to the first "\r\n" of the content, or null if it
  -- has none.
  pub find_crlf_lem :
      (o : Option ℕ) × (find_crlf b ≡ some (pointer b.reader o)) × First (CrlfAt (contents b)) o
  unfolding find_crlf
  find_crlf_lem =
      let w : sub64 b.writer b.reader ≡ b.writer - b.reader = omega arith in
      (search_crlf (contents b), rw w (ground arith), search_crlf-First (contents b))

  -- On a valid buffer findEOL is the pointer to the first newline of the content, or null if it
  -- has none.
  pub find_eol_lem :
      (o : Option ℕ) × (find_eol b ≡ some (pointer b.reader o)) × First (ByteAt 10 (contents b)) o
  unfolding find_eol
  find_eol_lem =
      let w : sub64 b.writer b.reader ≡ b.writer - b.reader = omega arith in
      (search_byte 10 (contents b), rw w (ground arith), search_byte-First 10 (contents b))

  -- From a pointer into the readable bytes the search is of the content behind it.
  pub find_crlf_from_lem :
      (start : ℕ)
      → b.reader ≤ start
      → start ≤ b.writer
      → (o : Option ℕ) × (find_crlf_from start b ≡ some (pointer start o))
        × First (CrlfAt (drop (start - b.reader) (contents b))) o
  unfolding find_crlf_from
  find_crlf_from_lem start lo hi =
      let s = drop (start - b.reader) (contents b) in
      let w : sub64 b.writer start ≡ b.writer - start = omega arith in
      let d =
        drop-slice b.bytes b.reader (start - b.reader) (b.writer - b.reader) start
          (b.writer - start) (omega arith) (omega arith) (omega arith) in
      (search_crlf s, rw (w, ← d) (ground arith), search_crlf-First s)
