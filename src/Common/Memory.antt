-- ===== src/Common/Memory.antt =====
-- A `std::vector<char>` as the list of its bytes: slices, overwriting, `resize`.
use Prim.Native.Nat.{ℕ, zero, suc, ◌+◌, ◌-◌, ◌≤◌, ◌<◌}
use mathlib.Core.Path.{◌≡◌, refl, sym, ap}
use mathlib.Core.List.{List, [], ◌∷◌, ◌++◌}
use mathlib.Core.Option.{Option, none, some}
use native.Mathlib.Omega.{arith}
use burger.Common.Lists.{
  length, take, drop, replicate, length-append, length-take, length-drop, length-replicate,
}
use burger.Common.Tests.{ltb, leb, if◌then◌else◌}
use burger.Common.Words.{max_size}

module _ {ℓ} {A : Type ℓ} where
  -- The `n` elements from index `i` on.
  abbrev pub slice : List A → ℕ → ℕ → List A
  slice xs i n = take n (drop i xs)

  -- `ys` over the front of the list.
  unfoldable pub overlay : List A → List A → List A
  overlay [] xs = xs
  overlay (y ∷ ys) [] = []
  overlay (y ∷ ys) (x ∷ xs) = y ∷ overlay ys xs

  -- `ys` over the list from index `i` on; what would lie past the end is lost.
  unfoldable pub write_at : List A → ℕ → List A → List A
  write_at xs zero ys = overlay ys xs
  write_at [] (suc i) ys = []
  write_at (x ∷ xs) (suc i) ys = x ∷ write_at xs i ys

  -- `memcpy` and `std::copy` out of and into a vector: outside it they are a fault.
  abbrev pub read_bytes : List A → ℕ → ℕ → Option (List A)
  read_bytes xs i n = if leb (i + n) (length xs) then some (slice xs i n) else none

  abbrev pub write_bytes : List A → ℕ → List A → Option (List A)
  write_bytes xs i ys = if leb (i + length ys) (length xs) then some (write_at xs i ys) else none

  pub length-overlay : (ys xs : List A) → length (overlay ys xs) ≡ length xs
  unfolding overlay
  length-overlay [] xs = refl
  length-overlay (y ∷ ys) [] = refl
  length-overlay (y ∷ ys) (x ∷ xs) = ap suc (length-overlay ys xs)

  pub length-write_at : (xs : List A) (i : ℕ) (ys : List A) → length (write_at xs i ys) ≡ length xs
  unfolding write_at
  length-write_at xs zero ys = length-overlay ys xs
  length-write_at [] (suc i) ys = refl
  length-write_at (x ∷ xs) (suc i) ys = ap suc (length-write_at xs i ys)

  pub length-slice : (xs : List A) (i n : ℕ) → i + n ≤ length xs → length (slice xs i n) ≡ n
  length-slice xs i n h = omega (arith, length-take n (drop i xs), length-drop i xs)

  take-overlay : (ys xs : List A) → length ys ≤ length xs → take (length ys) (overlay ys xs) ≡ ys
  unfolding overlay
  take-overlay [] xs h = refl
  take-overlay (y ∷ ys) [] h = absurd (omega arith)
  take-overlay (y ∷ ys) (x ∷ xs) h = ap (◌∷◌ y) (take-overlay ys xs (omega arith))

  -- What was written is what is read back.
  pub slice-write_at :
      (xs : List A) (i : ℕ) (ys : List A)
      → i + length ys ≤ length xs
      → slice (write_at xs i ys) i (length ys) ≡ ys
  unfolding write_at
  slice-write_at xs zero ys h = take-overlay ys xs (omega arith)
  slice-write_at [] (suc i) ys h = absurd (omega arith)
  slice-write_at (x ∷ xs) (suc i) ys h = slice-write_at xs i ys (omega arith)

  -- Writing just past a slice extends it.
  pub slice-write_end :
      (xs ys : List A) (i m j : ℕ)
      → j ≡ i + m
      → j + length ys ≤ length xs
      → slice (write_at xs j ys) i (m + length ys) ≡ slice xs i m ++ ys
  unfolding write_at
  slice-write_end xs ys zero zero zero e h =
      let e' : 0 + length ys ≡ length ys = omega arith in rw e' (take-overlay ys xs (omega arith))
  slice-write_end xs ys zero (suc m) zero e h = absurd (omega arith)
  slice-write_end xs ys (suc i) m zero e h = absurd (omega arith)
  slice-write_end xs ys zero zero (suc j) e h = absurd (omega arith)
  slice-write_end [] ys zero (suc m) (suc j) e h = absurd (omega arith)
  slice-write_end (x ∷ xs) ys zero (suc m) (suc j) e h =
      let e' : suc m + length ys ≡ suc (m + length ys) = omega arith in
      rw e' (ap (◌∷◌ x) (slice-write_end xs ys zero m j (omega arith) (omega arith)))
  slice-write_end [] ys (suc i) m (suc j) e h = absurd (omega arith)
  slice-write_end (x ∷ xs) ys (suc i) m (suc j) e h =
      slice-write_end xs ys i m j (omega arith) (omega arith)

  overlay_rest :
      (ys xs : List A) (n : ℕ)
      → length ys ≤ length xs
      → take (length ys + n) (overlay ys xs) ≡ ys ++ take n (drop (length ys) xs)
  unfolding overlay
  overlay_rest [] xs n h = let e : 0 + n ≡ n = omega arith in rw e
  overlay_rest (y ∷ ys) [] n h = absurd (omega arith)
  overlay_rest (y ∷ ys) (x ∷ xs) n h =
      let e : suc (length ys) + n ≡ suc (length ys + n) = omega arith in
      rw e (ap (◌∷◌ y) (overlay_rest ys xs n (omega arith)))

  -- Writing just before a slice extends it at its front.
  pub slice-write_front :
      (xs ys : List A) (i j n : ℕ)
      → j ≡ i + length ys
      → j ≤ length xs
      → slice (write_at xs i ys) i (length ys + n) ≡ ys ++ slice xs j n
  unfolding write_at
  slice-write_front xs ys zero j n e h =
      let e' : j ≡ length ys = omega arith in rw e' (overlay_rest ys xs n (omega arith))
  slice-write_front [] ys (suc i) j n e h = absurd (omega arith)
  slice-write_front (x ∷ xs) ys (suc i) zero n e h = absurd (omega arith)
  slice-write_front (x ∷ xs) ys (suc i) (suc j) n e h =
      slice-write_front xs ys i j n (omega arith) (omega arith)

  pub take-take : (k n : ℕ) (xs : List A) → k ≤ n → take k (take n xs) ≡ take k xs
  take-take zero n xs h = refl
  take-take (suc k) zero xs h = absurd (omega arith)
  take-take (suc k) (suc n) [] h = refl
  take-take (suc k) (suc n) (x ∷ xs) h = ap (◌∷◌ x) (take-take k n xs (omega arith))

  -- The front of a slice is a slice.
  pub take-slice : (xs : List A) (i k n : ℕ) → k ≤ n → slice xs i k ≡ take k (slice xs i n)
  take-slice xs i k n h = sym (take-take k n (drop i xs) h)

  drop-take : (k n : ℕ) (xs : List A) → k ≤ n → take (n - k) (drop k xs) ≡ drop k (take n xs)
  drop-take zero n xs h = let e : n - 0 ≡ n = omega arith in rw e
  drop-take (suc k) zero xs h = absurd (omega arith)
  drop-take (suc k) (suc n) [] h = take-nil (suc n - suc k)
    where
      take-nil : (m : ℕ) → take {A = A} m [] ≡ []
      take-nil zero = refl
      take-nil (suc m) = refl
  drop-take (suc k) (suc n) (x ∷ xs) h =
      let e : suc n - suc k ≡ n - k = omega arith in rw e (drop-take k n xs (omega arith))

  pub drop-drop : (xs : List A) (i k j : ℕ) → j ≡ i + k → drop j xs ≡ drop k (drop i xs)
  drop-drop xs zero k j e = let e' : j ≡ k = omega arith in rw e'
  drop-drop [] (suc i) zero zero e = refl
  drop-drop [] (suc i) zero (suc j) e = refl
  drop-drop [] (suc i) (suc k) zero e = refl
  drop-drop [] (suc i) (suc k) (suc j) e = refl
  drop-drop (x ∷ xs) (suc i) k zero e = absurd (omega arith)
  drop-drop (x ∷ xs) (suc i) k (suc j) e = drop-drop xs i k j (omega arith)

  -- The rest of a slice is a slice.
  pub drop-slice :
      (xs : List A) (i k n j m : ℕ)
      → j ≡ i + k
      → m ≡ n - k
      → k ≤ n
      → slice xs j m ≡ drop k (slice xs i n)
  drop-slice xs i k n j m e f h = rw (f, drop-drop xs i k j e) (drop-take k n (drop i xs) h)

  -- `v.resize(n)`, filled with `a`; past `max_size` it throws.
  abbrev pub resize : A → ℕ → List A → Option (List A)
  resize a n xs = if ltb n max_size then some (take n xs ++ replicate (n - length xs) a) else none

  slice_grow :
      (xs zs : List A) (m i n : ℕ)
      → length xs ≤ m
      → i + n ≤ length xs
      → slice (take m xs ++ zs) i n ≡ slice xs i n
  slice_grow xs zs m zero zero h k = refl
  slice_grow [] zs m zero (suc n) h k = absurd (omega arith)
  slice_grow (x ∷ xs) zs zero i n h k = absurd (omega arith)
  slice_grow (x ∷ xs) zs (suc m) zero (suc n) h k =
      ap (◌∷◌ x) (slice_grow xs zs m zero n (omega arith) (omega arith))
  slice_grow [] zs m (suc i) n h k = absurd (omega arith)
  slice_grow (x ∷ xs) zs (suc m) (suc i) n h k = slice_grow xs zs m i n (omega arith) (omega arith)

  -- A vector that grows keeps its bytes and has the length asked for.
  pub resize_grow :
      (a : A) (m : ℕ) (xs : List A)
      → length xs ≤ m
      → m < max_size
      → (ys : List A) × (resize a m xs ≡ some ys)
        × (length ys ≡ m)
        × ((i n : ℕ) → i + n ≤ length xs → slice ys i n ≡ slice xs i n)
  resize_grow a m xs h k = (
    take m xs ++ replicate (m - length xs) a,
    ground arith,
    omega (
      arith,
      length-append (take m xs) (replicate (m - length xs) a),
      length-take m xs,
      length-replicate (m - length xs) a,
    ),
    λ i n. slice_grow xs _ m i n h,
  )

  overlay_past :
      (ys xs : List A) (i n : ℕ) → length ys ≤ i → slice (overlay ys xs) i n ≡ slice xs i n
  unfolding overlay
  overlay_past [] xs i n h = refl
  overlay_past (y ∷ ys) [] i n h = refl
  overlay_past (y ∷ ys) (x ∷ xs) zero n h = absurd (omega arith)
  overlay_past (y ∷ ys) (x ∷ xs) (suc i) n h = overlay_past ys xs i n (omega arith)

  -- A slice behind what is written stays.
  pub slice-write_before :
      (xs ys : List A) (j i n : ℕ) → j + length ys ≤ i → slice (write_at xs j ys) i n ≡ slice xs i n
  unfolding write_at
  slice-write_before xs ys zero i n h = overlay_past ys xs i n (omega arith)
  slice-write_before [] ys (suc j) i n h = refl
  slice-write_before (x ∷ xs) ys (suc j) zero n h = absurd (omega arith)
  slice-write_before (x ∷ xs) ys (suc j) (suc i) n h = slice-write_before xs ys j i n (omega arith)
