-- ===== src/Base/Config/Defaults.antt =====
-- The integers of a key that the configuration does not have.
use burger.Common.{
  ℕ, zero, suc, ◌+◌, ◌/◌, ◌%◌, ◌^◌, ◌<◌, ◌≤◌, ◌≡◌, refl, sym, ap, ◌∙◌, inl, inr, none, some, List,
  [], ◌∷◌, ◌++◌, arith, ltb, pos, negsuc, Bool-cases, ltb→lt, lt→ltb, to_int,
}
use native.Mathlib.Nat.{pow-suc}
use burger.Base.Config.{
  digits, decimal, add_digit, atoi, evaluate, to_digits, to_string, Reader, get_int,
  get_int_from_string_expression, pop_while,
}
use burger.Base.Config.Postfix.{num, value, atoi_lem}
use burger.Base.Config.Scan.{
  AllDigits, print, get_int_from_string_expression-print, round, stay, place_pops, scan_step-digits,
  scan_all,
}

decimal-append : (n c : ℕ) (xs : List ℕ) → decimal n (xs ++ c ∷ []) ≡ add_digit (decimal n xs) c
unfolding decimal
decimal-append n c [] = refl
decimal-append n c (x ∷ xs) = decimal-append (add_digit n x) c xs

AllDigits-append :
    (c : ℕ) (xs : List ℕ) → AllDigits xs → b'0' ≤ c → c ≤ b'9' → AllDigits (xs ++ c ∷ [])
AllDigits-append c [] a d e = (d, e, tt)
AllDigits-append c (x ∷ xs) (l, u, a) d e = (l, u, AllDigits-append c xs a d e)

-- `to_string` of a number is one digit or more, and they are read back as the number.
to_digits_lem :
    (fuel n : ℕ)
    → n < 10 ^ suc fuel
    → (c : ℕ) × (cs : List ℕ) × (to_digits fuel n ≡ c ∷ cs)
      × AllDigits (c ∷ cs)
      × (decimal 0 (c ∷ cs) ≡ n)
unfolding to_digits decimal
to_digits_lem zero n h = (n + b'0', [], refl, (omega arith, omega arith, tt), omega arith)
to_digits_lem (suc fuel) n h = elim (Bool-cases (ltb n 10)) [
  | inl one ↦
      (n + b'0', [], rw one refl, (omega arith, omega (arith, ltb→lt n 10 one), tt), omega arith)
  | inr more ↦
      let (c, cs, e, d, v) =
        to_digits_lem fuel (n / 10) (omega (arith, h, pow-suc 10 (suc fuel))) in
      (
        c,
        cs ++ (n % 10 + b'0') ∷ [],
        rw (more, e) refl,
        AllDigits-append (n % 10 + b'0') (c ∷ cs) d (omega arith) (omega arith),
        decimal-append 0 (n % 10 + b'0') (c ∷ cs) ∙ omega (arith, v),
      )
]

number_lem :
    (c n : ℕ) (cs : List ℕ)
    → AllDigits (c ∷ cs)
    → decimal 0 (c ∷ cs) ≡ n
    → n < 2 ^ 31
    → get_int_from_string_expression (c ∷ cs) ≡ some (pos n)
unfolding print value atoi
number_lem c n cs d v h =
    get_int_from_string_expression-print (num c cs) 0 d
    ∙ sym (atoi_lem (c ∷ cs))
    ∙ ap (λ m. to_int (pos m)) v
    ∙ rw (lt→ltb n (2 ^ 31) h)

-- The operator finds one number on the stack and takes two.
minus_lem :
    (c : ℕ) (cs : List ℕ)
    → AllDigits (c ∷ cs)
    → get_int_from_string_expression (b'-' ∷ c ∷ cs) ≡ none
unfolding evaluate pop_while
minus_lem c cs d =
    scan_all (b'-' ∷ c ∷ cs) (digits (c ∷ cs) ∷ []) (b'-' ∷ []) (
      round (place_pops b'-' (c ∷ (cs ++ [])) [] [] [] [] (refl, refl, refl, refl) refl)
        (round (scan_step-digits c cs [] [] (b'-' ∷ []) d tt) stay))
    ∙ ground arith

-- For a key that the file lacks getInt gives a default from 0 to 2 ^ 31 - 1, but a negative
-- default, from -1 down to -2 ^ 31, is undefined behaviour.
pub get_int-missing :
    (reader : Reader) (section search : List ℕ) (n : ℕ)
    → reader section search ≡ none
    → n < 2 ^ 31
    → (get_int reader section search (pos n) ≡ some (pos n))
      × (get_int reader section search (negsuc n) ≡ none)
unfolding get_int to_string
get_int-missing reader section search n missing h =
    let (c, cs, e, d, v) = to_digits_lem 10 n (omega arith) in
    let (c', cs', e', d', v') = to_digits_lem 10 (suc n) (omega arith) in
    (rw (missing, e) (number_lem c n cs d v h), rw (missing, e') (minus_lem c' cs' d'))
