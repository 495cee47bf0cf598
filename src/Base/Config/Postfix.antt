-- ===== src/Base/Config/Postfix.antt =====
-- Expressions, their values and their postfix form.
use mathlib.Core.List.{append_assoc}
use native.Mathlib.Numerals.{unary_clauses}
use burger.Common.{
  ℕ, zero, suc, ◌+◌, ◌-◌, ◌*◌, ◌^◌, ◌≡◌, refl, ap, ◌∙◌, Option, none, some, List, [], ◌∷◌, ◌++◌,
  ◌>>=◌, if◌then◌else◌, leb, length, arith, ℤ, pos, negsuc, to_int, ◌+ℤ◌, ◌-ℤ◌, ◌*ℤ◌, ◌/ℤ◌,
}
use burger.Base.Config.{Token, digits, op, divide, calculate, decimal, atoi, evaluate}

pub data Operator : Type 0 where
  plus minus times over : Operator

-- A number is its digits, of which it has one at least.
pub data Expr : Type 0 where
  num : ℕ → List ℕ → Expr
  bin : Operator → Expr → Expr → Expr

abbrev pub symbol : Operator → ℕ
symbol plus = b'+'
symbol minus = b'-'
symbol times = b'*'
symbol over = b'/'

abbrev pub precedence : Operator → ℕ
precedence plus = 2
precedence minus = 2
precedence times = 3
precedence over = 3

-- An `int` goes from -2147483648 to 2147483647; what lies outside overflows.
abbrev pub in_int : ℤ → Option ℤ
in_int (pos n) = if leb n 2147483647 then some (pos n) else none
in_int (negsuc n) = if leb n 2147483647 then some (negsuc n) else none

-- The number that decimal digits stand for: each counts as often as the power of ten at its place.
unfoldable pub positional : List ℕ → ℕ
positional [] = 0
positional (c ∷ cs) = (c - b'0') * 10 ^ length cs + positional cs

-- The quotient towards zero.
abbrev pub quotient : ℤ → ℤ → Option ℤ
quotient a (pos zero) = none
quotient a (pos (suc n)) = in_int (a /ℤ pos (suc n))
quotient a (negsuc n) = in_int (a /ℤ negsuc n)

abbrev pub apply : Operator → ℤ → ℤ → Option ℤ
apply plus a b = in_int (a +ℤ b)
apply minus a b = in_int (a -ℤ b)
apply times a b = in_int (a *ℤ b)
apply over a b = quotient a b

-- The value by the rules of the language: undefined where an operation overflows or divides by zero.
unfoldable pub value : Expr → Option ℤ
unfolding positional
value (num c cs) = in_int (pos (positional (c ∷ cs)))
value (bin o l r) = do a ← value l; b ← value r; apply o a b

unfoldable pub postfix : Expr → List Token
postfix (num c cs) = digits (c ∷ cs) ∷ []
postfix (bin o l r) = postfix l ++ (postfix r ++ op (symbol o) ∷ [])

bind_assoc :
    {A B C : Type 0} (m : Option A) (f : A → Option B) (g : B → Option C)
    → (m >>= f >>= g) ≡ (m >>= λ a. f a >>= g)
bind_assoc none f g = refl
bind_assoc (some a) f g = refl

shift_lem : (n d p m : ℕ) → (n * 10 + d) * p + m ≡ n * (p * 10) + (d * p + m)
shift_lem n d p m = grind arith

to_int_lem : (z : ℤ) → to_int z ≡ in_int z
to_int_lem (pos n) = ground arith
to_int_lem (negsuc n) = ground arith

decimal_lem : (n : ℕ) (cs : List ℕ) → decimal n cs ≡ n * 10 ^ length cs + positional cs
unfolding decimal positional
decimal_lem n [] = omega arith
decimal_lem n (c ∷ cs) =
    decimal_lem (n * 10 + (c - b'0')) cs
    ∙ simp unary_clauses (shift_lem n (c - b'0') (10 ^ length cs) (positional cs))

pub atoi_lem : (cs : List ℕ) → atoi cs ≡ in_int (pos (positional cs))
unfolding atoi
atoi_lem cs =
    ap (λ n. to_int (pos n)) (decimal_lem 0 cs ∙ (omega arith)) ∙ to_int_lem (pos (positional cs))

divide_lem : (a b : ℤ) → divide a b ≡ quotient a b
divide_lem a (pos zero) = refl
divide_lem a (pos (suc n)) = to_int_lem (a /ℤ pos (suc n))
divide_lem a (negsuc n) = to_int_lem (a /ℤ negsuc n)

calculate_lem : (o : Operator) (a b : ℤ) → calculate a b (symbol o) ≡ apply o a b
unfolding calculate
calculate_lem plus a b = to_int_lem (a +ℤ b)
calculate_lem minus a b = to_int_lem (a -ℤ b)
calculate_lem times a b = to_int_lem (a *ℤ b)
calculate_lem over a b = divide_lem a b

-- Evaluating the postfix form of an expression pushes its value.
pub evaluate-postfix :
    (e : Expr) (ts : List Token) (nums : List ℤ)
    → evaluate (postfix e ++ ts) nums ≡ (value e >>= λ v. evaluate ts (v ∷ nums))
unfolding evaluate postfix value
evaluate-postfix (num c cs) ts nums =
    ap (λ m. m >>= λ v. evaluate ts (v ∷ nums)) (atoi_lem (c ∷ cs))
evaluate-postfix (bin o l r) ts nums =
    simp (append_assoc, bind_assoc, evaluate-postfix l, evaluate-postfix r, calculate_lem o)
