-- ===== src/Base/Config/Tests.antt =====
-- Expressions of configuration files, and the theorems at concrete ones.
use burger.Common.{◌≡◌, refl, some, [], ◌∷◌, pos, negsuc, arith, ◌-ℤ◌, ◌/ℤ◌}
use burger.Base.Config.{get_int_from_string_expression}
use burger.Base.Config.Postfix.{Expr, num, bin, times, plus, minus, over, value}
use burger.Base.Config.Scan.{print, HasDigits, get_int_from_string_expression-print}

-- 2 * (3 + 40)
abbrev product : Expr
product = bin times (num b'2' []) (bin plus (num b'3' []) (num b'4' (b'0' ∷ [])))

product_text : print 0 product ≡ b'2' ∷ b'*' ∷ b'(' ∷ b'3' ∷ b'+' ∷ b'4' ∷ b'0' ∷ b')' ∷ []
unfolding print
product_text = refl

product_read : get_int_from_string_expression (print 0 product) ≡ some (pos 86)
unfolding print get_int_from_string_expression
product_read = refl

-- 7 - 2 - 9, with a space.
left_to_right :
    get_int_from_string_expression (b'7' ∷ b'-' ∷ b' ' ∷ b'2' ∷ b'-' ∷ b'9' ∷ []) ≡ some (negsuc 3)
unfolding get_int_from_string_expression
left_to_right = refl

-- 100 / (9 - 2) - 40
abbrev difference : Expr
difference =
    bin minus (bin over (num b'1' (b'0' ∷ b'0' ∷ [])) (bin minus (num b'9' []) (num b'2' [])))
      (num b'4' (b'0' ∷ []))

difference-HasDigits : HasDigits difference
difference-HasDigits = omega arith

get_int_from_string_expression-print_example :
    get_int_from_string_expression (print 0 difference) ≡ some (negsuc 25)
unfolding value ◌-ℤ◌ ◌/ℤ◌
get_int_from_string_expression-print_example =
    get_int_from_string_expression-print difference 0 difference-HasDigits
