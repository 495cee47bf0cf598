-- ===== src/Base/Config.antt =====
-- burger/base/Config.cc and burger/base/Config.h: the integers of a configuration, which may be written as
-- expressions. A text is its bytes; `none` is undefined behaviour: the top of an empty stack, an
-- overflow of `int`, a division by zero. The reader of the ini file is an argument.
pub mod Postfix
pub mod Scan
pub mod Defaults
mod Tests
use burger.Common.{
  ℕ, zero, suc, ◌+◌, ◌*◌, ◌-◌, ◌/◌, ◌%◌, ◌^◌, ◌≡◌, Bool, true, false, not, ◌&&◌, ◌||◌, Option, none,
  some, List, [], ◌∷◌, ◌++◌, map, ltb, leb, ◌==◌, if◌then◌else◌, ◌>>=◌, ◌>>◌, length, ℤ, pos,
  negsuc, to_int, ◌+ℤ◌, ◌-ℤ◌, ◌*ℤ◌, ◌/ℤ◌,
}

-- A string of the suffix expression: a number's digits, or an operator.
pub data Token : Type 0 where
  digits : List ℕ → Token
  op : ℕ → Token

-- One more than the source's, whose least is -1.
abbrev pub get_priority : ℕ → ℕ
get_priority ch = if ch == b'+' || ch == b'-' then 2 else if ch == b'*' || ch == b'/' then 3 else 0

abbrev pub is_digit : ℕ → Bool
is_digit ch = leb b'0' ch && leb ch b'9'

abbrev pub divide : ℤ → ℤ → Option ℤ
divide left (pos zero) = none
divide left (pos (suc n)) = to_int (left /ℤ pos (suc n))
divide left (negsuc n) = to_int (left /ℤ negsuc n)

unfoldable pub calculate : ℤ → ℤ → ℕ → Option ℤ
unfolding ◌+ℤ◌ ◌-ℤ◌ ◌*ℤ◌ ◌/ℤ◌
calculate left right ch =
    if ch == b'+'
    then to_int (left +ℤ right)
    else if ch == b'-'
    then to_int (left -ℤ right)
    else if ch == b'*'
    then to_int (left *ℤ right)
    else if ch == b'/'
    then divide left right
    else some (pos 0)

-- The digits at the front, and what follows them.
unfoldable pub span_digits : List ℕ → List ℕ × List ℕ
span_digits [] = ([], [])
span_digits (c ∷ cs) =
    let (ds, rest) = span_digits cs in if is_digit c then (c ∷ ds, rest) else ([], c ∷ cs)

-- The operators popped while their priority is at least that of the next one, and the others.
unfoldable pub pop_while : ℕ → List ℕ → List ℕ × List ℕ
pop_while priority [] = ([], [])
pop_while priority (x ∷ xs) =
    let (popped, rest) = pop_while priority xs in
    if leb priority (get_priority x) then (x ∷ popped, rest) else ([], x ∷ xs)

-- The operators above an open bracket, and those below it.
unfoldable pub pop_bracket : List ℕ → Option (List ℕ × List ℕ)
pop_bracket [] = none
pop_bracket (x ∷ xs) =
    let rest = pop_bracket xs in
    if x == b'(' then some ([], xs) else (rest >>= λ (popped, below). some (x ∷ popped, below))

abbrev pub is_empty : List ℕ → Bool
is_empty [] = true
is_empty (x ∷ xs) = false

-- An operator or a bracket: the suffix and the operators after it.
unfoldable pub place : ℕ → List Token → List ℕ → Option (List Token × List ℕ)
unfolding pop_while pop_bracket
place cur suffix operators =
    if is_empty operators || cur == b'('
    then some (suffix, cur ∷ operators)
    else if not (cur == b')')
    then (let (popped, rest) = pop_while (get_priority cur) operators in
        some (suffix ++ map op popped, cur ∷ rest))
    else (pop_bracket operators >>= λ (popped, rest). some (suffix ++ map op popped, rest))

-- One round of the scan: what is left of the text, the suffix, the operators.
unfoldable pub scan_step : ℕ → List ℕ → List Token → List ℕ → Option (List ℕ × List Token × List ℕ)
unfolding span_digits place
scan_step cur text suffix operators =
    if cur == b' '
    then some (text, suffix, operators)
    else if is_digit cur
    then (let (ds, rest) = span_digits text in
        some (rest, suffix ++ digits (cur ∷ ds) ∷ [], operators))
    else (place cur suffix operators >>= λ (suffix', operators'). some (text, suffix', operators'))

unfoldable pub scan : ℕ → List ℕ → List Token → List ℕ → Option (List Token × List ℕ)
unfolding scan_step
scan fuel [] suffix operators = some (suffix, operators)
scan zero (cur ∷ text) suffix operators = none
scan (suc fuel) (cur ∷ text) suffix operators =
    scan_step cur text suffix operators >>= λ (text', suffix', operators').
    scan fuel text' suffix' operators'

-- `atoi` of digits.
abbrev pub add_digit : ℕ → ℕ → ℕ
add_digit n c = n * 10 + (c - b'0')

unfoldable pub decimal : ℕ → List ℕ → ℕ
decimal n [] = n
decimal n (c ∷ cs) = decimal (add_digit n c) cs

unfoldable pub atoi : List ℕ → Option ℤ
unfolding decimal
atoi ds = to_int (pos (decimal 0 ds))

abbrev pub top : List ℤ → Option ℤ
top [] = none
top (n ∷ nums) = some n

-- An operator on the stack of numbers.
abbrev pub apply_op : ℕ → List ℤ → Option (List ℤ)
apply_op ch (num_1 ∷ num_2 ∷ nums) = calculate num_2 num_1 ch >>= λ n. some (n ∷ nums)
apply_op ch _ = none

unfoldable pub evaluate : List Token → List ℤ → Option ℤ
unfolding calculate atoi
evaluate [] nums = top nums
evaluate (op ch ∷ ts) nums = apply_op ch nums >>= evaluate ts
evaluate (digits ds ∷ ts) nums = atoi ds >>= λ n. evaluate ts (n ∷ nums)

unfoldable pub get_int_from_string_expression : List ℕ → Option ℤ
unfolding scan evaluate
get_int_from_string_expression expression = do
  (suffix, operators) ← scan (length expression) expression [] []
  evaluate (suffix ++ map op operators) []

-- `std::to_string` of an `int`, which has ten digits at most.
unfoldable pub to_digits : ℕ → ℕ → List ℕ
to_digits zero n = (n + b'0') ∷ []
to_digits (suc fuel) n =
    let front = to_digits fuel (n / 10) in
    if ltb n 10 then (n + b'0') ∷ [] else front ++ (n % 10 + b'0') ∷ []

unfoldable pub to_string : ℤ → List ℕ
unfolding to_digits
to_string (pos n) = to_digits 10 n
to_string (negsuc n) = b'-' ∷ to_digits 10 (suc n)

-- The value of a key in a section of the file, if it is there.
abbrev pub Reader : Type 0
Reader = List ℕ → List ℕ → Option (List ℕ)

abbrev pub get : Option (List ℕ) → List ℕ → List ℕ
get none default = default
get (some text) default = text

unfoldable pub get_int : Reader → List ℕ → List ℕ → ℤ → Option ℤ
get_int reader section search default =
    get_int_from_string_expression (get (reader section search) (to_string default))

-- `static_cast` of an `int` to an unsigned type.
abbrev pub to_unsigned : ℕ → ℤ → ℕ
to_unsigned modulus (pos n) = n % modulus
to_unsigned modulus (negsuc n) = (modulus - 1) - n % modulus

unfoldable pub get_uint16 : Reader → List ℕ → List ℕ → ℤ → Option ℕ
get_uint16 reader section search default =
    get_int reader section search default >>= λ n. some (to_unsigned (2 ^ 16) n)

unfoldable pub get_size : Reader → List ℕ → List ℕ → ℤ → Option ℕ
get_size reader section search default =
    get_int reader section search default >>= λ n. some (to_unsigned (2 ^ 64) n)
