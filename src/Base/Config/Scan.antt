-- ===== src/Base/Config/Scan.antt =====
-- The scan of `getIntFromStringExpression` gives the postfix form of an expression.
use mathlib.Core.List.{append_assoc, append-nil, map-append}
use burger.Common.{
  ℕ, zero, suc, ◌≤◌, ◌<◌, ◌≡◌, refl, sym, ap, inl, inr, ◌∙◌, Bool, true, false, Option, none, some,
  List, [], ◌∷◌, ◌++◌, map, arith, ltb, ◌==◌, ◌>>=◌, length, Bool-cases, ltb_false→le,
}
use burger.Base.Config.{
  Token, digits, op, get_priority, is_digit, span_digits, pop_while, pop_bracket, place, scan_step,
  scan, evaluate, get_int_from_string_expression,
}
use burger.Base.Config.Postfix.{
  Operator, plus, minus, times, over, Expr, num, bin, symbol, precedence, value, postfix,
  evaluate-postfix,
}

-- With brackets where the precedence asked for is higher than the expression's.
abbrev pub bracket : Bool → List ℕ → List ℕ
bracket true text = b'(' ∷ (text ++ b')' ∷ [])
bracket false text = text

unfoldable pub print : ℕ → Expr → List ℕ
print p (num c cs) = c ∷ cs
print p (bin o l r) =
    bracket (ltb (precedence o) p)
      (print (precedence o) l ++ (symbol o ∷ print (suc (precedence o)) r))

abbrev pub AllDigits : List ℕ → Type 0
AllDigits [] = Unit {0}
AllDigits (c ∷ cs) = (b'0' ≤ c) × (c ≤ b'9') × AllDigits cs

-- Every number is made of digits.
abbrev pub HasDigits : Expr → Type 0
HasDigits (num c cs) = AllDigits (c ∷ cs)
HasDigits (bin o l r) = HasDigits l × HasDigits r

pub record State : Type 0 where
  pub text : List ℕ
  pub suffix : List Token
  pub operators : List ℕ

-- The rounds of the loop from one state to another.
pub data Runs : State → State → Type 0 where
  stay : {s : State} → Runs s s
  round :
      {c : ℕ} {cs text : List ℕ} {ts suffix : List Token} {os operators : List ℕ} {s : State}
      → scan_step c cs ts os ≡ some (text, suffix, operators)
      → Runs (record { text = text; suffix = suffix; operators = operators }) s
      → Runs (record { text = c ∷ cs; suffix = ts; operators = os }) s

Runs-trans : {a b c : State} → Runs a b → Runs b c → Runs a c
Runs-trans stay r = r
Runs-trans (round e q) r = round e (Runs-trans q r)

-- All operators have this priority at least.
abbrev pub AllAbove : ℕ → List ℕ → Type 0
AllAbove p [] = Unit {0}
AllAbove p (x ∷ xs) = (p ≤ get_priority x) × AllAbove p xs

-- The operator on top has a lower priority.
abbrev pub Below : ℕ → List ℕ → Type 0
Below p [] = Unit {0}
Below p (x ∷ xs) = get_priority x < p

-- The next byte is no digit.
abbrev pub Ends : List ℕ → Type 0
Ends [] = Unit {0}
Ends (c ∷ cs) = is_digit c ≡ false

AllAbove-weaken : (p q : ℕ) (xs : List ℕ) → p ≤ q → AllAbove q xs → AllAbove p xs
AllAbove-weaken p q [] h a = tt
AllAbove-weaken p q (x ∷ xs) h (a, more) = (omega arith, AllAbove-weaken p q xs h more)

AllAbove-append : (p : ℕ) (xs ys : List ℕ) → AllAbove p xs → AllAbove p ys → AllAbove p (xs ++ ys)
AllAbove-append p [] ys a b = b
AllAbove-append p (x ∷ xs) ys (a, more) b = (a, AllAbove-append p xs ys more b)

is_digit_lem : (c : ℕ) → b'0' ≤ c → c ≤ b'9' → is_digit c ≡ true
is_digit_lem c a b = ground arith

span_digits-append :
    (ds rest : List ℕ) → AllDigits ds → Ends rest → span_digits (ds ++ rest) ≡ (ds, rest)
unfolding span_digits
span_digits-append [] [] a e = refl
span_digits-append [] (c ∷ rest) a e = rw e refl
span_digits-append (c ∷ ds) rest (a, b, more) e =
    rw (span_digits-append ds rest more e, is_digit_lem c a b) refl

pop_while-append :
    (p : ℕ) (pending os : List ℕ)
    → AllAbove p pending
    → Below p os
    → pop_while p (pending ++ os) ≡ (pending, os)
unfolding pop_while
pop_while-append p [] [] a b = refl
pop_while-append p [] (x ∷ os) a b = ground arith
pop_while-append p (x ∷ xs) os (a, more) b = ground (arith, pop_while-append p xs os more b)

pop_bracket-append :
    (pending os : List ℕ)
    → AllAbove 2 pending
    → pop_bracket (pending ++ b'(' ∷ os) ≡ some (pending, os)
unfolding pop_bracket
pop_bracket-append [] os a = refl
pop_bracket-append (x ∷ xs) os (a, more) = ground (arith, pop_bracket-append xs os more)

tokens_lem : (a b c d : List Token) → a ++ ((b ++ c) ++ d) ≡ ((a ++ b) ++ c) ++ d
tokens_lem a b c d = simp append_assoc

abbrev pub state : List ℕ → List Token → List ℕ → State
state text suffix operators = record { text = text; suffix = suffix; operators = operators }

Runs-eq :
    {a b c : List ℕ} {d e f : List Token} {g j k : List ℕ}
    → a ≡ b
    → e ≡ f
    → j ≡ k
    → Runs (state b d g) (state c e k)
    → Runs (state a d g) (state c f j)
Runs-eq p q r run = rw (p, ← q, r) run

-- The text of an expression of this priority is scanned, whatever follows it and lies below: its
-- postfix form is what went to the suffix and the operators that are still pending.
abbrev pub Scans : ℕ → List ℕ → List Token → Type 0
Scans p text form =
    (rest : List ℕ) (ts : List Token) (os : List ℕ)
    → Ends rest
    → Below p os
    → (done : List Token) × (pending : List ℕ) × Runs (state (text ++ rest) ts os)
        (state rest (ts ++ done) (pending ++ os))
      × (done ++ map op pending ≡ form)
      × AllAbove p pending

abbrev pub IsSymbol : ℕ → Type 0
IsSymbol c =
    ((c == b' ') ≡ false) × (is_digit c ≡ false) × ((c == b'(') ≡ false) × ((c == b')') ≡ false)

symbol-IsSymbol : (o : Operator) → IsSymbol (symbol o)
symbol-IsSymbol plus = (refl, refl, refl, refl)
symbol-IsSymbol minus = (refl, refl, refl, refl)
symbol-IsSymbol times = (refl, refl, refl, refl)
symbol-IsSymbol over = (refl, refl, refl, refl)

precedence_lem : (o : Operator) → (get_priority (symbol o) ≡ precedence o) × (2 ≤ precedence o)
precedence_lem plus = omega arith
precedence_lem minus = omega arith
precedence_lem times = omega arith
precedence_lem over = omega arith

pub place_pops :
    (c : ℕ) (text : List ℕ) (ts : List Token) (xs popped rest : List ℕ)
    → IsSymbol c
    → pop_while (get_priority c) xs ≡ (popped, rest)
    → scan_step c text ts xs ≡ some (text, ts ++ map op popped, c ∷ rest)
unfolding scan_step place pop_while
place_pops c text ts [] popped rest (s, d, l, r) e =
    rw (s, d, ← ap (λ q. q.0) e, ← ap (λ q. q.1) e, append-nil) refl
place_pops c text ts (x ∷ xs) popped rest (s, d, l, r) e = rw (s, d, l, r, e) refl

place_symbol :
    (o : Operator) (text : List ℕ) (ts : List Token) (pending os : List ℕ)
    → AllAbove (precedence o) pending
    → Below (precedence o) os
    → scan_step (symbol o) text ts (pending ++ os)
      ≡ some (text, ts ++ map op pending, symbol o ∷ os)
place_symbol o text ts pending os a b =
    place_pops (symbol o) text ts (pending ++ os) pending os (symbol-IsSymbol o)
      (rw (precedence_lem o).0 (pop_while-append (precedence o) pending os a b))

place_open :
    (text : List ℕ) (ts : List Token) (os : List ℕ)
    → scan_step b'(' text ts os ≡ some (text, ts, b'(' ∷ os)
unfolding scan_step place
place_open text ts [] = refl
place_open text ts (x ∷ os) = refl

place_close :
    (text : List ℕ) (ts : List Token) (pending os : List ℕ)
    → AllAbove 2 pending
    → scan_step b')' text ts (pending ++ b'(' ∷ os) ≡ some (text, ts ++ map op pending, os)
unfolding scan_step place
place_close text ts [] os a = refl
place_close text ts (x ∷ pending) os a = rw (pop_bracket-append (x ∷ pending) os a) refl

pub scan_step-digits :
    (c : ℕ) (cs rest : List ℕ) (ts : List Token) (os : List ℕ)
    → AllDigits (c ∷ cs)
    → Ends rest
    → scan_step c (cs ++ rest) ts os ≡ some (rest, ts ++ digits (c ∷ cs) ∷ [], os)
unfolding scan_step
scan_step-digits c cs rest ts os (a, b, ds) e =
    let s : (c == b' ') ≡ false = ground arith in
    rw (s, is_digit_lem c a b, span_digits-append cs rest ds e) refl

num-Scans : (p c : ℕ) (cs : List ℕ) → AllDigits (c ∷ cs) → Scans p (c ∷ cs) (digits (c ∷ cs) ∷ [])
num-Scans p c cs d rest ts os e b =
    (digits (c ∷ cs) ∷ [], [], round (scan_step-digits c cs rest ts os d e) stay, refl, tt)

-- Both sides of an operator, with no bracket round them.
bin-Scans :
    (o : Operator) (left right : List ℕ) (l r : List Token)
    → Scans (precedence o) left l
    → Scans (suc (precedence o)) right r
    → Scans (precedence o) (left ++ symbol o ∷ right) (l ++ (r ++ op (symbol o) ∷ []))
bin-Scans o left right l r scan_l scan_r rest ts os e b =
    let q = precedence_lem o in
    let (dl, pl, run_l, el, al) =
      scan_l (symbol o ∷ (right ++ rest)) ts os (symbol-IsSymbol o).1 b in
    let (dr, pr, run_r, er, ar) =
      scan_r rest (ts ++ dl ++ map op pl) (symbol o ∷ os) e (omega (arith, q)) in
    let start = append_assoc left (symbol o ∷ right) rest in
    let form : (dl ++ map op pl) ++ dr ++ map op (pr ++ symbol o ∷ [])
        ≡ l ++ (r ++ op (symbol o) ∷ []) =
      rw (← el, ← er) (simp (append_assoc, map-append)) in
    let run =
      Runs-trans run_l (round (place_symbol o (right ++ rest) (ts ++ dl) pl os al b) run_r) in
    (
      (dl ++ map op pl) ++ dr,
      pr ++ symbol o ∷ [],
      Runs-eq start (sym (tokens_lem ts dl (map op pl) dr)) (append_assoc pr (symbol o ∷ []) os)
          run,
      form,
      AllAbove-append (precedence o) pr (symbol o ∷ [])
          (AllAbove-weaken (precedence o) (suc (precedence o)) pr (omega arith) ar)
          (omega (arith, q)),
    )

bracket-Scans :
    (p q : ℕ) (text : List ℕ) (form : List Token)
    → 2 ≤ q
    → Scans q text form
    → Scans p (b'(' ∷ (text ++ b')' ∷ [])) form
bracket-Scans p q text form h scan_in rest ts os e b =
    let (done, pending, run, f, a) = scan_in (b')' ∷ rest) ts (b'(' ∷ os) refl (omega arith) in
    (
      done ++ map op pending,
      [],
      Runs-eq (append_assoc (b'(' ∷ text) (b')' ∷ []) rest) (append_assoc ts done (map op pending))
          refl
          (round (place_open (text ++ b')' ∷ rest) ts os) (
            Runs-trans run (
              round (place_close rest (ts ++ done) pending os (AllAbove-weaken 2 q pending h a))
                stay))),
      append-nil (done ++ map op pending) ∙ f,
      tt,
    )

Below-mono : (p q : ℕ) (os : List ℕ) → p ≤ q → Below p os → Below q os
Below-mono p q [] h b = tt
Below-mono p q (x ∷ os) h b = omega arith

Scans-weaken :
    (p q : ℕ) (text : List ℕ) (form : List Token) → p ≤ q → Scans q text form → Scans p text form
Scans-weaken p q text form h scan_q rest ts os e b =
    let (done, pending, run, f, a) = scan_q rest ts os e (Below-mono p q os h b) in
    (done, pending, run, f, AllAbove-weaken p q pending h a)

print-Scans : (e : Expr) (p : ℕ) → HasDigits e → Scans p (print p e) (postfix e)
unfolding print postfix
print-Scans (num c cs) p d = num-Scans p c cs d
print-Scans (bin o l r) p (dl, dr) = elim (Bool-cases (ltb (precedence o) p)) [
  | inl high ↦ rw high (
      bracket-Scans p (precedence o)
        (print (precedence o) l ++ (symbol o ∷ print (suc (precedence o)) r))
        (postfix l ++ (postfix r ++ op (symbol o) ∷ [])) (precedence_lem o).1
        (bin-Scans o (print (precedence o) l) (print (suc (precedence o)) r) (postfix l) (postfix r)
          (print-Scans l (precedence o) dl) (print-Scans r (suc (precedence o)) dr)))
  | inr low ↦ rw low (
      Scans-weaken p (precedence o) _ _ (ltb_false→le (precedence o) p low) (
        bin-Scans o (print (precedence o) l) (print (suc (precedence o)) r) (postfix l) (postfix r)
          (print-Scans l (precedence o) dl) (print-Scans r (suc (precedence o)) dr)))
]

span_digits-le : (cs : List ℕ) → length (span_digits cs).1 ≤ length cs
unfolding span_digits
span_digits-le [] = omega arith
span_digits-le (c ∷ cs) = ground (arith, span_digits-le cs)

scan_step-le :
    (c : ℕ) (cs : List ℕ) (ts : List Token) (os text : List ℕ) (ts' : List Token) (os' : List ℕ)
    → scan_step c cs ts os ≡ some (text, ts', os')
    → length text ≤ length cs
unfolding scan_step
scan_step-le c cs ts os text ts' os' h = ground (arith, span_digits-le cs)

-- As much fuel as there are bytes is enough.
Runs-scan :
    {a b : State}
    → Runs a b
    → b.text ≡ []
    → (fuel : ℕ) → length a.text ≤ fuel
    → scan fuel a.text a.suffix a.operators ≡ some (b.suffix, b.operators)
unfolding scan
Runs-scan {a} stay e fuel h = rw e refl
Runs-scan (round r q) e zero h = absurd (omega arith)
Runs-scan (round {c} {cs} {text} {ts} {suffix} {os} {operators} r q) e (suc fuel) h =
    rw r (Runs-scan q e fuel (omega (arith, scan_step-le c cs ts os text suffix operators r)))

-- The scan of a whole text, from the rounds that take it in.
pub scan_all :
    (text : List ℕ) (suffix : List Token) (operators : List ℕ)
    → Runs (state (text ++ []) [] []) (state [] suffix (operators ++ []))
    → get_int_from_string_expression text ≡ evaluate (suffix ++ map op operators) []
unfolding get_int_from_string_expression
scan_all text suffix operators run =
    let s = Runs-scan run refl (length text) (omega (arith, ap length (append-nil text))) in
    let s' : scan (length text) text [] [] ≡ some (suffix, operators) =
      rw (append-nil text, append-nil operators) at s in
    rw s' refl

bind-some : {A : Type 0} (m : Option A) → (m >>= λ a. some a) ≡ m
bind-some none = refl
bind-some (some a) = refl

-- The text of any expression of numbers and the four operations, printed with brackets only where
-- precedence and left association ask for them, is read as the value of the expression: digits
-- count by their place, the operations are those of the integers with the quotient towards zero,
-- and it is undefined exactly where a number or a step leaves the range of int or a division is by
-- zero.
pub get_int_from_string_expression-print :
    (e : Expr) (p : ℕ) → HasDigits e → get_int_from_string_expression (print p e) ≡ value e
unfolding evaluate
get_int_from_string_expression-print e p d =
    let (done, pending, run, f, a) = print-Scans e p d [] [] [] tt tt in
    scan_all (print p e) done pending run
    ∙ ap (λ ts. evaluate ts []) (f ∙ sym (append-nil (postfix e)))
    ∙ evaluate-postfix e [] []
    ∙ bind-some (value e)
