-- ===== src/Base/Env/Options.antt =====
-- Options on the command line, and what is read back of them.
use burger.Common.{
  ◌≡◌, refl, sym, ap, ◌∙◌, ◌<◌, Bool, true, false, Option, none, some, List, [], ◌∷◌, ◌++◌,
  if◌then◌else◌, ◌==◌, arith, length, Bool-cases, inl, inr,
}
use burger.Base.StringUtil.{same}
use burger.Base.StringUtil.Same.{same→eq, same_refl}
use burger.Base.Env.{Text, Env, minus, put, find, add, get, parse, init, before_last_slash, slash}

-- An option: its name, and its value if it has one.
abbrev pub Opt : Type 0
Opt = Text × Option Text

abbrev pub print : List Opt → List Text
print [] = []
print ((key, none) ∷ opts) = (minus ∷ key) ∷ print opts
print ((key, some v) ∷ opts) = (minus ∷ key) ∷ v ∷ print opts

abbrev pub starts_minus : Text → Bool
starts_minus [] = false
starts_minus (c ∷ cs) = c == minus

-- No name is empty, and no value looks like an option.
unfoldable pub AllPlain : List Opt → Type 0
AllPlain [] = Unit {0}
AllPlain ((key, none) ∷ opts) = (0 < length key) × AllPlain opts
AllPlain ((key, some v) ∷ opts) = (0 < length key) × (starts_minus v ≡ false) × AllPlain opts

abbrev pub value : Option Text → Text
value none = []
value (some v) = v

abbrev pub add_all : List Opt → Env → Env
add_all [] e = e
add_all ((key, v) ∷ opts) e = add_all opts (add key (value v) e)

-- The value of the last option with a name.
abbrev pub last_of : Text → List Opt → Text → Text
last_of key [] d = d
last_of key ((k, v) ∷ opts) d = last_of key opts (if same key k then value v else d)

same-other : (j key k : Text) → same key k ≡ false → same j k ≡ true → same j key ≡ false
same-other j key k e f = elim (Bool-cases (same j key)) [
  | inl g ↦
      let q : key ≡ k = sym (same→eq j key g) ∙ same→eq j k f in
      let r : same key k ≡ true = rw q (same_refl k) in cc
  | inr g ↦ g
]

find-put :
    (j key val : Text) (m : List (Text × Text))
    → find j (put key val m) ≡ (if same j key then some val else find j m)
unfolding find put
find-put j key val [] = ground arith
find-put j key val ((k, v) ∷ rest) = elim (Bool-cases (same key k)) [
  | inl e ↦ let q : key ≡ k = same→eq key k e in rw (e, q) (ground arith)
  | inr e ↦ rw e (elim (Bool-cases (same j k)) [
    | inl f ↦ rw (f, same-other j key k e f) refl
    | inr f ↦ rw f (find-put j key val rest)
  ])
]

get-add :
    (j d key val : Text) (e : Env)
    → get j d (add key val e) ≡ (if same j key then val else get j d e)
unfolding get add
get-add j d key val e = ground (arith, find-put j key val e.args)

get-add_all :
    (key d : Text) (opts : List Opt) (e : Env)
    → get key d (add_all opts e) ≡ last_of key opts (get key d e)
get-add_all key d [] e = refl
get-add_all key d ((k, v) ∷ opts) e =
    get-add_all key d opts (add k (value v) e)
    ∙ ap (λ x. last_of key opts x) (get-add key d k (value v) e)

get-start : (key d : Text) (e f : Env) → f.args ≡ e.args → get key d f ≡ get key d e
unfolding get
get-start key d e f h = rw h refl

-- A name that waits is flushed by the next option, or by the end.
parse-flush :
    (key : Text) (opts : List Opt) (e : Env)
    → AllPlain opts
    → parse (some key) (print opts) e ≡ parse none (print opts) (add key [] e)
unfolding parse AllPlain
parse-flush key [] e p = refl
parse-flush key ((k, none) ∷ opts) e p = ground arith
parse-flush key ((k, some v) ∷ opts) e p = ground arith

parse-print :
    (opts : List Opt) (e : Env) → AllPlain opts → parse none (print opts) e ≡ (true, add_all opts e)
unfolding parse AllPlain
parse-print [] e p = refl
parse-print ((k, none) ∷ opts) e p =
    ground (arith, parse-flush k opts e, parse-print opts (add k [] e))
parse-print ((k, some []) ∷ opts) e p = ground (arith, parse-print opts (add k [] e))
parse-print ((k, some (c ∷ cs)) ∷ opts) e p = ground (arith, parse-print opts (add k (c ∷ cs) e))

-- Init succeeds on a program whose path is shorter than 1024 and on arguments that spell options,
-- with names that are not empty and values, if any, that do not begin with a minus; get then gives
-- for every name the value of the last option with it, empty if that has none, and what it gave
-- before if there is no such option.
pub init-get :
    (program path key d : Text) (opts : List Opt) (e : Env)
    → AllPlain opts
    → length path < 1024
    → (e' : Env) × (init (some path) (program ∷ print opts) e ≡ some (true, e'))
      × (get key d e' ≡ last_of key opts (get key d e))
unfolding init
init-get program path key d opts e plain short =
    let start : Env = record e {
      exe = path;
      cwd = before_last_slash path ++ slash ∷ [];
      program = program;
    } in
    (
      add_all opts start,
      ground (arith, parse-print opts start plain),
      get-add_all key d opts start ∙ ap (last_of key opts) (get-start key d e start refl),
    )
