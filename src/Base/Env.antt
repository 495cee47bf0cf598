-- ===== src/Base/Env.antt =====
-- burger/base/Env.h and burger/base/Env.cc: the arguments of the program, its help texts and its paths. A text is its
-- bytes, without a zero byte. What the system answers is an argument; the locks are left out, and so
-- is the printing of the help.
pub mod Options
mod Tests
use burger.Common.{
  ℕ, zero, suc, Bool, true, false, not, Option, none, some, List, [], ◌∷◌, ◌++◌, if◌then◌else◌, ltb,
  ◌==◌, ◌>>=◌, ◌>>◌, assert, length,
}
use burger.Base.StringUtil.{same}

abbrev pub Text : Type 0
Text = List ℕ

pub record Env : Type 0 where
  pub args : List (Text × Text)
  pub helps : List (Text × Text)
  pub exe : Text
  pub cwd : Text
  pub program : Text

abbrev pub slash : ℕ
slash = b'/'

abbrev pub minus : ℕ
minus = b'-'

unfoldable pub put : Text → Text → List (Text × Text) → List (Text × Text)
put key val [] = (key, val) ∷ []
put key val ((k, v) ∷ rest) =
    let later = put key val rest in if same key k then (k, val) ∷ rest else (k, v) ∷ later

unfoldable pub find : Text → List (Text × Text) → Option Text
find key [] = none
find key ((k, v) ∷ rest) = let later = find key rest in if same key k then some v else later

unfoldable pub erase : Text → List (Text × Text) → List (Text × Text)
erase key [] = []
erase key ((k, v) ∷ rest) =
    let later = erase key rest in if same key k then later else (k, v) ∷ later

unfoldable pub add : Text → Text → Env → Env
unfolding put
add key val e = record e { args = put key val e.args }

abbrev pub is_some : Option Text → Bool
is_some none = false
is_some (some v) = true

unfoldable pub has : Text → Env → Bool
has key e = is_some (find key e.args)

unfoldable pub del : Text → Env → Env
unfolding erase
del key e = record e { args = erase key e.args }

unfoldable pub get : Text → Text → Env → Text
get key default e = elim (find key e.args) [ none ↦ default | some v ↦ v ]

unfoldable pub remove_help : Text → Env → Env
unfolding erase
remove_help key e = record e { helps = erase key e.helps }

unfoldable pub add_help : Text → Text → Env → Env
unfolding remove_help
add_help key desc e =
    let e' = remove_help key e in record e' { helps = e'.helps ++ (key, desc) ∷ [] }

-- What stands before the last slash; all of it where there is none.
abbrev pub has_slash : Text → Bool
has_slash [] = false
has_slash (c ∷ cs) = if c == slash then true else has_slash cs

unfoldable pub before_last_slash : Text → Text
before_last_slash [] = []
before_last_slash (c ∷ cs) =
    let later = before_last_slash cs in
    if has_slash cs then c ∷ later else if c == slash then [] else c ∷ cs

-- A key that waits for its value gets an empty one.
abbrev pub flush : Option Text → Env → Env
flush none e = e
flush (some key) e = add key [] e

-- The loop over the arguments behind the program.
unfoldable pub parse : Option Text → List Text → Env → Bool × Env
parse now_key [] e = (true, flush now_key e)
parse now_key ([] ∷ args) e = elim now_key [
  | none ↦ (false, e)
  | some key ↦ parse none args (add key [] e)
]
parse now_key ((c ∷ cs) ∷ args) e =
    let option : Bool × Env = parse (some cs) args (flush now_key e) in
    let value : Bool × Env = elim now_key [
      | none ↦ (false, e)
      | some key ↦ parse none args (add key (c ∷ cs) e)
    ] in
    if c == minus then (if ltb 0 (length cs) then option else (false, e)) else value

-- `link` is the path that `readlink` answers; one that fills the buffer has no end. There is no
-- `argv[0]` where `argv` is empty.
unfoldable pub init : Option Text → List Text → Env → Option (Bool × Env)
unfolding parse before_last_slash
init link [] e = none
init link (program ∷ args) e =
    let exe : Text = elim link [ none ↦ [] | some path ↦ path ] in
    assert (ltb (length exe) 1024)
    >> some (
        parse none args
          (record e { exe = exe; cwd = before_last_slash exe ++ slash ∷ []; program = program }))

unfoldable pub get_env : Option Text → Text → Text
get_env v default = elim v [ none ↦ default | some text ↦ text ]

unfoldable pub set_env : ℕ → Bool
set_env rt = rt == 0

unfoldable pub get_absolute_path : Text → Env → Text
get_absolute_path [] e = slash ∷ []
get_absolute_path (c ∷ cs) e = if c == slash then c ∷ cs else e.cwd ++ (c ∷ cs)

unfoldable pub get_absolute_work_path : Text → Text
get_absolute_work_path [] = slash ∷ []
get_absolute_work_path (c ∷ cs) = if c == slash then c ∷ cs else []
