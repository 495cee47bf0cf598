-- ===== src/Base/Env/Tests.antt =====
-- Runs of the model at concrete inputs.
use burger.Common.{ℕ, ◌≡◌, refl, true, false, none, some, List, [], ◌∷◌, ◌>>=◌, arith}
use burger.Base.Env.{
  Text, Env, init, parse, before_last_slash, add, put, find, get, has, del, erase, add_help,
  remove_help, get_absolute_path,
}
use burger.Base.Env.Options.{Opt, AllPlain, print, last_of, init-get}

abbrev empty : Env
empty = record { args = []; helps = []; exe = []; cwd = []; program = [] }

abbrev name : ℕ → Text
name n = n ∷ []

abbrev path : Text
path = b'/' ∷ b'x' ∷ b'/' ∷ b'y' ∷ []

abbrev opts : List Opt
opts = (name b'f', some (name b'1')) ∷ (name b'd', none) ∷ (name b'f', some (name b'2')) ∷ []

-- The directory of the program.
directory :
    (init (some path) (name b'p' ∷ []) empty >>= λ r. some r.1.cwd) ≡ some (b'/' ∷ b'x' ∷ b'/' ∷ [])
unfolding init parse before_last_slash
directory = refl

-- A value without a name is refused.
no_name : (parse none (name b'v' ∷ []) empty).0 ≡ false
unfolding parse
no_name = refl

deleted : has (name b'f') (del (name b'f') (add (name b'f') [] empty)) ≡ false
unfolding has del erase add put find
deleted = refl

helped :
    (add_help (name b'h') (name b'2') (add_help (name b'h') (name b'1') empty)).helps
    ≡ (name b'h', name b'2') ∷ []
unfolding add_help remove_help erase
helped = refl

relative : get_absolute_path (name b'a') (record empty { cwd = name b'/' }) ≡ b'/' ∷ b'a' ∷ []
unfolding get_absolute_path
relative = refl

plain : AllPlain opts
unfolding AllPlain
plain = (omega arith, refl, (omega arith, (omega arith, refl, tt)))

init-get_example :
    (e' : Env) × (init (some path) (name b'p' ∷ print opts) empty ≡ some (true, e'))
    × (get (name b'f') [] e' ≡ last_of (name b'f') opts (get (name b'f') [] empty))
init-get_example = init-get (name b'p') path (name b'f') [] opts empty plain (omega arith)
