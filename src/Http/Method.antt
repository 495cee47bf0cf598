-- ===== src/Http/Method.antt =====
-- burger/deprecated/http/HttpMethod.h and HttpMethod.cc: the methods and their names. A text is its bytes.
pub mod Chars
use Prim.Native.Char.{code}
use Prim.Native.String.{String}
use burger.Common.{
  ℕ, Bool, true, false, ◌&&◌, Option, none, some, List, [], ◌∷◌, if◌then◌else◌, ◌==◌,
}
use burger.Base.StringUtil.{same}

-- The bytes of an ASCII text.
abbrev pub codes : String → List ℕ
codes String.[] = []
codes (String.◌∷◌ c s) = code c ∷ codes s

pub data Method : Type 0 where
  delete get head post put connect options trace : Method
  copy lock mkcol move propfind proppatch search unlock : Method
  bind rebind unbind acl report mkactivity checkout merge : Method
  msearch notify subscribe unsubscribe patch purge mkcalendar link : Method
  unlink source : Method
  invalid_method : Method

-- `HttpMethodToString`.
unfoldable pub method_to_string : Method → List ℕ
method_to_string delete = codes "DELETE"
method_to_string get = codes "GET"
method_to_string head = codes "HEAD"
method_to_string post = codes "POST"
method_to_string put = codes "PUT"
method_to_string connect = codes "CONNECT"
method_to_string options = codes "OPTIONS"
method_to_string trace = codes "TRACE"
method_to_string copy = codes "COPY"
method_to_string lock = codes "LOCK"
method_to_string mkcol = codes "MKCOL"
method_to_string move = codes "MOVE"
method_to_string propfind = codes "PROPFIND"
method_to_string proppatch = codes "PROPPATCH"
method_to_string search = codes "SEARCH"
method_to_string unlock = codes "UNLOCK"
method_to_string bind = codes "BIND"
method_to_string rebind = codes "REBIND"
method_to_string unbind = codes "UNBIND"
method_to_string acl = codes "ACL"
method_to_string report = codes "REPORT"
method_to_string mkactivity = codes "MKACTIVITY"
method_to_string checkout = codes "CHECKOUT"
method_to_string merge = codes "MERGE"
method_to_string msearch = codes "M-SEARCH"
method_to_string notify = codes "NOTIFY"
method_to_string subscribe = codes "SUBSCRIBE"
method_to_string unsubscribe = codes "UNSUBSCRIBE"
method_to_string patch = codes "PATCH"
method_to_string purge = codes "PURGE"
method_to_string mkcalendar = codes "MKCALENDAR"
method_to_string link = codes "LINK"
method_to_string unlink = codes "UNLINK"
method_to_string source = codes "SOURCE"
method_to_string invalid_method = codes "<unknown>"

-- HTTP_METHOD_MAP, in its order.
abbrev pub methods : List Method
methods =
    delete ∷ get ∷ head ∷ post ∷ put ∷ connect ∷ options ∷ trace ∷ copy ∷ lock ∷ mkcol ∷ move
    ∷ propfind ∷ proppatch ∷ search ∷ unlock ∷ bind ∷ rebind ∷ unbind ∷ acl ∷ report ∷ mkactivity
    ∷ checkout ∷ merge ∷ msearch ∷ notify ∷ subscribe ∷ unsubscribe ∷ patch ∷ purge ∷ mkcalendar
    ∷ link ∷ unlink ∷ source ∷ []

-- `strncmp` of a name and what begins at a position, over the length of the name.
unfoldable pub begins : List ℕ → List ℕ → Bool
begins [] text = true
begins (c ∷ cs) [] = false
begins (c ∷ cs) (d ∷ ds) = c == d && begins cs ds

unfoldable pub first_method : (List ℕ → Bool) → List Method → Method
first_method test [] = invalid_method
first_method test (m ∷ ms) =
    let later = first_method test ms in if test (method_to_string m) then m else later

unfoldable pub string_to_method : List ℕ → Method
unfolding first_method
string_to_method text = first_method (λ name. same name text) methods

unfoldable pub chars_to_method : List ℕ → Method
unfolding first_method begins
chars_to_method at = first_method (λ name. begins name at) methods
