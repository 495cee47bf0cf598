-- ===== src/Http/Message.antt =====
-- burger/deprecated/http/HttpRequest.h, HttpRequest.cc, HttpResponse.h and HttpResponse.cc, with the map of
-- MapType.h and CaseInsensitiveLess of burger/base/Util.h: requests and responses. A text is its bytes,
-- without a zero byte. Parameters and cookies, which nothing fills, are left out.
pub mod Headers
pub mod Order
mod Tests
use burger.Common.{
  ℕ, zero, suc, ◌+◌, Bool, true, false, not, ◌&&◌, Option, none, some, List, [], ◌∷◌, ◌++◌,
  if◌then◌else◌, ltb, leb, ◌==◌, length,
}
use burger.Base.Config.{to_digits}
use burger.Http.Method.{Method, get as get_method, method_to_string, codes}
use burger.Http.Status.{Status, Version, http11, version_to_string, status_to_string}

abbrev pub Text : Type 0
Text = List ℕ

abbrev pub to_lower : ℕ → ℕ
to_lower c = if leb b'A' c && leb c b'Z' then c + 32 else c

-- `CaseInsensitiveLess`: whether `strcasecmp` of two texts is below 0.
unfoldable pub less : Text → Text → Bool
less [] [] = false
less [] (d ∷ ds) = true
less (c ∷ cs) [] = false
less (c ∷ cs) (d ∷ ds) =
    let later = less cs ds in
    if ltb (to_lower c) (to_lower d)
    then true
    else if to_lower c == to_lower d
    then later
    else false

-- Whether `strcasecmp` of two texts is 0.
unfoldable pub same_case : Text → Text → Bool
same_case [] [] = true
same_case [] (d ∷ ds) = false
same_case (c ∷ cs) [] = false
same_case (c ∷ cs) (d ∷ ds) = to_lower c == to_lower d && same_case cs ds

-- A `std::map` over `less`: the place of a key is the first whose key is not less, and the key is
-- there if it is not less than that one. A key that is there keeps its spelling.
abbrev pub MapType : Type 0
MapType = List (Text × Text)

unfoldable pub put : Text → Text → MapType → MapType
unfolding less
put key val [] = (key, val) ∷ []
put key val ((k, v) ∷ rest) =
    let later = put key val rest in
    if less k key
    then (k, v) ∷ later
    else if less key k
    then (key, val) ∷ (k, v) ∷ rest
    else (k, val) ∷ rest

unfoldable pub find : Text → MapType → Option Text
unfolding less
find key [] = none
find key ((k, v) ∷ rest) =
    let later = find key rest in if less k key then later else if less key k then none else some v

unfoldable pub erase : Text → MapType → MapType
unfolding less
erase key [] = []
erase key ((k, v) ∷ rest) =
    let later = erase key rest in
    if less k key then (k, v) ∷ later else if less key k then (k, v) ∷ rest else rest

unfoldable pub get_or : Text → Text → MapType → Text
get_or key def m = elim (find key m) [ none ↦ def | some v ↦ v ]

-- `getAs` over `boost::lexical_cast`, which is `cast`.
unfoldable pub get_as : {A : Type 0} → (Text → Option A) → Text → A → MapType → A
get_as cast key def m = elim (find key m) [
  | none ↦ def
  | some v ↦ elim (cast v) [ none ↦ def | some a ↦ a ]
]

pub record Request : Type 0 where
  pub method : Method
  pub version : Version
  pub close : Bool
  pub path : Text
  pub query : Text
  pub fragment : Text
  pub body : Text
  pub headers : MapType

unfoldable pub new_request : Version → Bool → Request
new_request version close = record {
  method = get_method;
  version = version;
  close = close;
  path = b'/' ∷ [];
  query = [];
  fragment = [];
  body = [];
  headers = [];
}

unfoldable pub set_header : Text → Text → Request → Request
unfolding put
set_header key val r = record r { headers = put key val r.headers }

unfoldable pub get_header : Text → Text → Request → Text
unfolding get_or
get_header key def r = get_or key def r.headers

abbrev pub crlf : Text
crlf = 13 ∷ 10 ∷ []

abbrev pub marked : ℕ → Text → Text
marked c [] = []
marked c (d ∷ ds) = c ∷ d ∷ ds

abbrev pub connection_line : Bool → Text
connection_line close =
    codes "connection: " ++ (if close then codes "close" else codes "keep-alive") ++ crlf

unfoldable pub dump_headers : MapType → Text
dump_headers [] = []
dump_headers ((k, v) ∷ rest) =
    let later = dump_headers rest in
    if same_case k (codes "connection") then later else k ++ codes ": " ++ v ++ crlf ++ later

unfoldable pub dump_body : Text → Text
dump_body [] = crlf
dump_body (c ∷ cs) =
    codes "content-length: " ++ to_digits 20 (length (c ∷ cs)) ++ crlf ++ crlf ++ (c ∷ cs)

unfoldable pub dump_request : Request → Text
unfolding dump_headers dump_body
dump_request r =
    method_to_string r.method
    ++ b' ' ∷ r.path
    ++ marked b'?' r.query
    ++ marked b'#' r.fragment
    ++ b' ' ∷ version_to_string r.version
    ++ crlf
    ++ connection_line r.close
    ++ dump_headers r.headers
    ++ dump_body r.body

pub record Response : Type 0 where
  pub status : Status
  pub close : Bool
  pub version : Version
  pub body : Text
  pub reason : Text
  pub headers : MapType

unfoldable pub new_response : Bool → Version → Response
new_response close version = record {
  status = 200;
  close = close;
  version = version;
  body = [];
  reason = [];
  headers = [];
}

abbrev pub reason_or : Text → Text → Text
reason_or [] text = text
reason_or (c ∷ cs) text = c ∷ cs

unfoldable pub dump_response : Response → Text
unfolding dump_headers dump_body
dump_response r =
    version_to_string r.version
    ++ b' ' ∷ to_digits 10 r.status
    ++ b' ' ∷ reason_or r.reason (status_to_string r.status)
    ++ crlf
    ++ dump_headers r.headers
    ++ connection_line r.close
    ++ dump_body r.body

unfoldable pub set_response_header : Text → Text → Response → Response
unfolding put
set_response_header key val r = record r { headers = put key val r.headers }

unfoldable pub get_response_header : Text → Text → Response → Text
unfolding get_or
get_response_header key def r = get_or key def r.headers

unfoldable pub del_header : Text → Response → Response
unfolding erase
del_header key r = record r { headers = erase key r.headers }

unfoldable pub set_redirect : Text → Response → Response
unfolding set_response_header
set_redirect uri r = set_response_header (codes "Location") uri (record r { status = 302 })
