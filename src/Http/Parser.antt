-- ===== src/Http/Parser.antt =====
-- burger/deprecated/http/HttpRequestParser.cc and HttpResponseParser.cc: what the generated parsers call back, and
-- the messages that come of it. A call has the bytes from the position that it is given on, and a
-- length. The state of the generated parser itself is an argument.
pub mod Requests
mod Tests
use burger.Common.{
  ℕ, zero, suc, ◌+◌, Bool, true, false, not, ◌||◌, Option, none, some, List, [], ◌∷◌, ◌++◌,
  if◌then◌else◌, ◌==◌, take, drop, length, ◌-◌,
}
use burger.Base.StringUtil.{same}
use burger.Http.Method.{Method, invalid_method, chars_to_method, codes}
use burger.Http.Status.{Version, http10, http11}
use burger.Http.Message.{
  Text, Request, Response, new_request, new_response, set_header, set_response_header, get_as,
}

-- The calls of a parser of requests that do something.
pub data Call : Type 0 where
  request_method fragment request_path query_string http_version : Text → ℕ → Call
  http_field : Text → Text → Call

pub record RequestParser : Type 0 where
  pub request : Request
  pub error : ℕ

abbrev pub is_invalid : Method → Bool
is_invalid invalid_method = true
is_invalid m = false

unfoldable pub request_method_cb : Text → RequestParser → RequestParser
request_method_cb at p =
    let m = chars_to_method at in
    if is_invalid m
    then record p { error = 1000 }
    else record p { request = record p.request { method = m } }

-- `strncmp` over the length, of texts that do not end before it.
abbrev pub same_front : ℕ → Text → Text → Bool
same_front n xs ys = same (take n xs) (take n ys)

unfoldable pub version_of : Text → ℕ → Option Version
version_of at n =
    if same_front n at (codes "HTTP/1.1")
    then some http11
    else if same_front n at (codes "HTTP/1.0")
    then some http10
    else none

unfoldable pub request_version_cb : Text → ℕ → RequestParser → RequestParser
unfolding version_of
request_version_cb at n p = elim (version_of at n) [
  | none ↦ record p { error = 1001 }
  | some v ↦ record p { request = record p.request { version = v } }
]

unfoldable pub request_http_field_cb : Text → Text → RequestParser → RequestParser
unfolding set_header
request_http_field_cb [] value p = p
request_http_field_cb (c ∷ cs) value p = record p { request = set_header (c ∷ cs) value p.request }

unfoldable pub call : Call → RequestParser → RequestParser
unfolding request_method_cb request_version_cb request_http_field_cb
call (request_method at n) p = request_method_cb at p
call (fragment at n) p = record p { request = record p.request { fragment = take n at } }
call (request_path at n) p = record p { request = record p.request { path = take n at } }
call (query_string at n) p = record p { request = record p.request { query = take n at } }
call (http_version at n) p = request_version_cb at n p
call (http_field field value) p = request_http_field_cb field value p

unfoldable pub calls : List Call → RequestParser → RequestParser
unfolding call
calls [] p = p
calls (c ∷ cs) p = calls cs (call c p)

unfoldable pub new_parser : RequestParser
unfolding new_request
new_parser = record { request = new_request http11 true; error = 0 }

-- `failed` is `http_parser_has_error`.
unfoldable pub has_error : Bool → RequestParser → Bool
has_error failed p = not (p.error == 0) || failed

unfoldable pub get_content_length : (Text → Option ℕ) → RequestParser → ℕ
unfolding get_as
get_content_length cast p = get_as cast (codes "content-length") 0 p.request.headers

pub data ResponseCall : Type 0 where
  reason_phrase status_code response_version : Text → ℕ → ResponseCall
  response_field : Text → Text → ResponseCall

-- The members of HttpResponseParser; its constructor leaves `error` as the memory has it.
pub record ResponseParser : Type 0 where
  pub response : Response
  pub error : ℕ

-- `atoi` of the system is an argument.
unfoldable pub response_status_cb : (Text → ℕ) → Text → ResponseParser → ResponseParser
response_status_cb atoi at p = record p { response = record p.response { status = atoi at } }

unfoldable pub response_version_cb : Text → ℕ → ResponseParser → ResponseParser
unfolding version_of
response_version_cb at n p = elim (version_of at n) [
  | none ↦ record p { error = 1001 }
  | some v ↦ record p { response = record p.response { version = v } }
]

unfoldable pub response_http_field_cb : Text → Text → ResponseParser → ResponseParser
unfolding set_response_header
response_http_field_cb [] value p = p
response_http_field_cb (c ∷ cs) value p = record p {
  response = set_response_header (c ∷ cs) value p.response;
}

unfoldable pub response_call : (Text → ℕ) → ResponseCall → ResponseParser → ResponseParser
unfolding response_status_cb response_version_cb response_http_field_cb
response_call atoi (reason_phrase at n) p = record p {
  response = record p.response { reason = take n at };
}
response_call atoi (status_code at n) p = response_status_cb atoi at p
response_call atoi (response_version at n) p = response_version_cb at n p
response_call atoi (response_field field value) p = response_http_field_cb field value p

unfoldable pub response_has_error : Bool → ResponseParser → Bool
response_has_error failed p = not (p.error == 0) || failed

unfoldable pub get_response_content_length : (Text → Option ℕ) → ResponseParser → ℕ
unfolding get_as
get_response_content_length cast p = get_as cast (codes "content-length") 0 p.response.headers

-- `memmove` after the generated parser has read `offset` bytes: the rest comes to the front.
unfoldable pub moved : ℕ → Text → Text
moved offset text = drop offset text ++ drop (length text - offset) text
