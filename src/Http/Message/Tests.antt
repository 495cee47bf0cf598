-- ===== src/Http/Message/Tests.antt =====
-- Runs of the model at concrete inputs.
use burger.Common.{◌≡◌, refl, true, List, [], ◌∷◌, ◌++◌}
use burger.Base.Config.{to_digits}
use burger.Http.Method.{codes, method_to_string}
use burger.Http.Status.{http11, version_to_string, status_to_string, reason_in}
use burger.Http.Message.{
  Text, Request, new_request, new_response, set_header, get_header, set_response_header, put, less,
  same_case, dump_request, dump_response, dump_headers, dump_body,
}
use burger.Http.Message.Order.{Ascending}
use burger.Http.Message.Headers.{set_all, alike, get_header-set_all}

abbrev request : Request
request = set_header (codes "Host") (codes "b") (new_request http11 true)

dumped :
    dump_request request
    ≡ codes "GET / HTTP/1.1"
      ++ 13 ∷ 10 ∷ codes "connection: close"
      ++ 13 ∷ 10 ∷ codes "Host: b"
      ++ 13 ∷ 10 ∷ 13 ∷ 10 ∷ []
unfolding dump_request dump_headers dump_body set_header put less same_case new_request
    method_to_string version_to_string
dumped = refl

-- A length among the headers is written beside the one of the body.
two_lengths :
    dump_response (
      set_response_header
        (codes "Content-Length")
        (codes "9")
        (record (new_response true http11) { body = codes "ab" }))
    ≡ codes "HTTP/1.1 200 OK"
      ++ 13 ∷ 10 ∷ codes "Content-Length: 9"
      ++ 13 ∷ 10 ∷ codes "connection: close"
      ++ 13 ∷ 10 ∷ codes "content-length: 2"
      ++ 13 ∷ 10 ∷ 13 ∷ 10 ∷ codes "ab"
unfolding dump_response dump_headers dump_body set_response_header put less same_case new_response
    version_to_string status_to_string reason_in to_digits
two_lengths = refl

abbrev calls : List (Text × Text)
calls = (codes "Host", codes "a") ∷ (codes "Accept", codes "c") ∷ (codes "hOST", codes "b") ∷ []

get_header-set_all_example :
    (get_header (codes "HOST") [] (set_all calls (new_request http11 true)) ≡ codes "b")
    × Ascending (set_all calls (new_request http11 true)).headers
unfolding alike
get_header-set_all_example = get_header-set_all (codes "HOST") [] calls http11 true
