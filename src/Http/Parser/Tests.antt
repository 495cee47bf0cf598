-- ===== src/Http/Parser/Tests.antt =====
-- Runs of the model at concrete inputs.
use burger.Common.{◌≡◌, ◌≢◌, refl, true, false, [], ◌∷◌}
use burger.Http.Method.{
  post, get, invalid_method, codes, chars_to_method, method_to_string, first_method, begins,
}
use burger.Http.Status.{http11, http10, unknown_version}
use burger.Http.Message.{Text, Request, new_request}
use burger.Http.Parser.{
  new_parser, calls, call, http_version, request_version_cb, version_of, has_error,
}
use burger.Http.Parser.Requests.{line_calls, calls-line_calls}

-- A word that only begins with a method is taken for it.
longer_word : chars_to_method (codes "GETTER /") ≡ get
unfolding chars_to_method first_method begins method_to_string
longer_word = refl

bad_version : has_error false (calls (http_version (codes "HTTP/2.0") 8 ∷ []) new_parser) ≡ true
unfolding has_error calls call request_version_cb version_of new_parser new_request
bad_version = refl

post-ne-invalid_method : post ≢ invalid_method
post-ne-invalid_method = λ e. cc

http10-ne-unknown_version : http10 ≢ unknown_version
http10-ne-unknown_version = λ e. cc

abbrev request : Request
request = record (new_request http10 true) { method = post; path = codes "/a"; query = codes "b=1" }

abbrev behind : Text → Text
behind part = codes " HTTP"

method-ne-invalid : request.method ≢ invalid_method
unfolding new_request
method-ne-invalid = post-ne-invalid_method

version-ne-unknown : request.version ≢ unknown_version
unfolding new_request
version-ne-unknown = http10-ne-unknown_version

calls-line_calls_example : calls (line_calls request behind) new_parser ≡ record {
  request = record (new_request http11 true) {
    method = request.method;
    path = request.path;
    query = request.query;
    fragment = request.fragment;
    version = request.version;
  };
  error = 0;
}
calls-line_calls_example = calls-line_calls request behind method-ne-invalid version-ne-unknown
