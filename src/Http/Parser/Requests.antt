-- ===== src/Http/Parser/Requests.antt =====
-- A request line, from the calls of its parts.
use burger.Common.{
  ◌≡◌, ◌≢◌, refl, true, false, List, [], ◌∷◌, ◌++◌, arith, length, take-append_self,
}
use burger.Http.Method.{Method, invalid_method, method_to_string}
use burger.Http.Method.Chars.{chars_to_method-method_to_string}
use burger.Http.Status.{Version, http10, http11, unknown_version, version_to_string}
use burger.Http.Message.{Text, Request, new_request}
use burger.Http.Parser.{
  Call, request_method, fragment, request_path, query_string, http_version, RequestParser,
  is_invalid, request_method_cb, request_version_cb, version_of, call, calls, new_parser,
}

-- The calls for a request line of these parts; behind each part comes the rest of the text.
abbrev pub line_calls : Request → (Text → Text) → List Call
line_calls r behind =
    request_method (method_to_string r.method ++ behind (method_to_string r.method))
      (length (method_to_string r.method))
    ∷ request_path (r.path ++ behind r.path) (length r.path)
    ∷ query_string (r.query ++ behind r.query) (length r.query)
    ∷ fragment (r.fragment ++ behind r.fragment) (length r.fragment)
    ∷ http_version (version_to_string r.version ++ behind (version_to_string r.version))
        (length (version_to_string r.version))
    ∷ []

method_lem :
    (m : Method) (rest : Text) (p : RequestParser)
    → m ≢ invalid_method
    → request_method_cb (method_to_string m ++ rest) p
      ≡ record p { request = record p.request { method = m } }
unfolding request_method_cb
method_lem m rest p h = rw (chars_to_method-method_to_string m rest h, is_valid m h) refl
  where
    is_valid : (m : Method) → m ≢ invalid_method → is_invalid m ≡ false
    is_valid m h = ground arith

version_lem :
    (v : Version) (rest : Text) (p : RequestParser)
    → v ≢ unknown_version
    → request_version_cb (version_to_string v ++ rest) (length (version_to_string v)) p
      ≡ record p { request = record p.request { version = v } }
unfolding request_version_cb version_of version_to_string
version_lem http10 rest p h = refl
version_lem http11 rest p h = refl
version_lem unknown_version rest p h = absurd (h refl)

-- For a request with a method of the list and a version 1.0 or 1.1, whatever text stands behind
-- each part, the calls of the parser for its method, path, query, fragment and version give a new
-- parser just these parts, without an error.
pub calls-line_calls :
    (r : Request) (behind : Text → Text)
    → r.method ≢ invalid_method
    → r.version ≢ unknown_version
    → calls (line_calls r behind) new_parser ≡ record {
      request = record (new_request http11 true) {
        method = r.method;
        path = r.path;
        query = r.query;
        fragment = r.fragment;
        version = r.version;
      };
      error = 0;
    }
unfolding calls call new_parser
calls-line_calls r behind hm hv =
    rw
      (
        method_lem r.method (behind (method_to_string r.method)) new_parser hm,
        take-append_self r.path (behind r.path),
        take-append_self r.query (behind r.query),
        take-append_self r.fragment (behind r.fragment),
      )
      (version_lem r.version (behind (version_to_string r.version)) _ hv)
