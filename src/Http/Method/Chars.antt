-- ===== src/Http/Method/Chars.antt =====
-- Every method is recognised by its name, whatever follows the name.
use burger.Common.{ℕ, ◌≡◌, ◌≢◌, refl, List, ◌++◌}
use burger.Http.Method.{
  Method, delete, get, head, post, put, connect, options, trace, copy, lock, mkcol, move, propfind,
  proppatch, search, unlock, bind, rebind, unbind, acl, report, mkactivity, checkout, merge,
  msearch, notify, subscribe, unsubscribe, patch, purge, mkcalendar, link, unlink, source,
  invalid_method, method_to_string, begins, first_method, chars_to_method,
}

-- A text that begins with the name of a method is recognised as that method.
pub chars_to_method-method_to_string :
    (m : Method) (rest : List ℕ)
    → m ≢ invalid_method
    → chars_to_method (method_to_string m ++ rest) ≡ m
unfolding chars_to_method method_to_string first_method begins
chars_to_method-method_to_string delete rest h = refl
chars_to_method-method_to_string get rest h = refl
chars_to_method-method_to_string head rest h = refl
chars_to_method-method_to_string post rest h = refl
chars_to_method-method_to_string put rest h = refl
chars_to_method-method_to_string connect rest h = refl
chars_to_method-method_to_string options rest h = refl
chars_to_method-method_to_string trace rest h = refl
chars_to_method-method_to_string copy rest h = refl
chars_to_method-method_to_string lock rest h = refl
chars_to_method-method_to_string mkcol rest h = refl
chars_to_method-method_to_string move rest h = refl
chars_to_method-method_to_string propfind rest h = refl
chars_to_method-method_to_string proppatch rest h = refl
chars_to_method-method_to_string search rest h = refl
chars_to_method-method_to_string unlock rest h = refl
chars_to_method-method_to_string bind rest h = refl
chars_to_method-method_to_string rebind rest h = refl
chars_to_method-method_to_string unbind rest h = refl
chars_to_method-method_to_string acl rest h = refl
chars_to_method-method_to_string report rest h = refl
chars_to_method-method_to_string mkactivity rest h = refl
chars_to_method-method_to_string checkout rest h = refl
chars_to_method-method_to_string merge rest h = refl
chars_to_method-method_to_string msearch rest h = refl
chars_to_method-method_to_string notify rest h = refl
chars_to_method-method_to_string subscribe rest h = refl
chars_to_method-method_to_string unsubscribe rest h = refl
chars_to_method-method_to_string patch rest h = refl
chars_to_method-method_to_string purge rest h = refl
chars_to_method-method_to_string mkcalendar rest h = refl
chars_to_method-method_to_string link rest h = refl
chars_to_method-method_to_string unlink rest h = refl
chars_to_method-method_to_string source rest h = refl
chars_to_method-method_to_string invalid_method rest h = absurd (h refl)
