-- ===== src/Rpc/Tests.antt =====
-- A service that greets over a small message format, and the theorems at it.
use burger.Common.{
  ℕ, ◌≡◌, refl, sym, ap, ◌∙◌, Option, none, some, List, [], ◌∷◌, ◌++◌, length, take, drop,
  take-append_self, drop-append_self,
}
use burger.Rpc.Protobuf.{Header, Protobuf}
use burger.Rpc.Server.{Method, ServiceInfo, Services, notify_service}
use burger.Rpc.Server.Faults.{header_of}

-- Names with their lengths in front, then the size.
abbrev put_header : Header → List ℕ
put_header h =
    length h.service_name ∷ h.service_name
    ++ (length h.method_name ∷ h.method_name ++ (h.args_size ∷ []))

abbrev get_size : List ℕ → List ℕ → List ℕ → Option Header
get_size service method [] = none
get_size service method (n ∷ rest) =
    some (record { service_name = service; method_name = method; args_size = n })

abbrev get_method : List ℕ → List ℕ → Option Header
get_method service [] = none
get_method service (n ∷ rest) = get_size service (take n rest) (drop n rest)

abbrev get_header : List ℕ → Option Header
get_header [] = none
get_header (n ∷ rest) = get_method (take n rest) (drop n rest)

get_header-put_header : (h : Header) → get_header (put_header h) ≡ some h
get_header-put_header h =
    let tail = length h.method_name ∷ h.method_name ++ (h.args_size ∷ []) in
    rw
      (
        take-append_self h.service_name tail,
        drop-append_self h.service_name tail,
        take-append_self h.method_name (h.args_size ∷ []),
        drop-append_self h.method_name (h.args_size ∷ []),
      )
      refl

abbrev unwrap : List ℕ → Option (List ℕ) → List ℕ
unwrap text none = text
unwrap text (some t) = t

-- Messages are their own bytes.
abbrev plain : Protobuf
plain = record {
  Message = List ℕ;
  Prototype = ℕ;
  prototype = λ m. 0;
  serialize = λ m. some m;
  parse = λ proto text. some text;
  parse-serialize = λ m text e. sym e;
  serialize_header = λ h. some (put_header h);
  parse_header = get_header;
  parse_header-serialize_header =
      λ h text e. ap get_header (sym (ap (unwrap text) e)) ∙ get_header-put_header h;
}

abbrev greeting : Method plain
greeting = record { request_prototype = 0; run = λ request. b'h' ∷ b'i' ∷ b' ' ∷ request }

abbrev services : Services plain
services = notify_service plain (b'g' ∷ []) ((b'h' ∷ [], greeting) ∷ []) []

abbrev info : ServiceInfo plain
info = record { methods = (b'h' ∷ [], greeting) ∷ [] }

-- A server keeps the first service of a name.
kept : notify_service plain (b'g' ∷ []) [] services ≡ services
unfolding notify_service
kept = refl

abbrev header : List ℕ
header = put_header (header_of (b'g' ∷ []) (b'h' ∷ []) (b'y' ∷ []))

abbrev missing : List ℕ
missing = put_header (header_of (b'g' ∷ []) (b'x' ∷ []) (b'y' ∷ []))
