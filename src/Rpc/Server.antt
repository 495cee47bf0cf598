-- ===== src/Rpc/Server.antt =====
-- burger/rpc/RpcServer.cc: the services of a server and what it does with the bytes that one `recv`
-- gives. A fault is an exception that nothing catches, or undefined behaviour. A method is the
-- function from its request to the response that it hands to the callback.
pub mod Faults
use burger.Common.{
  from_memory, ℕ, ◌+◌, Bool, true, false, ◌&&◌, Option, none, some, List, [], ◌∷◌, ◌++◌,
  if◌then◌else◌, length, take, drop, ltb, leb, ◌==◌,
}
use burger.Rpc.Protobuf.{Header, Protobuf}

abbrev pub same : List ℕ → List ℕ → Bool
same [] [] = true
same [] (y ∷ ys) = false
same (x ∷ xs) [] = false
same (x ∷ xs) (y ∷ ys) = x == y && same xs ys

-- The maps by names: `find`, and `insert`, which keeps what is there.
module _ {A : Type 0} where
  abbrev pub find : List ℕ → List (List ℕ × A) → Option A
  find name [] = none
  find name ((key, a) ∷ rest) = if same key name then some a else find name rest

  abbrev pub insert_new : Option A → List ℕ → A → List (List ℕ × A) → List (List ℕ × A)
  insert_new (some old) name a entries = entries
  insert_new none name a entries = (name, a) ∷ entries

  abbrev pub insert : List ℕ → A → List (List ℕ × A) → List (List ℕ × A)
  insert name a entries = insert_new (find name entries) name a entries

abbrev pub header_prefix : ℕ
header_prefix = 4

module _ (pb : Protobuf) where
  open pb use {Message, Prototype, serialize, parse, parse_header}

  pub record Method : Type 0 where
    pub request_prototype : Prototype
    pub run : Message → Message

  pub record ServiceInfo : Type 0 where
    pub methods : List (List ℕ × Method)

  abbrev pub Services : Type 0
  Services = List (List ℕ × ServiceInfo)

  abbrev pub method_map : List (List ℕ × Method) → List (List ℕ × Method) → List (List ℕ × Method)
  method_map [] entries = entries
  method_map ((name, m) ∷ methods) entries = method_map methods (insert name m entries)

  unfoldable pub notify_service : List ℕ → List (List ℕ × Method) → Services → Services
  notify_service name methods services =
      insert name (record { methods = method_map methods [] }) services

  -- `stops` returns with no answer; `answers` sends these bytes, if any, and shuts the connection.
  pub data Reaction : Type 0 where
    stops faults : Reaction
    answers : Option (List ℕ) → Reaction

  -- `std::string::substr`, which throws past the end.
  abbrev pub substr : List ℕ → ℕ → ℕ → Option (List ℕ)
  substr text start n = if leb start (length text) then some (take n (drop start text)) else none

  abbrev pub header_size : List ℕ → ℕ
  header_size text = from_memory (take header_prefix text)

  unfoldable pub read_header : List ℕ → Option (List ℕ)
  read_header text = substr text header_prefix (header_size text)

  unfoldable pub read_args : List ℕ → ℕ → ℕ → Option (List ℕ)
  read_args text size args_size = substr text (header_prefix + size) args_size

  abbrev pub send_rpc_response : Message → Reaction
  send_rpc_response response = answers (serialize response)

  abbrev pub invoke : Method → Option Message → Reaction
  invoke m none = stops
  invoke m (some request) = send_rpc_response (m.run request)

  abbrev pub parse_args : Method → Option (List ℕ) → Reaction
  parse_args m none = faults
  parse_args m (some args) = invoke m (parse m.request_prototype args)

  -- A method that is not there is logged, and the end of the map is dereferenced all the same.
  abbrev pub with_method : Option Method → Option (List ℕ) → Reaction
  with_method none args = faults
  with_method (some m) args = parse_args m args

  abbrev pub with_service : Option ServiceInfo → List ℕ → Option (List ℕ) → Reaction
  with_service none name args = stops
  with_service (some info) name args = with_method (find name info.methods) args

  -- `readArgs` comes before the service is looked up, and throws first.
  abbrev pub with_args : Services → Header → Option (List ℕ) → Reaction
  with_args services h none = faults
  with_args services h (some args) =
      with_service (find h.service_name services) h.method_name (some args)

  abbrev pub with_header : Services → List ℕ → Option Header → Reaction
  with_header services text none = stops
  with_header services text (some h) =
      with_args services h (read_args text (header_size text) h.args_size)

  abbrev pub with_header_text : Services → List ℕ → Option (List ℕ) → Reaction
  with_header_text services text none = faults
  with_header_text services text (some header) = with_header services text (parse_header header)

  unfoldable pub handle_request : Services → List ℕ → Reaction
  unfolding read_header read_args
  handle_request services text = with_header_text services text (read_header text)

  -- `connHandler` over what the calls of `recv` give: it ends when one gives nothing, which it does once
  -- the connection is shut.
  unfoldable pub conn_handler : Services → List (List ℕ) → Reaction
  unfolding handle_request
  conn_handler services [] = stops
  conn_handler services ([] ∷ chunks) = stops
  conn_handler services ((b ∷ bs) ∷ chunks) = handle_request services (b ∷ bs)
