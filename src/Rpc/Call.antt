-- ===== src/Rpc/Call.antt =====
-- A call from burger/rpc/RpcChannel.cc to burger/rpc/RpcServer.cc and back.
use burger.Common.{
  to_memory, ℕ, ◌^◌, ◌<◌, ◌≡◌, refl, ◌∙◌, true, Option, none, some, List, [], ◌∷◌, length, ap,
}
use burger.Rpc.Protobuf.{Protobuf}
use burger.Rpc.Channel.{Network}
use burger.Rpc.Server.{
  find, Method, ServiceInfo, Services, Reaction, stops, faults, answers, conn_handler,
  handle_request,
}
use burger.Rpc.Server.Faults.{request_text, header_of, handle_request-with_args}

module _ (pb : Protobuf) where
  -- What the client receives: a connection that is closed gives no bytes.
  abbrev pub reply : Reaction pb → Option (List ℕ)
  reply (answers (some bytes)) = some bytes
  reply (answers none) = some []
  reply stops = some []
  reply faults = none

  -- The operating system works, and each request arrives in one piece.
  abbrev pub delivers : Services pb → Network
  delivers services = record {
    has_socket = true;
    connects = true;
    sends = true;
    replies = λ text. reply (conn_handler pb services (text ∷ []));
  }

module _ (pb : Protobuf) (services : Services pb) (info : ServiceInfo pb) (method : Method pb)
    (service_name method_name : List ℕ) (request : pb.Message) (args header answer : List ℕ)
    (service_found : find service_name services ≡ some info)
    (method_found : find method_name info.methods ≡ some method)
    (prototype_fits : method.request_prototype ≡ pb.prototype request)
    (serialized : pb.serialize request ≡ some args)
    (header_serialized : pb.serialize_header (header_of service_name method_name args)
      ≡ some header)
    (args_fit : length args < 2 ^ 32) (header_fits : length header < 2 ^ 32)
    (answered : pb.serialize (method.run request) ≡ some answer) where
  abbrev text : List ℕ
  text = request_text header args

  conn_handler-text : conn_handler pb services (text ∷ []) ≡ handle_request pb services text
  unfolding conn_handler to_memory
  conn_handler-text = refl

  request_parsed : pb.parse method.request_prototype args ≡ some request
  request_parsed =
      ap (λ proto. pb.parse proto args) prototype_fits ∙ pb.parse-serialize request args serialized

  handle_request-answers : handle_request pb services text ≡ answers (some answer)
  handle_request-answers =
      handle_request-with_args pb service_name method_name request args header serialized
        header_serialized services args_fit header_fits
      ∙ rw (service_found, method_found, request_parsed, answered) refl

  pub reply-text : reply pb (conn_handler pb services (text ∷ [])) ≡ some answer
  reply-text = ap (reply pb) (conn_handler-text ∙ handle_request-answers)
