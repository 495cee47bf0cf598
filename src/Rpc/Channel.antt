-- ===== src/Rpc/Channel.antt =====
-- burger/rpc/RpcChannel.cc: `CallMethod`, the client's side of a call. The operating system's answers
-- and the server's reply are arguments.
use burger.Common.{
  to_memory, ℕ, ◌%◌, ◌^◌, Bool, Option, none, some, List, ◌++◌, if◌then◌else◌, length, take,
}
use burger.Rpc.Protobuf.{Protobuf}

-- What `controller->SetFailed` is told.
pub data Failure : Type 0 where
  request_error header_error socket_error connect_error send_error recv_error parse_error : Failure

-- `replies` gives what `recv` would find for the bytes sent, `none` its error.
pub record Network : Type 0 where
  pub has_socket : Bool
  pub connects : Bool
  pub sends : Bool
  pub replies : List ℕ → Option (List ℕ)

module _ (pb : Protobuf) where
  open pb use {Message, Prototype, serialize, serialize_header, parse}

  -- `opened` and `closed` count the calls on the client's descriptor.
  pub record Outcome : Type 0 where
    pub opened : ℕ
    pub closed : ℕ
    pub failure : Option Failure
    pub response : Option Message

  pub data Encoded : Type 0 where
    bytes : List ℕ → Encoded
    fails : Failure → Encoded

  abbrev pub frame : Option (List ℕ) → List ℕ → Encoded
  frame none args = fails header_error
  frame (some header) args = bytes (to_memory 4 (length header) ++ header ++ args)

  abbrev pub encode_args : List ℕ → List ℕ → Option (List ℕ) → Encoded
  encode_args service_name method_name none = fails request_error
  encode_args service_name method_name (some args) =
      frame
        (serialize_header (record {
          service_name = service_name;
          method_name = method_name;
          args_size = length args % 2 ^ 32;
        }))
        args

  -- The request as it is sent.
  unfoldable pub encode : List ℕ → List ℕ → Message → Encoded
  encode service_name method_name request = encode_args service_name method_name (serialize request)

  abbrev pub failed : ℕ → Failure → Outcome
  failed n f = record { opened = n; closed = n; failure = some f; response = none }

  -- `ParseFromArray` of the receive buffer, which holds 1024 bytes.
  abbrev pub parsed : Option Message → Outcome
  parsed none = failed 1 parse_error
  parsed (some m) = record { opened = 1; closed = 1; failure = none; response = some m }

  abbrev pub receive : Prototype → Option (List ℕ) → Outcome
  receive proto none = failed 1 recv_error
  receive proto (some reply) = parsed (parse proto (take 1024 reply))

  abbrev pub transmit : Network → Prototype → Encoded → Outcome
  transmit net proto (fails f) = failed 0 f
  transmit net proto (bytes text) =
      if net.has_socket
      then (if net.connects
          then (if net.sends then receive proto (net.replies text) else failed 1 send_error)
          else failed 1 connect_error)
      else failed 0 socket_error

  unfoldable pub call_method : Network → List ℕ → List ℕ → Message → Prototype → Outcome
  unfolding encode
  call_method net service_name method_name request proto =
      transmit net proto (encode service_name method_name request)
