-- ===== src/Rpc/Protobuf.antt =====
-- What burger/rpc uses of the protobuf library.
use burger.Common.{ℕ, ◌≡◌, Option, some, List}

-- `RpcHeader` of burger/rpc/rpcHeader.proto.
pub record Header : Type 0 where
  pub service_name : List ℕ
  pub method_name : List ℕ
  pub args_size : ℕ

-- Messages, the prototypes that parse them, and the headers. Parsing what was serialized gives the
-- message back.
pub record Protobuf : Type 1 where
  pub Message : Type 0
  pub Prototype : Type 0
  pub prototype : Message → Prototype
  pub serialize : Message → Option (List ℕ)
  pub parse : Prototype → List ℕ → Option Message
  pub parse-serialize :
      (m : Message) (bytes : List ℕ) → serialize m ≡ some bytes → parse (prototype m) bytes ≡ some m
  pub serialize_header : Header → Option (List ℕ)
  pub parse_header : List ℕ → Option Header
  pub parse_header-serialize_header :
      (h : Header) (bytes : List ℕ) → serialize_header h ≡ some bytes → parse_header bytes ≡ some h
