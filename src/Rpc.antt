-- ===== src/Rpc.antt =====
-- burger/rpc: remote calls over protobuf messages. The protobuf library is an argument.
pub mod Protobuf
pub mod Channel
pub mod Server
pub mod Call
mod Tests
