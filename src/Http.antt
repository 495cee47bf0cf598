-- ===== src/Http.antt =====
-- burger/deprecated/http: the messages of HTTP and what the generated parsers call back.
pub mod Method
pub mod Message
pub mod Parser
pub mod Status
