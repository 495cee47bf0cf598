-- ===== src/Chat.antt =====
-- examples/chat: the framing of its messages.
pub mod Codec
