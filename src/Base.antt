-- ===== src/Base.antt =====
-- burger/base: what the network library is built on.
pub mod Config
pub mod Coroutine
pub mod Env
pub mod MpscQueue
pub mod StringUtil
pub mod Threadpool
