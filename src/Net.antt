-- ===== src/Net.antt =====
-- burger/net: the buffers, the reactor and what is built on them.
pub mod Endian
pub mod SocketsOps
pub mod Buffer
pub mod Channel
pub mod Epoll
pub mod RingBuffer
pub mod TcpConnection
pub mod Connector
pub mod TimerQueue
pub mod EventLoop
pub mod EventLoopThread
pub mod TcpServer
pub mod Processor
pub mod CoTcpConnection
pub mod Scheduler
pub mod Acceptor
pub mod CoTcpServer
pub mod TcpClient
pub mod CoTimerQueue
