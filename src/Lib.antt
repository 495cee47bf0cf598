-- ===== src/Lib.antt =====
-- The verification library of Burger, the C++ network library of burger/net with its base in
-- burger/base: an epoll reactor in which each thread runs an event loop, and all that a connection
-- does happens in the loop that owns it.
--
-- A loop (EventLoop) waits on epoll through a map of channels (Epoll, Channel) and runs each active
-- channel's callbacks, the timers that expired (TimerQueue) and the functors that other threads
-- queued (MpscQueue). A connection (TcpConnection) owns a channel and two byte buffers (Buffer or
-- RingBuffer, with network byte order). A server deals the connections that it accepts to the loops
-- of a pool (Acceptor, TcpServer, EventLoopThreadPool); a client connects with back-off (TcpClient,
-- Connector). Beside the loops, the processors of a scheduler (Scheduler, Processor, CoTimerQueue)
-- run coroutines, which epoll and timers wake in place of callbacks, and which read and write as if
-- their calls blocked (CoTcpServer, CoTcpConnection). The chat example frames messages with a length
-- header over a buffer. burger/rpc has remote calls over protobuf messages, between a client that
-- blocks (Channel) and a server (Server). burger/db has sessions, transactions and prepared
-- statements over the MySQL client library.
--
-- Files, and the code each models:
--   Common, Common/*: tests on numbers, lists, machine words, memory and the fault monad, for all.
--   Base/MpscQueue: burger/base/MpscQueue.h. Each access to an atomic is a step; Fifo has the steps
--     of any number of producers and one consumer.
--   Base/Threadpool: burger/base/ThreadPool.cc. What a thread does under the lock is a step.
--   Base/Config: the integers of burger/base/Config.cc, which are read as expressions. Scan has the
--     text against the value, Postfix the value of the suffix, Defaults a key that is missing.
--   Base/Env: burger/base/Env.cc. Options has the round trip of the command line.
--   Base/StringUtil: burger/base/StringUtil.cc. Join has the parts against the text.
--   Net/Endian, Net/SocketsOps: burger/net/Endian.h, and the answers of read and write.
--   Net/Buffer, Buffer/Ints, Buffer/ReadFd: burger/net/Buffer.cc. Valid has its invariant; Queue,
--     Refine, Search, IntLaws what it promises.
--   Net/RingBuffer, RingBuffer/Ints, RingBuffer/ReadFd: burger/net/RingBuffer.cc. Linear is about a
--     ring whose content does not go round the end, Wrapped about one whose writer has.
--   Net/Channel, Net/Epoll: burger/net/Channel.cc, burger/net/Epoll.cc, and update and remove of a
--     channel over the loop, whose asserts Calls is about. Tracking has the life of a channel.
--   Net/TcpConnection: burger/net/TcpConnection.cc. Stream follows the bytes, Lifecycle the status.
--   Net/Connector: burger/net/Connector.cc. Sockets follows the descriptors, Backoff the delays.
--   Net/TimerQueue: burger/net/TimerQueue.cc, burger/net/ITimerQueue.cc, burger/net/Timer.cc.
--   Net/EventLoop, EventLoop/Cycle, EventLoop/Home: burger/net/EventLoop.cc. Rounds has the order of
--     the functors, Ends and Lives have whole runs of the loop.
--   Net/EventLoopThread: burger/net/EventLoopThread.cc. Moves has what holds after any steps.
--   Net/TcpServer: burger/net/TcpServer.cc, burger/net/EventLoopThreadPool.cc.
--   Base/Coroutine, Net/Processor: burger/base/Coroutine.cc, burger/net/Processor.cc with
--     burger/net/CoEpoll.cc and the wait of burger/net/Hook.cc. Sound has what holds of the queues,
--     Bursts and Rounds how it is kept, Turns whole runs, Stale what goes wrong without it.
--   Net/TcpClient: burger/net/TcpClient.cc over the connector. Again has the second connect.
--   Net/Acceptor, Net/CoTcpServer: burger/net/Acceptor.cc, burger/net/CoTcpServer.cc. Balance follows
--     the descriptors.
--   Net/Scheduler: burger/net/Scheduler.cc. Deal has which processor gets which task.
--   Net/CoTimerQueue: burger/net/CoTimerQueue.cc over the set of TimerQueue. Due has the timers that
--     expire.
--   Net/CoTcpConnection: burger/net/CoTcpConnection.cc. Sends follows the bytes.
--   Chat/Codec: examples/chat/codec.h.
--   Db/Mysql, Db/Transaction: burger/db/Mysql.cc, burger/db/MysqlTransaction.cc. Selected has the
--     database of a session, Life, Created and Ended what a transaction sends.
--   Db/Bind, Db/Stmt, Stmt/Calls: burger/db/MysqlStmt.cc. Sent has the bytes of a parameter, Room and
--     Again when a bind is safe, Blocks the memory.
--   Db/StmtRes, Db/Res, Db/MysqlTime: burger/db/MysqlStmtRes.cc, burger/db/MysqlRes.cc,
--     burger/db/MysqlTime.cc.
--   Http/Method, Http/Status, Http/Message, Http/Parser: burger/deprecated/http, but for what a tool
--     generated. Chars has the names, Headers and Order the headers, Requests the line of a request.
--   Rpc/Channel, Rpc/Server: burger/rpc/RpcChannel.cc, burger/rpc/RpcServer.cc, over the protobuf
--     library as Rpc/Protobuf takes it. Call joins the two, Faults has the requests that stop a server.
--
-- An operation f of a class is the function f of its module, in snake_case, on a record of the
-- class's members; what it returns comes before the new state. A failed assert, an overflow of int,
-- an exception that nothing catches, a null dereference and an access outside an object are `none`.
-- A pointer into a buffer is its index, size_t and uint64_t wrap at 2 ^ 64. The kernel (epoll_ctl,
-- readv, write, connect, getsockopt) answers through arguments: epoll is a record of operations
-- with the laws of its manual, the others are functions or values. Callbacks and functors are
-- logged or are an argument. The protobuf library is a record of operations with its round trip,
-- the reader of the ini file a function. The MySQL client library answers through arguments too,
-- and its calls are logged.
--
-- Bounds and fuel: a vector grows below 2 ^ 63 bytes, the max_size of its type. The loop of the
-- codec's decode is on fuel of one more than the readable bytes, each round of which takes a header
-- of 4. makeSpace of the ring recurs over a new ring that has no data, so a depth of 2 is enough.
-- The functors of a loop are a finite tree, and fuel for each of them is enough. Each round of an
-- expression's scan takes a byte at least, so its length is fuel enough; and so does each round of a
-- split, on fuel of one more. A run of a processor takes an answer of epoll and a burst of a
-- coroutine for each round.
--
-- Not modelled: logging and texts for it, socket options and addresses, the wait of epoll and its
-- timeout, the threads that run the loops, the rest of burger/base, and the other examples. What
-- other projects wrote or a tool generated (benchmarks, thirdparty, the parsers of
-- burger/deprecated/http, the messages of burger/rpc) is no part of the model.
pub mod Base
pub mod Chat
pub mod Common
pub mod Db
pub mod Http
pub mod Net
pub mod Rpc
