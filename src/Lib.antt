-- ===== src/Lib.antt =====
-- A model of the echo server: a TCP server library in the style of muduo (include/, src/), its log
-- library (log/) and the server in src/main.cc that is built with them.
--
-- One loop per thread: a loop (`EventLoop`) waits in its poller (`Poller`), calls back the channels
-- on which something happened (`Channel`), and then runs the functors that were queued for it. The
-- server (`TcpServer`) takes each new connection from its `Acceptor` and a loop for it from its pool
-- (`EventLoopThreadPool`), whose threads make the loops (`EventLoopThread`, `Thread`). A connection
-- (`TcpConnection`) sets up a channel, reads into one byte buffer and writes out of another
-- (`Buffer`), and calls the user, here `EchoServer`. Every part writes lines to the log (`Logger`),
-- which go through a stream (`LogStream`) into the buffers of the log's thread (`AsyncLogging`) and
-- from there to a file (`LogFile`).
--
-- Which file models what, with its children for the proofs:
--   Buffer               include/Buffer.h, src/Buffer.cc: the indices, the vector, `readFd`, `writeFd`
--   Channel              include/Channel.h, src/Channel.cc: events, callbacks, `handleEvent`
--   Poller               include/Poller.h, include/EPollPoller.h, src/Poller.cc, src/EPollPoller.cc
--   EventLoop            include/EventLoop.h, src/EventLoop.cc: flags, queue, wakeups, `loop`;
--                        EventLoop/Interleaving adds the other threads, as a step relation,
--                        EventLoop/Life constructor and destructor (also src/DefaultPoller.cc)
--   TcpConnection        include/TcpConnection.h, src/TcpConnection.cc: the handlers and `send`;
--                        TcpConnection/Wiring carries out their calls on the poller
--   Reactor              `loop` of src/EventLoop.cc with the connections and the poller: rounds of
--                        `poll`, `handleEvent` of each active channel, and functors;
--                        Reactor/Turnover lets connections come and go, Reactor/Departure follows a
--                        closing one through the base loop and its own, Reactor/Alone compares one
--                        connection in the loop with the same connection by itself
--   Socket               include/Socket.h, src/Socket.cc
--   Acceptor             include/Acceptor.h, src/Acceptor.cc
--   InetAddress          include/InetAddress.h, src/InetAddress.cc
--   Thread               include/Thread.h, src/Thread.cc, include/CurrentThread.h,
--                        src/CurrentThread.cc: names, and `start`, as a step relation
--   EventLoopThread      include/EventLoopThread.h, src/EventLoopThread.cc: `startLoop`, `threadFunc`
--                        and the destructor, as a step relation
--   EventLoopThreadPool  include/EventLoopThreadPool.h, src/EventLoopThreadPool.cc
--   TcpServer            include/TcpServer.h, src/TcpServer.cc: the table of connections, their names;
--                        TcpServer/Callbacks (also include/Callbacks.h) who calls which function
--   EchoServer           src/main.cc: `onMessage`, in EchoServer/Stream over many reads;
--                        EchoServer/Server has the constructor and what `main` makes and starts,
--                        EchoServer/Callbacks the callbacks that it sets
--   Timestamp            include/Timestamp.h, src/Timestamp.cc
--   FixedBuffer          include/FixedBuffer.h: the log's array of bytes
--   AsyncLogging         include/AsyncLogging.h, log/AsyncLogging.cc: the buffers that `append` and the
--                        log's thread hand to each other
--   LogStream            include/LogStream.h, log/LogStream.cc: numbers and texts on a line
--   LogFile              include/LogFile.h, log/LogFile.cc, log/FileUtil.cc: when a new file is opened,
--                        and how a line is written to it
--   LogPipeline          the way of a line from its `Logger` through the log's thread into the files
--   Logger               include/Logger.h, log/Logger.cc: one line, from the constructor to the
--                        destructor, and `asyncLog` of src/main.cc; Logger/Output has `setOutput`
--   Decimal              the numerals of the formats `%d`, `%u` and `%02d`
--   Prelude              what the modules share
--
-- State and operations keep the source's names, in another spelling: `readableBytes` is
-- `readable_bytes`. A function that changes its object returns the new one; a handler of a connection
-- also returns the calls that it makes of its channel, loop, socket and user, in order. What the
-- kernel answers is an argument (`Reply`, `SendReply`, `Accepted`), and so is the message callback.
-- The epoll instance is the interface `Epoll` of `Poller`, whose laws are those of the manual page of
-- `epoll_ctl`; Poller/Table fills it with a function from descriptors to entries. `htons`,
-- `inet_ntop` and their kin are the interface `Net` of `InetAddress`, filled in its examples;
-- `localtime` and `strerror_r` are arguments. Sums and differences of `size_t` wrap, in `add_size` and
-- `sub_size`. A call of `LOG_FATAL` ends the program and gives `none`, except in `Logger`, which says
-- what the call does. Pointers to channels, connections and loops are numbers.
--
-- There is fuel for the digits of a number, of which twenty are enough for 64 bits, and for the calls
-- of `fwrite`, of which one for each byte is enough. The bounds on sizes are hypotheses: a vector stays
-- below 2^63 bytes, a new buffer below 2^62 and a log buffer below 2^31, the ids of connections below
-- 2^31.
--
-- Not modelled: what `main` prints; that a message was logged, and the text of it, except in `Logger`
-- and in `EchoServer`; how `snprintf` prints a floating point number, whose text is an argument; an
-- `fopen` that fails; functors that run when their connection is gone; include/noncopyable.h, a class
-- without members; the generated files of build/; the reserved and empty `sendFile`.
pub mod Prelude
pub mod Decimal
pub mod Buffer
pub mod Channel
pub mod Poller
pub mod EventLoop
pub mod TcpConnection
pub mod EchoServer
pub mod FixedBuffer
pub mod AsyncLogging
pub mod LogStream
pub mod LogFile
pub mod LogPipeline
pub mod EventLoopThreadPool
pub mod TcpServer
pub mod Timestamp
pub mod InetAddress
pub mod Logger
pub mod Thread
pub mod EventLoopThread
pub mod Socket
pub mod Acceptor
pub mod Reactor
