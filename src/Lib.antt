-- ===== src/Lib.antt =====
-- serverlite's slite library, a reactor with TCP connections and codecs on top, as executable
-- definitions, with theorems on what each part promises.
--
-- The loop of a thread waits in epoll for its channels, calls their callbacks, and runs the tasks
-- that were pushed to it. A TCPConnection owns a channel, and two buffers; a codec turns the
-- received bytes into messages for the callbacks of a server.
--
--   Base: tests on numbers, lists, machine words (big-endian 32-bit fields) and finite maps.
--   Framing: the loop that both codecs have, as rounds that wait, fail, or hand out events and
--   leave a shorter buffer. It runs on fuel, the length of the buffer, which is enough since a
--   round takes at least one byte.
--   Protobuf/Runtime, Codec, Lite: src/slite/protobuf. libprotobuf and adler32 are a parameter,
--   with their documented behaviour as a hypothesis where a theorem needs it; Toy is an instance
--   to run.
--   Reactor/Channel: src/slite/Channel.cc with updateChannel and removeChannel of EventLoop.cc.
--   The model records the calls of epoll_ctl; what they do is the record Epoll.
--   Reactor/Loop: loop, pushTask, runTask, quit and doTask of src/slite/EventLoop.cc, as steps of
--   the loop's thread and of others. pushTask and quit of another thread are several steps: the
--   mutex covers only the push_back.
--   Reactor/Thread: src/slite/EventLoopThread.cc, startLoop, threadFunc and the destructor as
--   steps of two threads.
--   Reactor/Timer: src/slite/Timer.cc, runAfter, runEvery and cancel. Times are whole
--   milliseconds.
--   Tcp/Connection: src/slite/TCPConnection.cc. Each step takes the kernel's answer as an
--   argument; a failed assert is none.
--   Tcp/Connection/Queue: the byte queue that a connection promises to be.
--   Link: ProtobufCodec on two connections, from one end to the other.
--   Tcp/Connection/Live: the steps that cannot fail on a connection that is up.
--   Tcp/Handle: the descriptors of src/slite/TCPHandle.cc, its calls of open and close recorded.
--   Tcp/Acceptor: src/slite/Acceptor.cc, but for handleRecv, which stands in Tcp/Server.
--   Tcp/Connector: src/slite/Connector.cc; the channel of an attempt, and the waits between
--   attempts.
--   Tcp/Client: src/slite/TCPClient.cc over the connector; the calls on its connections are
--   recorded.
--   Tcp/Server: src/slite/TCPServer.cc, with Acceptor::handleRecv and EventLoopThreadPool; the
--   tasks for the loops of the connections are recorded.
--   ThreadPool: src/slite/ThreadPool.cc, callers and workers as steps, with the callers that
--   sleep on notFull_; the notices to workers are left out.
--   Rpc: src/slite/protorpc; calls and their responses, requests and their answers.
--   Rpc/Wire: RpcChannel::onMessage with its codec, on bytes.
--   Rpc/Objects: what RpcChannel deletes, to its destructor.
--   Http: src/slite/http, the loop of HTTPCodec::onMessage on fuel, the length of the buffer and
--   two, which is enough since each line takes at least two bytes.
--   Protobuf/Dispatcher: src/slite/protobuf/ProtobufDispatcher.h; GetDescriptor and dynamic_cast
--   are parameters.
--   Http/Server: src/slite/http/HTTPServer.cc; the file system is a parameter.
--   MemoryDb: examples/memdb.cc, its parser on fuel, the length of the buffer and one, which is
--   enough since each line takes at least two bytes, and its store.
--   SubPub: examples/subpub.cc, SubPub/Receiving its subscribers; its loop is on fuel, the length
--   of the buffer and one, which is enough since each round takes at least one byte.
--   Servers: the callbacks of examples/simple_server.cc and echoserver.cc on a connection,
--   Servers/Limit: examples/max_connection.cc, and Servers/Query: examples/protobuf_server.cc.
--   MessageQueue: examples/mq/MessageQueue.cc.
--   Pingpong: examples/pingpong_bench.cc, its callbacks in any order.
--   Logs: src/slite/AsyncLogger.cc, its backend as steps, Logs/File: src/slite/Logging.cc, and
--   Logs/Logger: the statements of src/slite/Logger.cc.
--
-- Lengths that passed a codec's range check are natural numbers, as their int arithmetic cannot
-- overflow; the 32-bit length field itself is read as a signed number with its wrap-around. Not
-- modelled: main of the example programs; the formatting of times, socket options and addresses,
-- which only call the system; and the tests and maxconn_bench.c, which have no logic of their
-- own.
pub mod Base
pub mod Framing
pub mod Http
pub mod Link
pub mod Logs
pub mod MemoryDb
pub mod MessageQueue
pub mod Pingpong
pub mod Protobuf
pub mod Reactor
pub mod Rpc
pub mod Servers
pub mod SubPub
pub mod Tcp
pub mod ThreadPool
