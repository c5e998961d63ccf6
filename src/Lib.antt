-- ===== src/Lib.antt =====
-- SNFrame, a framework for instant messaging servers: a model of its core and what is proved of it.
--
-- The program. A process accepts and makes TCP connections (src/core/NetManager.cpp, NetServer.cpp).
-- When the kernel reports a connection readable, `Connection::read` (src/core/Connection.cpp) fills
-- its buffer, and `TcpServer::parse` (src/core/TcpServer.cpp) cuts packets out of it: a header of 27
-- bytes with a tag, two ids, a service and a command id, a length and a check byte, then the body
-- (src/base/PbBuf.cpp, src/base/Common.h). A packet that passes `check` goes to the nodes
-- (`parseCommonProto`) or to the handler that is registered for its ids, on a thread of the pool
-- (src/core/ThreadPool.cpp). What is to be sent waits in a queue of the connection until
-- `Connection::write` hands it to the kernel.
--
-- The files.
--   Base: shared names, lists, tests on numbers, and `Outcome`, the result of code that may access
--     memory it does not own.
--   Memory: blocks of bytes; an access outside a block is a fault.
--   Packet: src/base/PbBuf.cpp, every function, with src/base/IMString.cpp. Header has the readers,
--     Fields the view of the header, Readers and Body and Data and Check the properties.
--   Protocol: the numbers of IM.BaseDefine.pb.h, which is generated: a parameter.
--   Frame: `TcpServer::parse`, a function for each of its branches. Scan says the same of a list of
--     bytes, without buffer, position or half copied packet; Delivery has the refinement, Safe is
--     about the program's own delivery.
--   Conn: `Connection::read`, `write` and `nextPkt`, with the queue of src/base/IMQueue.h. Cache has
--     who owns the queue, in a store, where a connection is made again; Reconnects what is left then.
--   Net: src/core/NetManager.cpp, the list of connections and the four senders; Net/Tcp has
--     `TcpServer::read` and `write`. Steps has `connect` and `accept` of src/core/NetServer.cpp and
--     all of these as a relation between states, `TcpServer::write` as two steps; Invariant is about
--     the sequences on one thread, Race about a sender on a thread of the pool.
--   Pool: src/core/ThreadPool.cpp, a function for each critical section; Steps has their interleavings,
--     as a relation between states, Order and Idle what every interleaving keeps.
--   Config: src/base/ConfigFileReader.cpp, the lines of the file and the map of values.
--   Decimal: what `atoi` and `sprintf` do with decimal numbers.
--   Timer: src/core/Timer.cpp, and the timers of src/core/LibEvent.cpp.
--   Nodes: src/core/Node.cpp and src/core/ServiceNode.cpp, the states of nodes and who is connected
--     again; Nodes/Manager has the lookups of src/core/NodeMgr.cpp and the answer to an
--     authentication, Start its table of services, Init what that is filled with, Answer the request
--     that it answers, Stalls a message that was sent before the answer. Of
--     src/core/RouterNode.cpp, Router has the broadcast of servers and the registration, Messages
--     the answer of the router, Notify the callback `notifyNodeState`. Request has the messages
--     that are sent.
--   Sender: src/core/Sender.cpp, a send that waits until the kernel has taken everything, and
--     src/core/Service.cpp. Arrives follows a request from one process to the other.
--   Handlers: src/core/PbProtocolHandler.cpp and src/core/Recver.cpp, the registry of callbacks, and
--     the pool that Recver makes.
--   Start: src/core/Main.cpp, the options, the signals, and the order of the start.
--   Status: src/core/ServerStatus.cpp, the percentages.
--
-- Choices. A block is a list of numbers, a message has NULL or a block; aliases of
-- blocks are not modelled, since `IMString` hands its block on and forgets it. Where two connections
-- point to one queue, Conn/Cache has a store. Numbers are natural; a cast to 16 or 32 bits is
-- written out. malloc, realloc, send, recv and protobuf answer by arguments: lists of answers, one for
-- each call; behind the list malloc grants what is asked, and a socket would block. The loop of `parse`
-- runs on fuel, one more than the bytes that wait and the answers of malloc together: each round takes
-- a byte or a refusal (Frame/Progress). A malloc that refuses for ever is not among these lists:
-- Frame/Refused is about the rounds that it causes. The loops of
-- `read` and `write` are recursion on the answers of the kernel.
--
-- Not modelled: the event loop, sockets, locks, the log, redis, `IMServer::init`, the HTTP server and
-- the vendored libraries, which are calls in sequence or other projects.
pub mod Base
pub mod Memory
pub mod Packet
pub mod Protocol
pub mod Frame
pub mod Conn
pub mod Net
pub mod Pool
pub mod Config
pub mod Decimal
pub mod Timer
pub mod Nodes
pub mod Sender
pub mod Handlers
pub mod Start
pub mod Status
