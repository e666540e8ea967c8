-- ===== src/Lib.antt =====
-- The benchmarks of RPC stacks in this repository: an echo client and server on raw sockets
-- (AsyncIO/), an RPC client that drives a server over thrift (StorageRpc/), three experiments of
-- a client, a DB server and leaf servers (fbthrift/exp1, exp2, exp3), the same RPC client over a
-- unix domain socket (fbthrift/domain-socket), a key-value handler with its client (thrift/exp1,
-- thrift/exp2), a message service on wangle (wangle/), and benchmarks of serializers
-- (serialize/).
--
-- The clients keep a number of requests outstanding on an event loop, time each by a map from its
-- identifier, and stop after a number of replies. The DB server of exp3 passes a write to all
-- leafs and a read to the next one; a leaf reads and writes files through the kernel's
-- asynchronous I/O. The DB server of exp2 passes a put to the next leaf, which answers it through
-- a pool of threads.
--
-- Which file models which part:
-- - Prelude and its children: the libraries' names, lists and maps over native numbers, 64- and
--   32-bit arithmetic with its wrap-around, and texts as lists of character codes.
-- - AsyncIo/Request (AsyncIO/request.h): Buffer and ReadCallback as a record, getReadBuffer and
--   readDataAvailable as functions; Request/Chunks and Request/Framing prove what a stream is cut
--   into, Request/Codec the bytes of an identifier. AsyncIo/NetClient (AsyncIO/net-client.cpp):
--   the Benchmark class, with what it has written to the socket; NetClient/Writes has the life of
--   its requests and write callbacks, NetClient/Runs the function run and main. AsyncIo/NetServer
--   (AsyncIO/net-server.cpp): the callback that echoes a request and the write callbacks in
--   flight; NetServer/Threads has the accepted connections, each with its thread. AsyncIo/Loop
--   joins client and server.
-- - StorageRpc/Stats (the StatsCollector of StorageRpc/Client.cpp), StorageRpc/Echo
--   (BenchmarkEcho), StorageRpc/Send (BenchmarkSend and BenchmarkSendNoData), StorageRpc/Commands
--   (Split and the command loop of main), StorageRpc/Server (the handlers of
--   StorageRpc/Server.cpp).
-- - Leaf/Aio (fbthrift/exp3/LEAF/AsyncIO.h and AsyncIO.cpp): the IO object, the vector of I/Os in
--   flight and iosCompleted; Leaf/Aio/System has the interleavings of submissions, the kernel and
--   the event handler as a step relation. Leaf/Server (fbthrift/exp3/LEAF/LeafServer.cpp): the
--   two handlers, over an interface to the system; Leaf/Server/Steps has what follows a request,
--   as events in any order: an I/O completes, a thread takes a job, an event base runs a task;
--   Leaf/Server/Refine relates these events to the steps of Leaf/Aio/System, an I/O at a time
--   (Leaf/Aio/Rounds), and Leaf/Server/Drain has how they end.
-- - Clients/Pipeline: the loop of start_benchmark, which fbthrift/exp1/client.cpp,
--   fbthrift/exp2/DB/client.cpp and fbthrift/exp3/DB/client.cpp share; Clients/Exp1, Exp2 and
--   Exp3 have what is their own: the replies, the assertion on them, the totals and the averages.
-- - DbServer/Handler (Leaf and DBHandler of fbthrift/exp3/DB/DBServer.cpp): arrivals, the lambdas
--   that are queued on the event base, replies and closed channels are events; Handler/Bases runs
--   the lambdas on several event bases, Handler/Threads has the memory accesses of getLeaf on
--   several threads. DbServer/Addresses: split and the list of leafs in main.
-- - PutServers/Leaf (fbthrift/exp2/LEAF/LeafServer.cpp) and PutServers/Db
--   (fbthrift/exp2/DB/DBServer.cpp): the put handlers, as events like those of DbServer. The DB
--   server sees its leafs through the interface of PutServers/Service, which PutServers/Leaf
--   fills.
-- - DomainSocket/Benchmark and DomainSocket/Socket (fbthrift/domain-socket/Client.cpp and
--   Server.cpp); DomainSocket/Session has main with the threads of its clients.
-- - KeyServer (thrift/exp2/thrift-server.cpp): the handler with its cache and the choice of a
--   server. KeyServer/Ganesha (fbthrift/exp1/GaneshaDBServer.cpp): the handler with its own
--   constructor; Ganesha/Threads has the statements of init_data on several threads.
--   Clients/Thrift (thrift/exp1/client.cpp, thrift/exp2/client.cpp): the loop of puts and the
--   table.
-- - Wangle/Codec (wangle/message.h, and the service of wangle/server.cpp): a message as its
--   fields and the bytes behind it. Wangle/Dispatcher and Wangle/Client (wangle/client.cpp): the
--   map of promises, and the loops of main.
-- - Serialize (serialize/Serialize.cpp): the four benchmarks, over parameters for the
--   serializers.
--
-- A failed assertion, a missing key where the code relies on one, and an exception are `none`.
-- What is not under this repository is a parameter: the clock, the replies that a turn of the
-- event loop brings, when the future of collectAll is ready, the results of the kernel, the
-- answers of system calls, malloc, the serializers, std::stoul and to_lower, and what the one
-- statement does that names an undeclared variable (fbthrift/exp2/DB/DBServer.cpp). What an
-- assertion in the code demands of the other side is a hypothesis on the replies.
--
-- Loops over an event loop take its turns as a list, and a theorem says how many turns are
-- enough. The loops of split run on fuel: with more rounds than the text is long they end, or
-- they never do. Counters are 64 bits wide, with the wrap-around written out; the bounds in the
-- theorems keep them below 2^62 or 2^63. The queue depth is below 2^31 or 2^32, as the counters
-- of the `for` loops need.
--
-- Not modelled: the libraries (thrift, folly, wangle, boost) and generated code, printing, the
-- dump thread, socket set-up, the handler of thrift/exp1 (line for line that of thrift/exp2), the
-- copies of Leaf and split in fbthrift/exp2, functions that nothing calls, code disabled by the
-- preprocessor, and StorageRpc/SerializationTest.cpp, which tests library code.
pub mod Prelude
pub mod AsyncIo
pub mod StorageRpc
pub mod Leaf
pub mod Clients
pub mod DbServer
pub mod PutServers
pub mod DomainSocket
pub mod KeyServer
pub mod Wangle
pub mod Serialize
