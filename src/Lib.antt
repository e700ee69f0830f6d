-- ===== src/Lib.antt =====
-- lib-fantuan: a C++ library for game servers and their clients.
--
-- The program has three layers. common/src holds containers and services (a growing array, a byte
-- buffer, a log, an object pool, strings, an allocator). network/src moves bytes between sockets and
-- handlers, with epoll under Linux and with completion ports under Windows; simplenetwork/src does so
-- for a client. midware/src is the middleware on top: a server whose thread works off commands, its
-- sessions, which cut the byte stream into packets, the client, and streams for the payloads.
--
-- The parts and their files:
-- - Prelude: names, lists over native numbers, bounded copies of memory, 16-bit words.
-- - Common/Allocator (common/src/allocator.cpp): `allocate` and `deallocate`; Blocks, Returned, Added, Refilled and Live
--   follow the objects of all classes, free or handed out.
-- - Common/EasyBuffer (common/src/easy_buffer.cpp): Push and Pop are `push` and `pop`; Laws and Items see
--   the buffer as the bytes that it holds.
-- - Common/EasyLog (common/src/easy_log.cpp): Push, the macros and _Tick are `push`, `log_at` and `tick`,
--   over EasyBuffer.
-- - Common/EasyPool (common/src/easy_pool.h): `allocate` and `free`; an object is its address.
-- - Common/DyArray (common/src/dy_array.h): the scalar branch of every method. Push, Slots, Growth, Erase and
--   Write see an array as its elements, where `none` is an element that no store has reached. Objects has the
--   branches for class types, and Lost, Swaps and Moved follow the lives of the elements.
-- - Common/Array and Common/StringBase (common/src/array.h, common/src/string_base.h): fixed arrays of bytes,
--   and the strings over them; Text sees a string as the bytes before its end mark.
-- - Midware/Packet and Midware/Receive (midware/src/easy_session.cpp, OnData): `fill`, `drain` and `receive`
--   are the steps and loops of OnData, on the buffer that Session keeps.
-- - Midware/Session (midware/src/easy_session.cpp): the methods of EasySession, each with the calls that it
--   makes on its connection.
-- - Midware/Command (midware/src/easy_command.h) and Midware/Server (midware/src/easy_baseserver.cpp): the
--   state that the threads share, the callbacks of the network (`connection_made`, `connection_lost`,
--   `data_received`), one function per command in
--   Server/Handlers, and `command_turn` for a turn of _CommandHandler. Reach
--   has the steps of all threads as a relation.
-- - Midware/Client (midware/src/easy_baseclient.cpp): the callbacks and commands of the client, and its
--   SendData. Delivery follows packets from there to the sessions of the server.
-- - Midware/Stream (midware/src/easy_stream.h): OutputStream, InputStream and Stream.
-- - Midware/Dispatcher (midware/src/easy_dispatcher.cpp): OnPacketReceived, over InputStream.
-- - Network/ContextPool (network/src/easy_contextpool.cpp): the two stacks of contexts, and what the destructor
--   waits for.
-- - Network/Completion (network/src/easy_connection.cpp and easy_worker.cpp, Windows): a connection under a
--   completion port. `work` is what a worker thread does with a completion, Steps has the steps of all
--   threads as a relation, and Invariant, Work, Protocol, Limits, Sends, Contexts, Lost, Refused, Due and Settling are about what is reached.
-- - Network/Acceptor (network/src/easy_acceptor.cpp, Windows): `accept`, `start`, `stop` and the waits of the
--   destructor, on the same stack as the pool of contexts.
-- - Network/Worker (network/src/easy_worker.cpp): the threads of EasyWorker, and `turn`, a round of the Linux thread.
-- - Network/Simple (simplenetwork/src/simple_connection.cpp and simple_worker.cpp, and Login of
--   midware/src/easy_baseclient.cpp): the connection of the client, and `simple_thread`, its thread.
-- - Common/TypeList (common/src/type_list.h, common/src/util.cpp): lists of types as lists of numbers, and
--   NumberPower.
-- - Easynet/EasyBuf (easynet/easy_buf.c): the buffer of the first version.
-- - Network/Receiving and Network/Sending (network/src/easy_connection.cpp in the Linux build,
--   simplenetwork/src/simple_connection.cpp): the loops around recv and send; what the system calls
--   answer is an input. Sending/Outgoing has both SendMessage with their semaphore and their calls of epoll_ctl.
--
-- How it is modelled. Numbers are natural numbers, and a variable of 16, 32 or 64 bits has its
-- wrap-around written out where a sum or product is stored to it. Memory is a list of bytes, or of
-- slots; a copy that leaves its array is a fault, `none` or a constructor that says so, and never
-- silently cut. Sessions and connections are known by their addresses; a call on a deleted connection is
-- a fault. The machine is little-endian. The handlers of packets, the rendering of a log line, and the
-- answers of the system's calls are arguments of the definitions that use them. Calls that hold a mutex are
-- single steps, and so is what a thread of the completion port does with a connection between two changes of its count.
--
-- Fuel: the loops of OnData run on fuel. `on_data` gives the outer loop one round for every byte and one
-- more, and each round of it gives the inner loop one round for every byte held and one more. Where a
-- frame length is 0 in 16 bits the C++ loop does not end, and then no fuel is enough.
--
-- Not modelled: threads, mutexes and condition variables beyond the order of their steps, sockets, the
-- log file, time control, crash dumps, and the older copies of the
-- network code in easynet (but for its buffer), EasyNetwork and tcpnetwork.
pub mod Prelude
pub mod Common
pub mod Easynet
pub mod Midware
pub mod Network
