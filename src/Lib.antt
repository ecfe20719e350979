-- ===== src/Lib.antt =====
-- The stage gateway: clients and internal servers connect to it by TCP, authenticate, and exchange
-- messages that it forwards. This library models the gateway's message path, from the bytes on a
-- connection to the sessions and the registry of sockets above them. Paths are from the root of the
-- repository.
--
-- Prelude: tests, lists over the native numbers, casts and little-endian words (Words), exclusive or
--   (Bits), results of calls (Outcome), sets as lists of keys (Sets), and reading memory from the
--   front (Reader).
-- Core/Segment: `TBufferSegment` of stage/core/BufferSegment.h. An `int` is its 32-bit pattern, so a
--   negative one is at least 2^31. A shared buffer is a list of bytes or `none` for null.
-- Net/Message, Net/Header: `Message` with `NewId` and `socket_packet_hdrc` of stage/net/Message.h and
--   Message.cpp, with the bytes that the packed structure has in memory on x86-64.
-- Net/Checksum: `MaskOff32` and `MaskOff` of stage/net/Socket.cpp.
-- Net/Receiver: `StartReceive`, `ProcessReceive` and `CheckingMaskOff` of stage/net/Socket.cpp. Each
--   chunk that the kernel hands out is one call of `receive`: `arrive` stores it where `StartReceive`
--   pointed, and `process_receive` is the completion; `pump` is the chain of completions. What the
--   virtual functions of `Socket` answer is the record `Endpoint`. `Fits` says that each chunk is
--   what `start_receive` asked for, which the kernel guarantees.
-- Net/Packet: the two `ToPacket` of stage/net/Socket.cpp, with the record `Sender` for the virtual
--   functions, and the stream of several packets.
-- Net/Route, Net/Bulk: `Transitroute` and `TBulkManyMessage` of stage/net/Message.h.
-- Cipher/Rc4: stage/cipher/RC4.cpp.
-- Stage/Gzip: the limits of stage/compression/compress.hpp and decompress.hpp. zlib is not part of the
--   repository: it is the record `Zlib`, and `IsZlib` says what its documentation promises.
-- Stage/Codec: `EncryptMessage` and `DecryptMessage` of stage/stage/StageSocket.cpp, which fill
--   `Sender` and `Endpoint`.
-- Stage/Authentication: stage/stage/model/AuthenticationAAA.h.
-- Stage/Session: the life of one `StageSocket` of stage/stage/StageSocket.cpp as a state with a log of
--   the events it raises. Session/Input has `ProcessInput`, `CompletelyAuthentication` and
--   `ProcessTickAlways`. The record `Host` has the answers of the handler, of the socket's write
--   and of the random numbers. Session/Order has the steps and what can be reached by them,
--   Session/Lasting the messages and ticks that leave a session alive, and Session/Connection the two
--   sessions of one connection. A session starts as `initial`, created and opened.
-- Stage/Delivery: a handshake with the messages behind it, in both directions.
-- Stage/Registry: `SocketVectorObject`, `Server::RemoveByLinkNo` and `NewLinkNo` of
--   stage/stage/StageSocketCommunication.cpp. A socket is a number, a hash map the list of its entries
--   in the order of iteration, and an iterator the key it stands on.
-- Stage/Admission: `ClientStageSocketHandler::ProcessAuthentication` of the same file. Adding to a hash
--   map may reorder it: the new order is an argument, and `IsOrder` says that it keeps the entries.
-- Stage/Sendback: stage/stage/ServerSendbackController.cpp and its header, the queues of packets for
--   servers that are away. The hash map is the list of its entries; Sendback/Queues and Ticks follow the
--   queue of a key through each operation, Runs, Order and Acts through runs of them. `On` is two
--   functions, one for each event; the return codes of `RawAddSendback` are `AddCode`.
-- Core/LinkedList: stage/core/LinkedList.h on a memory of nodes. LinkedList/Links says which list of
--   addresses the pointers stand for.
-- Core/Random: the hash of stage/core/Random.h.
-- Threading/Timers: stage/threading/Timer.cpp and TimerScheduler.cpp. A timer and its node have one
--   address. A handler is what calls it makes on timers; they are made in place, inside the visit.
-- Uuid/Guid: uuid/Guid.cpp and Guid.h. Printing and reading are on texts without a length limit; those of
--   the code fit its buffer.
-- Tests: the theorems at concrete inputs.
--
-- Loops are recursion on the list they run over, with these exceptions. The growth loop of
-- `decompress` runs on as much fuel as its limit leaves room for: each round adds at least one
-- byte, so 1000000001 rounds are enough. The loop of `NewLinkNo` has the 65535 rounds of the
-- source, and `ProcessTickAlways` the turns it is told. `Find`, `Clear` and the scheduler's
-- `Dispose` follow pointers and run on fuel: a round for each node and one more. A number of at
-- most 32 bits has ten decimal digits.
--
-- Not modelled: the asynchronous input and output of boost::asio, locks and threads, failing
-- allocations, null `this`, the events that an owner subscribes to, the opening of connections, the
-- other handlers of stage/stage/StageSocketCommunication.cpp, the clients of stage/stage/StageClient.cpp,
-- `Run` of the timer scheduler, the random numbers of stage/core/Random.h, collections,
-- dates, the SDK under xiyousdk, the sensors, and json, which is a copy of another library.
pub mod Prelude
pub mod Core
pub mod Net
pub mod Cipher
pub mod Stage
pub mod Tests
pub mod Threading
pub mod Uuid
