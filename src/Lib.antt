-- ===== src/Lib.antt =====
-- The game database server: a C++ server that takes FlatBuffers requests of game clients over
-- sockets, has one database thread answer them from MySQL, and sends the answers back.
--
-- Parts and files, with paths from the repository's root:
--   * Packet, Packet/*: Common/Packet.h (Task, DBResponse) and the schema Common/UserEvent.fbs. The
--     text fields of its tables may be absent where they are read; those of the items, shops,
--     monsters and chats in a response are read by nobody and stand as they are written.
--   * Platform: what the server calls and the repository does not hold or generates: the MySQL
--     client library with the database, FlatBuffers, floats. It is a record that every definition
--     takes as an instance argument; the database's answers may depend on all calls made before.
--   * Action, Action/*: the state of the database thread (World) and actions on it, which return,
--     throw a std::exception or reach undefined behaviour (following a null pointer). Traffic and
--     Once are rules on how many responses an action sends.
--   * Connector, Connector/Query: Project1/MySqlConnector.cpp.
--   * PacketManager, PacketManager/*: Project1/ServerPacketManager.cpp. A Create method is the
--     function of its snake_case name; FlatBufferBuilder is the parameter `build`.
--   * Database, Database/*: Project1/DatabaseThread.cpp. HandleXRequest is handle_x_request, which
--     parses and validates, and the helper beside it is the method's body; Sql holds the texts of
--     the statements; Status the object with its flag; Tasks has ProcessTask and the loop of Run.
--     Traffic/* follows every handler to the responses that it sends and the loop of Run to the
--     order and the end of its queue (Order, Drain); Reply says what a response holds.
--   * Text, Text/Numbers: std::stoul, stream output of numbers and C strings.
--   * Worker, Worker/*: Project1/WorkerThread.cpp. Clients has the linked list with its nodes in
--     memory, Transfer the reading and writing of packets, Serving the loop of RunOnServerThread
--     between the calls of other threads, and the destructor; Chain, Growth and Removal relate the
--     nodes to a list, Framing is about packets in chunks, Ledger, Exchange and Lifetime about what
--     becomes of each socket.
--   * Server, Server/*: Project1/Server.cpp. Workers has the list of workers, Start Initialize, Loop
--     the rounds of the server's threads, Stop and the destructor, Main the constructor, Destroy and
--     Project1/ServerMain.cpp; Sharing, Responding, Lifetime, Destruction and Exit are about what
--     becomes of each accepted socket.
--   * LockFreeQueue, LockFreeQueue/*: Common/LockFreeQueue.h. Memory has the nodes by address, the
--     construction, empty, size and the destructor; Enqueue and Dequeue the two methods, one access
--     of shared memory at a time; Threads their interleavings. Invariant, Writes, Producing, Enqueued
--     and Dequeued carry the invariant of one producer and one consumer through each access; History
--     has the access that returned the last item, for the destructor (Destruction).
--   * TestClient, TestClient/*: TestClient/ClientPacketManager.cpp (Manager, Requests, Responses,
--     Names) and the program of TestClient/ClientMain.cpp (Session, Tests, Main); Network is what
--     Winsock answers, by the number of the call. Calls and Replies list the calls of the Create
--     methods on both sides; Texts and Answering are about tests whose responses lack no
--     text; EndToEnd follows a request from the client to the database thread.
--   * Examples, Examples/*: a fixed platform and the theorems at concrete requests.
--
-- How the parts interact: the server puts an accepted socket into a worker's list (place_client);
-- a worker puts a Task into RecvQueue; run_round takes the oldest and
-- run_task processes it; the handler calls the packet manager and the connector, and puts a
-- DBResponse into SendQueue, which is the list `sent` of the World, the newest first; the server
-- takes it from there (process_db_response), and the worker of its socket sends it.
--
-- Numbers are the native numbers; a SOCKET has 64 bits and is narrowed to 32 in a packet; products
-- of uint32_t are written `% 2 ^ 32`. The loop that escapes a chat message runs on fuel: one more
-- than the length of the message, and each round passes at least one quote. The loops over a worker's
-- nodes run on the number of its clients. The loops of send and recv are recursions on the results
-- of their calls, and the loop of Run is one on the list of its rounds.
--
-- In the lock-free queue an access is a step; compare_exchange_weak fails only where another value
-- stands, as on x86, and an address that `new` has given is not given again. Its size counts with as
-- much fuel as addresses were given, and the destructor with one more. The loops of the client's
-- SendPacket and ReceivePacket run on as much fuel as bytes are missing, since each round moves one
-- byte at least; its TryReconnect makes three attempts, and RunTestLoop is a recursion on the list
-- of the choices that are typed: it returns at the exit, waits where the list ends without one, and
-- stops where a test follows a null pointer (Progress).
--
-- Not modelled: log output and what the client prints; the options of sockets, the starting of
-- threads and the registration of signal handlers, which are steps that call Stop; several threads
-- in one worker's list at a time; the time that threads sleep; the commented-out first version of
-- the client in ClientMain.cpp; the vendored FlatBuffers and MySQL connector and the generated
-- Common/UserEvent_generated.h but for the accessors of its union.
mod Prelude
pub mod Text
pub mod Packet
pub mod Platform
pub mod Action
pub mod Connector
pub mod PacketManager
pub mod Database
pub mod Worker
pub mod LockFreeQueue
pub mod Server
pub mod TestClient
pub mod Examples
