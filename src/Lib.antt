-- ===== src/Lib.antt =====
-- Verification of EndlessPeak, a game server: clients connect over WebSocket, their inputs go
-- through queues to a world that runs in ticks, and packets go back to the clients.
--
-- Parts and files (paths from the repository's root):
--   Bytes, Packet    src/shared/protocol/net_packet.hpp, net_packet.cpp, opcodes.hpp. A value of a
--                    type T is a number below 256 ^ sizeof(T); a head keeps its fields in network
--                    order, as the code does; operator<< and operator>> are insert and extract.
--   Queue            src/shared/utils/ts_queue.hpp. Each member holds the mutex, so a call is one step.
--   Handler          src/net/session/packet_handler.hpp and .cpp, with the bytes that a read brings.
--   Reader           the completion handlers of Session::ReadPacketHead and ReadPacketBody in
--                    src/net/session/session.cpp; Reader.Frames says independently what the packets
--                    of a stream of bytes are.
--   Session, Sending Session::PushToSend and Send: by one thread (Session), and with any number of
--                    threads that take one atomic operation each in any order (Sending).
--   Server           src/net/server/server.cpp and the rest of session.cpp: sessions that come and
--                    go, and the rounds of Server::Sender; Server.Senders has the threads that run
--                    Sender at once, Server.Late a packet that arrives after its session closed, and
--                    Server.Race the mutex of the map of sessions.
--   Socket           src/net/socket/ws_socket.cpp and wss_socket.cpp: the flag, and the calls that are
--                    made of the stream.
--   Database         src/db/connection and src/db/database: the connection (Database), LoginDataBase
--                    (Database.Login), the documented behaviour of the client library on the table
--                    of src/db/accounts.sql (Database.Table).
--   Swept, Collision src/game/physics and src/game/tile.
--   Player, World    src/game/player and src/game/world. World.Loop has World::Tick and ProcessInput,
--                    World the movement, AddPlayer and RemovePlayer, World.Rounds GameLoop;
--                    World.Protocol has what clients keep to.
--   Crypto           src/cryptography/sha256.hpp and .cpp.
--   Config           src/shared/config/config.cpp: the copy and the print of the map (Config), and the
--                    whole constructor with GetInstance (Config.Load).
--   Main             src/main.cpp with Server::StartListen: what starts, and what makes it fail.
--   Peak             the running program of src/main.cpp: server, sessions and world on the queues they
--                    share. Peak.step runs one completion handler, one round of Sender or one tick;
--                    Peak.Polite says what clients keep to, and Peak.Places where a session can be.
--   Double           the type double as a parameter, with an instance for tests.
--   Shared           numbers, lists and options that the parts share.
--   Tests            concrete inputs for the theorems.
--
-- How they interact: a session's reader gives packets to Server.push_packet, which queues them for
-- the world; World.Loop.tick takes them all at once (ts_swap), changes players, moves them through
-- Collision, and puts packets on the network's queue; Server.sender_round takes them off, makes
-- buffers (Packet.make_buffer) and hands them to sessions (Session.push_to_send).
--
-- Faults: where the code dereferences a null pointer, reads outside a vector or overflows an int (the
-- product of the sizes of the grid, Shared.int_mul), a function returns none. size_t arithmetic is modulo 2 ^ 64.
--
-- Fuel: World.Loop.process_inputs and flush run until a queue is empty. Their fuel is the size of
-- the queue when the loop starts; nothing pushes to that queue during the loop, so that it is
-- enough, and the queue is empty at the end. World.Rounds.game_loop runs the rounds of a list, of any
-- length, for the endless loop of World::GameLoop; Server.Senders and Sending run any list of turns.
--
-- Parameters: double (no law but those of IsOrdered is used), OpenSSL (IsDocumented), the JSON library
-- with the files it reads (Config.Load.Json), the calls of boost::asio that the startup makes
-- (Main.Asio), and the client library of MySQL (Database.MySql), which answers by the history of calls
-- and of which Database.Table.IsTable and Database.Texts.IsFresh state what is documented. The order
-- of iteration of an unordered_map is the order of a list, which is arbitrary.
--
-- Atomicity: in Peak an event is one step, so that the handlers, the rounds of Sender and the ticks
-- are interleaved as wholes. What happens inside them is interleaved in Sending (the operations of
-- PushToSend and Send), Server.Senders (Sender's pop and delivery) and Server.Race (the mutex). Peak
-- does not keep which operations of a closed session are outstanding: any of them may end.
--
-- Not modelled: the streams of boost::beast and the address that string_address asks them for, the
-- clock and the sleep of World::GameLoop, logging except where it is given a null pointer, what the
-- texts of SQL mean beyond Database.Table, and what a data race does to the map of sessions.
pub mod Shared
pub mod Bytes
pub mod Queue
pub mod Packet
pub mod Handler
pub mod Reader
pub mod Socket
pub mod Session
pub mod Sending
pub mod Server
pub mod Database
pub mod Double
pub mod Swept
pub mod Collision
pub mod Player
pub mod World
pub mod Peak
pub mod Crypto
pub mod Config
pub mod Main
pub mod Tests
