-- ===== src/Server.antt =====
-- `Server` of net/server/server.cpp with the session handlers of net/session/session.cpp that call
-- it. A handler runs as one step. `none` is a null pointer that is dereferenced.
use endless_peak_server.Shared.{
  ℕ, zero, suc, ◌+◌, ◌%◌, ◌^◌, Bool, true, false, not, if◌then◌else◌, ◌==◌, List, [], ◌∷◌, ◌++◌,
  Option, none, some, ◌>>=◌, add64,
}
use endless_peak_server.Queue.{TsQueue, new_queue, push, wait_and_pop}
use endless_peak_server.Packet.{NetPacket, opcode_packet, create_player, remove_player, make_buffer}
use endless_peak_server.Reader.{Reader, on_read}
use endless_peak_server.Session.{
  SendBuffer, State, connecting, connected, disconnecting, disconnected, user, Session, new_session,
  push_to_send, on_written, set_connected, set_disconnecting, set_disconnected, get_state,
}
use endless_peak_server.World.{ServerPacket, PacketType, broadcast, rpc, rpc_others}
pub mod Sessions
pub mod Delivery
pub mod Receiving
pub mod Late
pub mod Kept
pub mod Senders
pub mod Race

-- `sessions` is `sessions_`, its keys with the sessions. A handler is given its session as well,
-- since a callback keeps it alive when it is not in the map, and writes it back where it is.
pub record Server : Type 0 where
  pub new_session_id : ℕ
  pub sessions : List (ℕ × Session)
  pub in_queue : TsQueue ServerPacket
  pub out_queue : TsQueue ServerPacket

-- `Server::Server`; the queues are those of the network.
unfoldable pub new_server : Server
new_server = record {
  new_session_id = 0;
  sessions = [];
  in_queue = new_queue;
  out_queue = new_queue;
}

unfoldable pub find : ℕ → List (ℕ × Session) → Option Session
find id [] = none
find id ((k, s) ∷ rest) = if k == id then some s else find id rest

unfoldable pub assign : ℕ → Session → List (ℕ × Session) → List (ℕ × Session)
assign id s [] = (id, s) ∷ []
assign id s ((k, t) ∷ rest) = if k == id then (k, s) ∷ rest else (k, t) ∷ assign id s rest

unfoldable pub erase : ℕ → List (ℕ × Session) → List (ℕ × Session)
erase id [] = []
erase id ((k, t) ∷ rest) = let rest' = erase id rest in if k == id then rest' else (k, t) ∷ rest'

-- The success branch of the handler in `Server::Run`: the new session, not yet in the map.
unfoldable pub accept : Server → Session × Server
accept server =
    let id = server.new_session_id in
    (new_session id, record server { new_session_id = add64 id 1 })

unfoldable pub push_packet : ServerPacket → Server → Server
push_packet packet server = record server { in_queue = push packet server.in_queue }

unfoldable pub add_session : Session → Server → Server
add_session session server =
    push_packet (record { packet = opcode_packet create_player; id = session.id; type = broadcast })
      (record server { sessions = assign session.id session server.sessions })

closed : ℕ → Server → Option Session → Server
closed id server none = server
closed id server (some session) =
    push_packet (record { packet = opcode_packet remove_player; id = id; type = broadcast })
      (record server { sessions = erase id server.sessions })

unfoldable pub close_session : ℕ → Server → Server
unfolding closed
close_session id server = closed id server (find id server.sessions)

process : State → Session → Server → Session × Server
process connected session server = (session, add_session session server)
process disconnecting session server =
    (set_disconnected (record session { closed = true }), close_session session.id server)
process _ session server = (session, server)

-- `Session::ProcessState`; the read that follows `AddSession` is the one that the reader holds.
unfoldable pub process_state : Session → Server → Session × Server
unfolding process
process_state session server = process (get_state session) session server

-- The completion handler of `async_accept`, without and with an error.
unfoldable pub on_accepted : Session → Server → Session × Server
on_accepted session server = process_state (set_connected session) server

-- The error branch of every handler of a session.
unfoldable pub on_error : Session → Server → Session × Server
on_error session server = process_state (set_disconnecting session) server

pub received : ℕ → Option NetPacket → Server → Server
received id none server = server
received id (some packet) server =
    push_packet (record { packet = packet; id = id; type = broadcast }) server

stored : Session → Server → Option Session → Server
stored session server none = server
stored session server (some s) = record server {
  sessions = assign session.id session server.sessions;
}

-- The map and the callback refer to one object.
unfoldable pub store : Session → Server → Server
unfolding stored
store session server = stored session server (find session.id server.sessions)

-- The success branch of the read handlers.
unfoldable pub on_received : List ℕ → Session → Server → Session × Server
unfolding received
on_received chunk session server =
    let (packet, reader) = on_read chunk session.reader.reading session.reader.handler in
    let session' = record session { reader = reader } in
    (session', received session.id packet (store session' server))

-- The success branch of the write handler.
unfoldable pub on_sent : Session → Server → Session × Server
on_sent session server = let session' = on_written session in (session', store session' server)

-- The loops of `Sender` over `sessions_`.
unfoldable pub send_all : SendBuffer → List (ℕ × Session) → List (ℕ × Session)
send_all buf [] = []
send_all buf ((k, s) ∷ rest) = (k, push_to_send buf s) ∷ send_all buf rest

unfoldable pub send_others : ℕ → SendBuffer → List (ℕ × Session) → List (ℕ × Session)
send_others id buf [] = []
send_others id buf ((k, s) ∷ rest) =
    (k, if k == id then s else push_to_send buf s) ∷ send_others id buf rest

unfoldable pub deliver :
    ServerPacket → SendBuffer → List (ℕ × Session) → Option (List (ℕ × Session))
deliver packet buf sessions = elim packet.type [
  | rpc ↦ find packet.id sessions >>= λ s. some (assign packet.id (push_to_send buf s) sessions)
  | broadcast ↦ some (send_all buf sessions)
  | rpc_others ↦ some (send_others packet.id buf sessions)
]

dispatched : Server → Option (ServerPacket × TsQueue ServerPacket) → Option Server
dispatched server none = some server
dispatched server (some (packet, queue)) =
    deliver packet (make_buffer packet.packet) server.sessions >>= λ sessions.
    some (record server { sessions = sessions; out_queue = queue })

-- One round of `Sender`; at an empty queue it waits.
unfoldable pub sender_round : Server → Option Server
unfolding dispatched
sender_round server = dispatched server (wait_and_pop server.out_queue)
