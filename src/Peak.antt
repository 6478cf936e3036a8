-- ===== src/Peak.antt =====
-- The running program: `Session` and `Server` of net, and the game thread of game/world/world.cpp,
-- on the queues of shared/subsystems that they share. The completion handlers, the rounds of
-- `Server::Sender` and the ticks run in any order, each as one step. `none` is a null pointer that
-- is dereferenced.
use endless_peak_server.Shared.{
  ℕ, ◌≡◌, ◌&&◌, Bool, true, false, not, if◌then◌else◌, leb, List, [], ◌∷◌, Option, none, some,
  ◌>>=◌, length,
}
use endless_peak_server.Double.{Double}
use endless_peak_server.Packet.{NetPacket, Opcodes, remove_player, to_opcode, get_head_opcode}
use endless_peak_server.Reader.{on_read, limit}
use endless_peak_server.Session.{SendBuffer, State, connecting, Session, on_written}
use endless_peak_server.World.{World}
use endless_peak_server.World.Loop.{tick}
use endless_peak_server.Server.{
  Server, find, assign, erase, accept, on_accepted, on_error, on_received, on_sent, sender_round,
  new_server,
}
pub mod Polite
pub mod Heard
pub mod Tracks
pub mod Safe
pub mod Places
pub mod Life
pub mod Sessions
pub mod Visits
pub mod Leaver

-- `detached` has the sessions that are not in `sessions_` and live on in their handlers, by their
-- identifiers. The server's queues are those of the network that the world refers to.
pub record Peak (D : Type 0) : Type 0 where
  pub server : Server
  pub detached : List (ℕ × Session)
  pub world : World D

-- A TCP connection is accepted, the handshake of a session ends without or with an error, a read
-- brings bytes, a read or a write fails, a write ends, a thread of `Sender` runs one round, and the
-- game thread runs one tick after the given time.
pub data Event (D : Type 0) : Type 0 where
  connects : Event D
  accepted refused : ℕ → Event D
  brings : ℕ → List ℕ → Event D
  fails : ℕ → Event D
  writes : ℕ → Event D
  sends : Event D
  ticks : D → Event D

unfoldable pub is_connecting : Session → Bool
is_connecting session = elim session.state [ connecting ↦ true | _ ↦ false ]

-- A read is outstanding only after the handshake, and asks for at most `limit` bytes.
may_bring : List ℕ → Session → Bool
unfolding is_connecting
may_bring chunk session =
    not (is_connecting session)
    && leb (length chunk) (limit session.reader.reading session.reader.handler)

may_fail : Session → Bool
unfolding is_connecting
may_fail session = not (is_connecting session)

writing : Option SendBuffer → Bool
writing none = false
writing (some buf) = true

may_write : Session → Bool
unfolding writing
may_write session = writing session.in_flight

registered_or : List (ℕ × Session) → ℕ → Option Session → Option Session
registered_or detached id none = find id detached
registered_or detached id (some session) = some session

settled : Session → List (ℕ × Session) → Option Session → List (ℕ × Session)
settled session detached none = assign session.id session detached
settled session detached (some registered) = erase session.id detached

module _ {D : Type 0} where
  -- The session that a handler holds.
  unfoldable pub holds : ℕ → Peak D → Option Session
  unfolding registered_or
  holds id s = registered_or s.detached id (find id s.server.sessions)

  -- What a handler leaves; the session is detached unless it is in the map.
  unfoldable pub settle : Session × Server → Peak D → Peak D
  unfolding settled
  settle (session, server) s = record s {
    server = server;
    detached = settled session s.detached (find session.id server.sessions);
  }

  handled :
      (Session → Bool) → (Session → Server → Session × Server) → Peak D → Option Session → Peak D
  handled enabled handler s none = s
  handled enabled handler s (some session) =
      if enabled session then settle (handler session s.server) s else s

  -- A handler of a session that may run.
  unfoldable pub handle :
      (Session → Bool) → (Session → Server → Session × Server) → ℕ → Peak D → Peak D
  unfolding handled
  handle enabled handler id s = handled enabled handler s (holds id s)

  -- The world with the network's queues as they are, and the server with them after a tick.
  unfoldable pub queues_in : Peak D → World D
  queues_in s = record (s.world) { net_in = s.server.in_queue; net_out = s.server.out_queue }

  unfoldable pub queues_out : World D → Peak D → Peak D
  queues_out w s = record s {
    server = record (s.server) { in_queue = w.net_in; out_queue = w.net_out };
    world = w;
  }

  -- The program when its threads start.
  unfoldable pub opened : World D → Peak D
  opened w = record {
    server = record new_server { in_queue = w.net_in; out_queue = w.net_out };
    detached = [];
    world = w;
  }

module _ {D : Type 0} ⦃d : Double D⦄ where
  -- One event; one that is not enabled changes nothing. Which operations of a closed session are
  -- still outstanding is not kept: any of them may end.
  unfoldable pub step : Event D → Peak D → Option (Peak D)
  unfolding is_connecting may_bring may_fail may_write
  step connects s = some (settle (accept s.server) s)
  step (accepted id) s = some (handle is_connecting on_accepted id s)
  step (refused id) s = some (handle is_connecting on_error id s)
  step (brings id chunk) s = some (handle (may_bring chunk) (on_received chunk) id s)
  step (fails id) s = some (handle may_fail on_error id s)
  step (writes id) s = some (handle may_write on_sent id s)
  step sends s = sender_round s.server >>= λ server. some (record s { server = server })
  step (ticks dt) s = tick dt (queues_in s) >>= λ w. some (queues_out w s)

  unfoldable pub run : List (Event D) → Peak D → Option (Peak D)
  run [] s = some s
  run (e ∷ es) s = step e s >>= run es
