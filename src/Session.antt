-- ===== src/Session.antt =====
-- The state of `Session` in net/session/session.hpp, and `PushToSend` and `Send` of session.cpp run
-- by one thread at a time. Sending.antt has the same code with threads interleaved.
use endless_peak_server.Shared.{ℕ, Bool, true, false, if◌then◌else◌, List, Option, none, some}
use endless_peak_server.Queue.{TsQueue, new_queue, push, try_pop, empty}
use endless_peak_server.Reader.{Reader, new_reader}
pub mod Fields
pub mod Gets

-- `SendBuffer`: the bytes that one shared vector holds.
abbrev pub SendBuffer : Type 0
SendBuffer = List ℕ

pub data State : Type 0 where
  connecting connected disconnecting disconnected user : State

-- `reader` is `packet_handler_` with the outstanding read, `in_flight` the buffer of the outstanding
-- `async_write`, and `closed` the flag of the socket.
pub record Session : Type 0 where
  pub id : ℕ
  pub state : State
  pub sending : Bool
  pub reader : Reader
  pub out_queue : TsQueue SendBuffer
  pub in_flight : Option SendBuffer
  pub closed : Bool

unfoldable pub new_session : ℕ → Session
new_session id = record {
  id = id;
  state = connecting;
  sending = false;
  reader = new_reader;
  out_queue = new_queue;
  in_flight = none;
  closed = false;
}

abbrev pub set_connected : Session → Session
set_connected s = record s { state = connected }

abbrev pub set_disconnecting : Session → Session
set_disconnecting s = record s { state = disconnecting }

abbrev pub set_disconnected : Session → Session
set_disconnected s = record s { state = disconnected }

abbrev pub get_state : Session → State
get_state s = s.state

-- The flag's value before, and the session with the flag set.
abbrev pub start_sending : Session → Bool × Session
start_sending s = (s.sending, record s { sending = true })

abbrev pub stop_sending : Session → Session
stop_sending s = record s { sending = false }

-- `IsConnected`: every state but `Disconnected`.
unfoldable pub is_connected : State → Bool
is_connected disconnected = false
is_connected _ = true

write_front : Session → Option SendBuffer × TsQueue SendBuffer → Session
write_front s (none, queue) = record s { out_queue = queue }
write_front s (some buf, queue) = record s { out_queue = queue; in_flight = some buf }

start_write : Bool × Session → Session
unfolding write_front
start_write (was, s) = if was then s else write_front s (try_pop s.out_queue)

unfoldable pub send : Session → Session
unfolding start_write
send s =
    if is_connected (get_state s)
    then if empty s.out_queue then s else start_write (start_sending s)
    else s

unfoldable pub push_to_send : SendBuffer → Session → Session
push_to_send buf s = send (record s { out_queue = push buf s.out_queue })

-- The success branch of the completion handler in `Send`.
unfoldable pub on_written : Session → Session
on_written s =
    let cleared = stop_sending (record s { in_flight = none }) in
    if empty s.out_queue then cleared else send cleared
