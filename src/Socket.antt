-- ===== src/Socket.antt =====
-- `WSSocket` and `WSSSocket` of net/socket. The stream of boost::beast is the list of calls made on
-- it; its completions are events.
use endless_peak_server.Shared.{ℕ, Bool, true, false, if◌then◌else◌, List, [], ◌∷◌, ◌++◌}
pub mod Closing

-- A call of the stream; `handshakes` and `shuts_down` are those of its TLS layer.
pub data Call : Type 0 where
  cancels closes accepts handshakes shuts_down : Call
  reads writes : ℕ → Call

-- `closed` is `closed_`, `is_open` what the layer below says, `closing` whether an `async_close` is
-- outstanding, `gave_up` whether a handshake failed.
pub record Socket : Type 0 where
  pub closed : Bool
  pub is_open : Bool
  pub closing : Bool
  pub gave_up : Bool
  pub calls : List Call

unfoldable pub new_socket : Socket
new_socket = record { closed = false; is_open = true; closing = false; gave_up = false; calls = [] }

unfoldable pub call : Call → Socket → Socket
call c s = record s { calls = s.calls ++ (c ∷ []) }

-- The test of the flag sets it.
unfoldable pub is_closed : Socket → Bool × Socket
is_closed s = (s.closed, record s { closed = true })

unfoldable pub cancel : Socket → Socket
cancel s = if s.is_open then call cancels s else s

unfoldable pub close_web_socket : Socket → Socket
close_web_socket s = record (call closes s) { closing = true }

unfoldable pub ws_close : Socket → Socket
ws_close s = let (was, s') = is_closed s in if was then s' else close_web_socket (cancel s')

unfoldable pub close_ssl : Socket → Socket
close_ssl s = call shuts_down s

unfoldable pub wss_close : Socket → Socket
wss_close s =
    let (was, s') = is_closed s in if was then s' else close_ssl (close_web_socket (cancel s'))

-- A session's call of the socket, the completion of a close, the completion of a TLS handshake
-- with or without an error, or the end of the connection below.
pub data Event : Type 0 where
  close accept close_completed drop : Event
  read write : ℕ → Event
  handshake_completed : Bool → Event

unfoldable pub ws_handle : Event → Socket → Socket
ws_handle close s = ws_close s
ws_handle accept s = call accepts s
ws_handle close_completed s = record s { closing = false }
ws_handle drop s = record s { is_open = false }
ws_handle (read limit) s = call (reads limit) s
ws_handle (write size) s = call (writes size) s
ws_handle (handshake_completed failed) s = s

unfoldable pub wss_handle : Event → Socket → Socket
wss_handle close s = wss_close s
wss_handle accept s = call handshakes s
wss_handle close_completed s = if s.closing then close_ssl (record s { closing = false }) else s
wss_handle drop s = record s { is_open = false }
wss_handle (read limit) s = call (reads limit) s
wss_handle (write size) s = call (writes size) s
wss_handle (handshake_completed failed) s =
    if failed then record s { gave_up = true } else call accepts s

unfoldable pub ws_run : List Event → Socket → Socket
ws_run [] s = s
ws_run (e ∷ es) s = ws_run es (ws_handle e s)

unfoldable pub wss_run : List Event → Socket → Socket
wss_run [] s = s
wss_run (e ∷ es) s = wss_run es (wss_handle e s)
