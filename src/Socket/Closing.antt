-- ===== src/Socket/Closing.antt =====
-- How often a socket closes its stream.
use endless_peak_server.Shared.{
  ℕ, ◌*◌, ◌+◌, ap, ◌∙◌, Bool-cases, inl, inr, ◌≤◌, ◌≡◌, refl, Bool, true, false, ◌||◌, List, [],
  ◌∷◌, ◌++◌, arith,
}
use endless_peak_server.Socket.{
  Call, cancels, closes, accepts, handshakes, shuts_down, reads, writes, Socket, new_socket, call,
  cancel, close_web_socket, is_closed, ws_close, close_ssl, wss_close, Event, close, accept,
  close_completed, drop, read, write, handshake_completed, ws_handle, wss_handle, ws_run, wss_run,
}

-- The number of calls of each kind.
abbrev pub cancel_count : Call → ℕ
cancel_count cancels = 1
cancel_count _ = 0

abbrev pub close_count : Call → ℕ
close_count closes = 1
close_count _ = 0

abbrev pub shut_count : Call → ℕ
shut_count shuts_down = 1
shut_count _ = 0

abbrev pub total : (Call → ℕ) → List Call → ℕ
total f [] = 0
total f (c ∷ cs) = f c + total f cs

total-append :
    (f : Call → ℕ) (cs : List Call) (c : Call) → total f (cs ++ (c ∷ [])) ≡ total f cs + f c
total-append f [] c = omega arith
total-append f (d ∷ cs) c = omega (arith, total-append f cs c)

abbrev pub number : Bool → ℕ
number true = 1
number false = 0

-- Whether the session asked for the close.
abbrev pub asked : List Event → Bool
asked [] = false
asked (close ∷ es) = true
asked (accept ∷ es) = asked es
asked (close_completed ∷ es) = asked es
asked (drop ∷ es) = asked es
asked (read n ∷ es) = asked es
asked (write n ∷ es) = asked es
asked (handshake_completed b ∷ es) = asked es

-- One close and at most one cancellation for a set flag, none for a clear one.
pub record IsOnce (s : Socket) : Type 0 where
  pub one_close : total close_count s.calls ≡ number s.closed
  pub one_cancel : total cancel_count s.calls ≤ number s.closed

call-IsOnce :
    (c : Call) (s : Socket) → close_count c ≡ 0 → cancel_count c ≡ 0 → IsOnce s → IsOnce (call c s)
unfolding call
call-IsOnce c s n m h =
    omega (arith, h, total-append close_count s.calls c, total-append cancel_count s.calls c)

ws_close-IsOnce : (s : Socket) → IsOnce s → IsOnce (ws_close s)
unfolding ws_close is_closed cancel close_web_socket call
ws_close-IsOnce s h = ground (
  arith,
  total-append close_count s.calls cancels,
  total-append close_count s.calls closes,
  total-append close_count (s.calls ++ (cancels ∷ [])) closes,
  total-append cancel_count s.calls cancels,
  total-append cancel_count s.calls closes,
  total-append cancel_count (s.calls ++ (cancels ∷ [])) closes,
)

wss_close-IsOnce : (s : Socket) → IsOnce s → IsOnce (wss_close s)
unfolding wss_close ws_close is_closed close_ssl
wss_close-IsOnce s h = elim (Bool-cases s.closed) [
  | inl was ↦ rw was (rw was at (ws_close-IsOnce s h))
  | inr open_yet ↦
      rw open_yet (call-IsOnce shuts_down _ refl refl (rw open_yet at (ws_close-IsOnce s h)))
]

ws_handle-IsOnce : (e : Event) (s : Socket) → IsOnce s → IsOnce (ws_handle e s)
unfolding ws_handle
ws_handle-IsOnce close s h = ws_close-IsOnce s h
ws_handle-IsOnce accept s h = call-IsOnce accepts s refl refl h
ws_handle-IsOnce close_completed s h = ground arith
ws_handle-IsOnce drop s h = ground arith
ws_handle-IsOnce (read n) s h = call-IsOnce (reads n) s refl refl h
ws_handle-IsOnce (write n) s h = call-IsOnce (writes n) s refl refl h
ws_handle-IsOnce (handshake_completed b) s h = h

wss_handle-IsOnce : (e : Event) (s : Socket) → IsOnce s → IsOnce (wss_handle e s)
unfolding wss_handle close_ssl
wss_handle-IsOnce close s h = wss_close-IsOnce s h
wss_handle-IsOnce accept s h = call-IsOnce handshakes s refl refl h
wss_handle-IsOnce close_completed s h =
    ground (arith, call-IsOnce shuts_down (record s { closing = false }))
wss_handle-IsOnce drop s h = ground arith
wss_handle-IsOnce (read n) s h = call-IsOnce (reads n) s refl refl h
wss_handle-IsOnce (write n) s h = call-IsOnce (writes n) s refl refl h
wss_handle-IsOnce (handshake_completed b) s h = ground (arith, call-IsOnce accepts s)

-- A TLS shutdown was called, and a second is called or due, exactly after the close.
abbrev IsShut : Socket → Type 0
IsShut s = total shut_count s.calls + number s.closing ≡ 2 * number s.closed

call-IsShut : (c : Call) (s : Socket) → shut_count c ≡ 0 → IsShut s → IsShut (call c s)
unfolding call
call-IsShut c s n h = omega (arith, total-append shut_count s.calls c)

wss_close-IsShut : (s : Socket) → IsShut s → IsShut (wss_close s)
unfolding wss_close is_closed cancel close_web_socket close_ssl call
wss_close-IsShut s h = ground (
  arith,
  total-append shut_count s.calls cancels,
  total-append shut_count s.calls closes,
  total-append shut_count (s.calls ++ (cancels ∷ [])) closes,
  total-append shut_count (s.calls ++ (closes ∷ [])) shuts_down,
  total-append shut_count ((s.calls ++ (cancels ∷ [])) ++ (closes ∷ [])) shuts_down,
)

wss_handle-IsShut : (e : Event) (s : Socket) → IsShut s → IsShut (wss_handle e s)
unfolding wss_handle close_ssl call
wss_handle-IsShut close s h = wss_close-IsShut s h
wss_handle-IsShut accept s h = call-IsShut handshakes s refl h
wss_handle-IsShut close_completed s h = ground (arith, total-append shut_count s.calls shuts_down)
wss_handle-IsShut drop s h = h
wss_handle-IsShut (read n) s h = call-IsShut (reads n) s refl h
wss_handle-IsShut (write n) s h = call-IsShut (writes n) s refl h
wss_handle-IsShut (handshake_completed b) s h =
    ground (arith, total-append shut_count s.calls accepts)

ws_handle-closed :
    (e : Event) (es : List Event) (s : Socket)
    → (ws_handle e s).closed || asked es ≡ s.closed || asked (e ∷ es)
unfolding ws_handle ws_close is_closed cancel close_web_socket call
ws_handle-closed e es s = ground arith

wss_handle-closed :
    (e : Event) (es : List Event) (s : Socket)
    → (wss_handle e s).closed || asked es ≡ s.closed || asked (e ∷ es)
unfolding wss_handle wss_close is_closed cancel close_web_socket close_ssl call
wss_handle-closed e es s = ground arith

abbrev WsKept : List Event → Socket → Type 0
WsKept es s = IsOnce (ws_run es s) × ((ws_run es s).closed ≡ s.closed || asked es)

ws_run-Kept : (es : List Event) (s : Socket) → IsOnce s → WsKept es s
unfolding ws_run
ws_run-Kept [] s h = (h, ground arith)
ws_run-Kept (e ∷ es) s h =
    let (once, same) = ws_run-Kept es (ws_handle e s) (ws_handle-IsOnce e s h) in
    (once, same ∙ ws_handle-closed e es s)

abbrev WssKept : List Event → Socket → Type 0
WssKept es s =
    IsOnce (wss_run es s) × IsShut (wss_run es s) × ((wss_run es s).closed ≡ s.closed || asked es)

wss_run-Kept : (es : List Event) (s : Socket) → IsOnce s → IsShut s → WssKept es s
unfolding wss_run
wss_run-Kept [] s h k = (h, k, ground arith)
wss_run-Kept (e ∷ es) s h k =
    let (once, shut, same) =
      wss_run-Kept es (wss_handle e s) (wss_handle-IsOnce e s h) (wss_handle-IsShut e s k) in
    (once, shut, same ∙ wss_handle-closed e es s)

-- Over any events on a plain socket, `async_close` is called once if the session asked for a close,
-- however often, and never otherwise; and the operations are cancelled at most once.
pub ws_closes_once :
    (es : List Event)
    → let s = ws_run es new_socket in
      (total close_count s.calls ≡ number (asked es))
      × (total cancel_count s.calls ≤ number (asked es))
unfolding new_socket
ws_closes_once es =
    let (once, same) = ws_run-Kept es new_socket (omega arith) in
    let n = ap number same in omega (arith, once, n)

-- Over any events on a TLS socket, `async_close` is called once if the session asked for a close,
-- however often, and never otherwise; the operations are cancelled at most once; and the TLS layer
-- is shut down twice for the one close, the second time when the close has completed.
pub wss_closes_once :
    (es : List Event)
    → let s = wss_run es new_socket in
      (total close_count s.calls ≡ number (asked es))
      × (total cancel_count s.calls ≤ number (asked es))
      × (total shut_count s.calls + number s.closing ≡ 2 * number (asked es))
unfolding new_socket
wss_closes_once es =
    let (once, shut, same) = wss_run-Kept es new_socket (omega arith) refl in
    let n = ap number same in omega (arith, once, shut, n)
