-- ===== src/Session/Fields.antt =====
-- What `Session::PushToSend`, `Session::Send` and its completion handler leave alone.
use endless_peak_server.Shared.{◌≡◌, refl, Option, none, some, false, arith}
use endless_peak_server.Queue.{TsQueue, push, try_pop}
use endless_peak_server.Session.{SendBuffer, Session, send, write_front, push_to_send, on_written}

abbrev pub SameLife : Session → Session → Type 0
SameLife s t = (t.id ≡ s.id) × (t.state ≡ s.state) × (t.closed ≡ s.closed)

write_front-SameLife :
    (s : Session) (o : Option SendBuffer × TsQueue SendBuffer) → SameLife s (write_front s o)
unfolding write_front
write_front-SameLife s (none, queue) = (refl, refl, refl)
write_front-SameLife s (some buf, queue) = (refl, refl, refl)

pub send-SameLife : (s : Session) → SameLife s (send s)
unfolding send
send-SameLife s = ground (arith, write_front-SameLife s (try_pop s.out_queue))

pub push_to_send-SameLife : (buf : SendBuffer) (s : Session) → SameLife s (push_to_send buf s)
unfolding push_to_send
push_to_send-SameLife buf s = send-SameLife (record s { out_queue = push buf s.out_queue })

pub on_written-SameLife : (s : Session) → SameLife s (on_written s)
unfolding on_written
on_written-SameLife s =
    ground (arith, send-SameLife (record s { sending = false; in_flight = none }))
