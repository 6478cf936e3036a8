-- ===== src/Tests/Threads.antt =====
-- Sessions and the server, as in net/session and net/server.
use endless_peak_server.Shared.{ℕ, ◌≡◌, refl, true, List, [], ◌∷◌, ◌++◌, none}
use endless_peak_server.Queue.{new_queue, push, try_pop, empty}
use endless_peak_server.Packet.{opcode_packet, jump}
use endless_peak_server.Session.{connected, Session, new_session, is_connected}
use endless_peak_server.Sending.{Action, calls, runs, idle, System, advance, step, run, start}
use endless_peak_server.Sending.Threads.{owners, all_carried}
use endless_peak_server.Sending.Exclusive.{write_exclusive}
use endless_peak_server.Sending.Order.{written_in_order}
use endless_peak_server.Sending.Stall.{
  IsStalled, stall_schedule, IsStalled-forever, stall_reachable,
}
use endless_peak_server.World.{ServerPacket, rpc, rpc_others}
use endless_peak_server.Server.{Server, find, send_others, deliver}
use endless_peak_server.Reader.Frames.{frames}
use endless_peak_server.Server.Receiving.{receive_all, inputs_from, receive_all-frames}
use endless_peak_server.Shared.{flatten}
use endless_peak_server.Tests.Wire.{two_packets, two_packets-Fits}
use endless_peak_server.Server.Delivery.{Delivered, deliver_lem}

-- Two threads send at once; the second finds the flag set.
abbrev contended : List (ℕ × Action)
contended =
    (0, calls (1 ∷ []))
    ∷ (1, calls (2 ∷ []))
    ∷ (0, runs)
    ∷ (1, runs)
    ∷ (0, runs)
    ∷ (0, runs)
    ∷ (0, runs)
    ∷ (1, runs)
    ∷ (1, runs)
    ∷ (1, runs)
    ∷ (0, runs)
    ∷ []

write_exclusive_example :
    ((run contended (start 2)).memory.in_flight ≡ none)
    × (owners (run contended (start 2)).threads ≡ 1)
    × ((run contended (start 2)).memory.sending ≡ true)
unfolding run step advance start push try_pop empty is_connected
write_exclusive_example = write_exclusive 2 contended 0 (1 ∷ []) refl

written_in_order_example :
    (run contended (start 2)).memory.written
      ++ (all_carried (run contended (start 2)).threads
          ++ (run contended (start 2)).memory.out_queue.items)
    ≡ (run contended (start 2)).memory.pushed
written_in_order_example = written_in_order 2 contended

stall_reachable_example :
    let s = run (stall_schedule (1 ∷ []) (2 ∷ [])) (start 2) in
    IsStalled s
    × (s.memory.state ≡ connected)
    × (s.threads ≡ idle ∷ idle ∷ [])
    × (s.memory.written ≡ (1 ∷ []) ∷ (2 ∷ []) ∷ [])
stall_reachable_example = stall_reachable (1 ∷ []) (2 ∷ [])

abbrev stalled : System
stalled = run (stall_schedule (1 ∷ []) (2 ∷ [])) (start 2)

IsStalled-forever_example :
    IsStalled (run contended stalled)
    × ((run contended stalled).memory.written ≡ stalled.memory.written)
IsStalled-forever_example =
    IsStalled-forever contended stalled (stall_reachable (1 ∷ []) (2 ∷ [])).0

-- Sessions 1 and 2 are open, and a jump waits for session 3 only.
abbrev open_session : ℕ → Session
open_session id = record (new_session id) { state = connected }

abbrev jumps : ServerPacket
jumps = record { packet = opcode_packet jump; id = 3; type = rpc }

abbrev two_sessions : Server
two_sessions = record {
  new_session_id = 3;
  sessions = (1, open_session 1) ∷ (2, open_session 2) ∷ [];
  in_queue = new_queue;
  out_queue = record { items = jumps ∷ [] };
}

abbrev to_others : ServerPacket
to_others = record { packet = opcode_packet jump; id = 1; type = rpc_others }

deliver_lem_example :
    Delivered to_others.type to_others.id
      (5 ∷ [])
      2
      (find 2 two_sessions.sessions)
      (find 2 (send_others 1 (5 ∷ []) two_sessions.sessions))
unfolding deliver
deliver_lem_example =
    deliver_lem to_others (5 ∷ []) two_sessions.sessions
      (send_others 1 (5 ∷ []) two_sessions.sessions) 2 refl

receive_all-frames_example :
    (receive_all two_packets (new_session 3) two_sessions).1.in_queue.items
    ≡ two_sessions.in_queue.items ++ inputs_from (new_session 3).id (frames (flatten two_packets))
unfolding new_session
receive_all-frames_example =
    receive_all-frames two_packets (new_session 3) two_sessions refl two_packets-Fits
