-- ===== src/Server/Late.antt =====
-- A read that completes after a write of the same session has failed.
use endless_peak_server.Shared.{
  ℕ, ◌≡◌, ◌≢◌, append_assoc, option_list, refl, ap, ◌∙◌, List, [], ◌∷◌, ◌++◌, none, some,
}
use endless_peak_server.Double.{Double}
use endless_peak_server.Queue.{push}
use endless_peak_server.Packet.{
  NetPacket, create_player, remove_player, to_opcode, get_head_opcode, opcode_packet, to_uint16,
}
use endless_peak_server.Bytes.{swap_endian, to_bytes, of_bytes}
use endless_peak_server.Reader.{on_read}
use endless_peak_server.Session.{Session}
use endless_peak_server.World.{World, broadcast}
use endless_peak_server.World.Loop.{tick}
use endless_peak_server.World.Players.{AllPresent}
use endless_peak_server.World.Removed.{removed_input_faults}
use endless_peak_server.Server.{
  Server, find, store, push_packet, close_session, process_state, on_error, on_received,
}
use endless_peak_server.Server.Sessions.{removed}
use endless_peak_server.Server.Receiving.{store_items, received_items, inputs_from}

-- The handlers of both outstanding operations run: the write's with an error, then the read's.
unfoldable pub fail_then_receive : List ℕ → Session → Server → Server
fail_then_receive chunk session server =
    let (session', server') = on_error session server in (on_received chunk session' server').1

on_error_items :
    (session registered : Session) (server : Server)
    → find session.id server.sessions ≡ some registered
    → (on_error session server).1.in_queue.items
      ≡ server.in_queue.items ++ (removed session.id ∷ [])
unfolding on_error process_state close_session push_packet push
on_error_items session registered server e = rw e refl

-- The handler that the packet of a read reaches.
on_received_items :
    (chunk : List ℕ) (session : Session) (server : Server) (packet : NetPacket)
    → (on_read chunk session.reader.reading session.reader.handler).0 ≡ some packet
    → (on_received chunk session server).1.in_queue.items
      ≡ server.in_queue.items
        ++ (record { packet = packet; id = session.id; type = broadcast } ∷ [])
unfolding on_received
on_received_items chunk session server packet r =
    let (o, reader) = on_read chunk session.reader.reading session.reader.handler in
    let session' : Session = record session { reader = reader } in
    received_items session.id o (store session' server)
    ∙ ap (λ x. (store session' server).in_queue.items ++ inputs_from session.id (option_list x)) r
    ∙ ap (λ xs. xs ++ (record { packet = packet; id = session.id; type = broadcast } ∷ []))
        (store_items session' server)

fail_then_receive_items :
    (chunk : List ℕ) (session registered : Session) (server : Server) (packet : NetPacket)
    → find session.id server.sessions ≡ some registered
    → (on_read chunk session.reader.reading session.reader.handler).0 ≡ some packet
    → (fail_then_receive chunk session server).in_queue.items
      ≡ server.in_queue.items
        ++ (removed session.id ∷ record { packet = packet; id = session.id; type = broadcast } ∷ [])
unfolding fail_then_receive on_error process_state
fail_then_receive_items chunk session registered server packet e r =
    let (session', server') = on_error session server in
    on_received_items chunk session' server' packet (unfold on_error process_state in r)
    ∙ ap (λ xs. xs ++ (record { packet = packet; id = session.id; type = broadcast } ∷ []))
        (on_error_items session registered server e)
    ∙ append_assoc server.in_queue.items (removed session.id ∷ []) _

module _ {D : Type 0} ⦃d : Double D⦄ where
  -- A session whose write fails while a read has already completed queues `RemovePlayer` and then
  -- the packet that was read; if this is no `CreatePlayer` or `RemovePlayer` and nothing else is
  -- queued, the world's next tick dereferences a null pointer.
  pub late_input_faults :
      (chunk : List ℕ) (session registered : Session) (server : Server) (packet : NetPacket)
      (dt : D) (w : World D)
      → find session.id server.sessions ≡ some registered
      → server.in_queue.items ≡ []
      → (on_read chunk session.reader.reading session.reader.handler).0 ≡ some packet
      → to_opcode (get_head_opcode packet) ≢ some create_player
      → to_opcode (get_head_opcode packet) ≢ some remove_player
      → AllPresent w.players
      → tick dt (record w { net_in = (fail_then_receive chunk session server).in_queue }) ≡ none
  unfolding to_opcode get_head_opcode opcode_packet to_uint16 swap_endian to_bytes of_bytes
  late_input_faults chunk session registered server packet dt w e empty r c m a =
      removed_input_faults (removed session.id)
        (record { packet = packet; id = session.id; type = broadcast }) dt
        (record w { net_in = (fail_then_receive chunk session server).in_queue }) a
        (fail_then_receive_items chunk session registered server packet e r
          ∙ ap
              (λ xs.
                xs
                ++ (removed session.id
                    ∷ record { packet = packet; id = session.id; type = broadcast }
                    ∷ []))
              empty)
        refl refl c m
