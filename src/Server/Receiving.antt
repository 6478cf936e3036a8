-- ===== src/Server/Receiving.antt =====
-- From the bytes of a connection to the packets that the world finds in its queue.
use endless_peak_server.Shared.{
  ℕ, ◌≡◌, refl, sym, ap, ◌∙◌, List, [], ◌∷◌, ◌++◌, Option, none, some, append_assoc, append-nil,
  option_list, flatten, Option-cases, inl, inr,
}
use endless_peak_server.Queue.{push}
use endless_peak_server.Packet.{NetPacket}
use endless_peak_server.Reader.{new_reader, on_read, read_all}
use endless_peak_server.Reader.Frames.{frames}
use endless_peak_server.Reader.Framing.{Fits, read_all_framing}
use endless_peak_server.Session.{Session}
use endless_peak_server.World.{ServerPacket, broadcast}
use endless_peak_server.Server.{Server, find, push_packet, received, stored, store, on_received}

-- One read after the other on one session.
unfoldable pub receive_all : List (List ℕ) → Session → Server → Session × Server
receive_all [] session server = (session, server)
receive_all (chunk ∷ chunks) session server =
    let (session', server') = on_received chunk session server in
    receive_all chunks session' server'

-- The packets under the session's identifier.
abbrev pub inputs_from : ℕ → List NetPacket → List ServerPacket
inputs_from id [] = []
inputs_from id (p ∷ ps) = record { packet = p; id = id; type = broadcast } ∷ inputs_from id ps

inputs_from-append :
    (id : ℕ) (o : Option NetPacket) (ps : List NetPacket)
    → inputs_from id (option_list o ++ ps) ≡ inputs_from id (option_list o) ++ inputs_from id ps
inputs_from-append id none ps = refl
inputs_from-append id (some p) ps = refl

pub received_items :
    (id : ℕ) (o : Option NetPacket) (server : Server)
    → (received id o server).in_queue.items
      ≡ server.in_queue.items ++ inputs_from id (option_list o)
unfolding received push_packet push
received_items id none server = sym (append-nil server.in_queue.items)
received_items id (some p) server = refl

pub store_items :
    (session : Session) (server : Server)
    → (store session server).in_queue.items ≡ server.in_queue.items
unfolding store
store_items session server = elim (Option-cases (find session.id server.sessions)) [
  | inl e ↦ rw (e, stored)
  | inr (s, e) ↦ rw (e, stored)
]

receive_all-read_all :
    (chunks : List (List ℕ)) (session : Session) (server : Server)
    → (receive_all chunks session server).1.in_queue.items
      ≡ server.in_queue.items ++ inputs_from session.id (read_all chunks session.reader).0
unfolding receive_all on_received read_all
receive_all-read_all [] session server = sym (append-nil server.in_queue.items)
receive_all-read_all (chunk ∷ chunks) session server =
    let (o, reader) = on_read chunk session.reader.reading session.reader.handler in
    let session' : Session = record session { reader = reader } in
    let server' : Server = received session.id o (store session' server) in
    let later = (read_all chunks reader).0 in
    let queued : server'.in_queue.items
        ≡ server.in_queue.items ++ inputs_from session.id (option_list o) =
      received_items session.id o (store session' server)
      ∙ ap (λ xs. xs ++ inputs_from session.id (option_list o)) (store_items session' server) in
    receive_all-read_all chunks session' server'
    ∙ ap (λ xs. xs ++ inputs_from session.id later) queued
    ∙ append_assoc server.in_queue.items (inputs_from session.id (option_list o))
        (inputs_from session.id later)
    ∙ ap (λ xs. server.in_queue.items ++ xs) (sym (inputs_from-append session.id o later))

-- However the bytes of a new connection are cut into reads, none longer than asked for and each of
-- bytes below 256, the server's queue for the world gets the frames of the stream, in order, under
-- the session's identifier, behind what it held.
pub receive_all-frames :
    (chunks : List (List ℕ)) (session : Session) (server : Server)
    → session.reader ≡ new_reader
    → Fits chunks new_reader
    → (receive_all chunks session server).1.in_queue.items
      ≡ server.in_queue.items ++ inputs_from session.id (frames (flatten chunks))
receive_all-frames chunks session server fresh fits =
    receive_all-read_all chunks session server
    ∙ ap (λ r. server.in_queue.items ++ inputs_from session.id (read_all chunks r).0) fresh
    ∙ ap (λ ps. server.in_queue.items ++ inputs_from session.id ps) (read_all_framing chunks fits)
