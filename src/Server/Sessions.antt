-- ===== src/Server/Sessions.antt =====
-- What the server tells the world of a session, in net/server/server.cpp and net/session/session.cpp.
use endless_peak_server.Shared.{
  ℕ, ◌≡◌, refl, sym, ap, ◌∙◌, inl, inr, Bool-cases, false, if◌then◌else◌, ◌==◌, List, [], ◌∷◌, ◌++◌,
  none, some, arith,
}
use endless_peak_server.Queue.{push}
use endless_peak_server.Packet.{opcode_packet, create_player, remove_player}
use endless_peak_server.Session.{connected, disconnected, Session}
use endless_peak_server.World.{ServerPacket, broadcast}
use endless_peak_server.Server.{
  Server, find, assign, erase, add_session, close_session, push_packet, process_state, on_accepted,
  on_error,
}

abbrev pub created : ℕ → ServerPacket
created id = record { packet = opcode_packet create_player; id = id; type = broadcast }

abbrev pub removed : ℕ → ServerPacket
removed id = record { packet = opcode_packet remove_player; id = id; type = broadcast }

pub find-erase : (id : ℕ) (sessions : List (ℕ × Session)) → find id (erase id sessions) ≡ none
unfolding find erase
find-erase id [] = refl
find-erase id ((k, s) ∷ rest) = ground (arith, find-erase id rest)

pub find-erase_ne :
    (id j : ℕ) (sessions : List (ℕ × Session))
    → (id == j) ≡ false
    → find j (erase id sessions) ≡ find j sessions
unfolding find erase
find-erase_ne id j [] h = refl
find-erase_ne id j ((k, s) ∷ rest) h = ground (arith, find-erase_ne id j rest h)

pub find-assign :
    (id j : ℕ) (s : Session) (sessions : List (ℕ × Session))
    → find j (assign id s sessions) ≡ (if id == j then some s else find j sessions)
unfolding find assign
find-assign id j s [] = refl
find-assign id j s ((k, t) ∷ rest) = ground (arith, find-assign id j s rest)

-- A finished handshake enters the session under its identifier, leaves the other sessions, and
-- queues one `CreatePlayer` for it behind what is queued.
pub on_accepted_lem :
    (session : Session) (server : Server) (j : ℕ)
    → let (session', server') = on_accepted session server in
      (session' ≡ record session { state = connected })
      × (find j server'.sessions ≡ (
          if session.id == j
          then some (record session { state = connected })
          else find j server.sessions))
      × (server'.in_queue.items ≡ server.in_queue.items ++ (created session.id ∷ []))
unfolding on_accepted process_state add_session push_packet push
on_accepted_lem session server j =
    (refl, find-assign session.id j (record session { state = connected }) server.sessions, refl)

-- The first failure of a handler of a registered session ends the session: the session is out of
-- the map, the others stay, exactly one `RemovePlayer` is queued, and a second failure changes
-- nothing more in the server.
pub on_error_lem :
    (session registered : Session) (server : Server) (j : ℕ)
    → find session.id server.sessions ≡ some registered
    → (session.id == j) ≡ false
    → let (session', server') = on_error session server in
      (session'.state ≡ disconnected)
      × (find session.id server'.sessions ≡ none)
      × (find j server'.sessions ≡ find j server.sessions)
      × (server'.in_queue.items ≡ server.in_queue.items ++ (removed session.id ∷ []))
      × ((on_error session' server').1 ≡ server')
unfolding on_error process_state close_session push_packet push
on_error_lem session registered server j e h = rw e (
  refl,
  find-erase session.id server.sessions,
  find-erase_ne session.id j server.sessions h,
  refl,
  rw (find-erase session.id server.sessions),
)

-- The entries after the first failure of a registered session, and the queues.
pub on_error_queues :
    (session t : Session) (server : Server) (j : ℕ)
    → find session.id server.sessions ≡ some t
    → let server' = (on_error session server).1 in
      (server'.out_queue ≡ server.out_queue)
      × (server'.in_queue.items ≡ server.in_queue.items ++ (removed session.id ∷ []))
      × (find j server'.sessions ≡ (if session.id == j then none else find j server.sessions))
unfolding on_error process_state close_session push_packet push
on_error_queues session t server j e = rw e (
  refl,
  refl,
  elim (Bool-cases (session.id == j)) [
    | inl own ↦
        let same : session.id ≡ j = ground (arith, own) in
        rw own (
          ap (λ k. find k (erase session.id server.sessions)) (sym same)
          ∙ find-erase session.id server.sessions)
    | inr other ↦ rw other (find-erase_ne session.id j server.sessions other)
  ],
)
