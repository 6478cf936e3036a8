-- ===== src/Server/Kept.antt =====
-- What becomes of the entries of `sessions_` in the handlers of net/session/session.cpp and in a
-- round of `Server::Sender`.
use mathlib.Core.Option.{some-injective}
use endless_peak_server.Shared.{
  ℕ, ◌≡◌, refl, subst, inl, inr, Bool, true, false, ◌==◌, Bool-cases, Option-cases, List, [], ◌∷◌,
  Option, none, some, arith, >>=-eq-some,
}
use endless_peak_server.Queue.{TsQueue, wait_and_pop}
use endless_peak_server.Packet.{NetPacket, make_buffer}
use endless_peak_server.Session.{Session}
use endless_peak_server.Session.Fields.{SameLife, push_to_send-SameLife}
use endless_peak_server.World.{PacketType, ServerPacket}
use endless_peak_server.Server.{
  Server, find, assign, store, stored, received, push_packet, deliver, sender_round, dispatched,
}
use endless_peak_server.Server.Sessions.{find-assign}
use endless_peak_server.Server.Delivery.{addressed, find-deliver, given?}

unfoldable pub is_registered : Option Session → Bool
is_registered none = false
is_registered (some session) = true

abbrev pub registered : ℕ → Server → Bool
registered j server = is_registered (find j server.sessions)

registered-assign :
    (id j : ℕ) (s registered : Session) (sessions : List (ℕ × Session))
    → find id sessions ≡ some registered
    → is_registered (find j (assign id s sessions)) ≡ is_registered (find j sessions)
unfolding is_registered find assign
registered-assign id j s t [] e = cc
registered-assign id j s t ((k, u) ∷ rest) e = ground (arith, registered-assign id j s t rest)

-- A callback's session is written back without coming or going.
pub registered-store :
    (session : Session) (server : Server) (j : ℕ)
    → registered j (store session server) ≡ registered j server
unfolding store
registered-store session server j = elim (Option-cases (find session.id server.sessions)) [
  | inl e ↦ rw (e, stored) refl
  | inr (s, e) ↦ rw (e, stored) (registered-assign session.id j session s server.sessions e)
]

pub received_sessions :
    (id : ℕ) (o : Option NetPacket) (server : Server)
    → (received id o server).sessions ≡ server.sessions
unfolding received push_packet
received_sessions id none server = refl
received_sessions id (some packet) server = refl

-- Both missing, or both there with the same life.
abbrev pub SameEntry : Option Session → Option Session → Type 0
SameEntry none none = Unit
SameEntry none (some t) = ⊥
SameEntry (some s) none = ⊥
SameEntry (some s) (some t) = SameLife s t

SameEntry-self : (o : Option Session) → SameEntry o o
SameEntry-self none = tt
SameEntry-self (some s) = (refl, refl, refl)

pub SameEntry-registered :
    (o o' : Option Session) → SameEntry o o' → is_registered o' ≡ is_registered o
unfolding is_registered
SameEntry-registered none none e = refl
SameEntry-registered none (some t) e = absurd e
SameEntry-registered (some s) none e = absurd e
SameEntry-registered (some s) (some t) e = refl

given?-SameEntry :
    (type : PacketType) (id : ℕ) (buf : List ℕ) (j : ℕ) (o : Option Session)
    → SameEntry o (given? type id buf j o)
given?-SameEntry type id buf j none = tt
given?-SameEntry type id buf j (some s) = elim (Bool-cases (addressed type id j)) [
  | inl to ↦ rw to (push_to_send-SameLife buf s)
  | inr past ↦ rw past (refl, refl, refl)
]

-- The map keeps its entries and their lives, and the queue of the world stays as it is.
abbrev pub SameSessions : Server → Server → Type 0
SameSessions server server' =
    (server'.in_queue ≡ server.in_queue)
    × (server'.new_session_id ≡ server.new_session_id)
    × ((j : ℕ) → SameEntry (find j server.sessions) (find j server'.sessions))

dispatched-SameSessions :
    (server server' : Server) (o : Option (ServerPacket × TsQueue ServerPacket))
    → dispatched server o ≡ some server'
    → SameSessions server server'
unfolding dispatched
dispatched-SameSessions server server' none e =
    subst (SameSessions server) (some-injective _ _ e)
      (refl, refl, (λ j. SameEntry-self (find j server.sessions)))
dispatched-SameSessions server server' (some (packet, queue)) e =
    let buf = make_buffer packet.packet in
    let (sessions, given, e') = >>=-eq-some (deliver packet buf server.sessions) _ e in
    subst (SameSessions server) (some-injective _ _ e') (
      refl,
      refl,
      (λ j.
          rw (find-deliver packet buf server.sessions sessions j given)
            (given?-SameEntry packet.type packet.id buf j (find j server.sessions))),
    )

pub sender_round-SameSessions :
    (server server' : Server) → sender_round server ≡ some server' → SameSessions server server'
unfolding sender_round
sender_round-SameSessions server server' e =
    dispatched-SameSessions server server' (wait_and_pop server.out_queue) e

pub sender_round_kept :
    (server server' : Server) (j : ℕ)
    → sender_round server ≡ some server'
    → (server'.in_queue ≡ server.in_queue) × (registered j server' ≡ registered j server)
sender_round_kept server server' j e =
    let (queue, _, entries) = sender_round-SameSessions server server' e in
    (queue, SameEntry-registered (find j server.sessions) (find j server'.sessions) (entries j))

abbrev pub written_back : Session → Option Session → Option Session
written_back session none = none
written_back session (some t) = some session

-- The entry of the callback's session, if it has one, becomes that session.
pub find-store :
    (session : Session) (server : Server)
    → find session.id (store session server).sessions
      ≡ written_back session (find session.id server.sessions)
unfolding store
find-store session server = elim (Option-cases (find session.id server.sessions)) [
  | inl e ↦ rw (e, stored) (rw e refl)
  | inr (s, e) ↦
      rw (e, stored, find-assign session.id session.id session server.sessions) (ground arith)
]

pub find-store_ne :
    (session : Session) (server : Server) (j : ℕ)
    → (session.id == j) ≡ false
    → find j (store session server).sessions ≡ find j server.sessions
unfolding store
find-store_ne session server j other = elim (Option-cases (find session.id server.sessions)) [
  | inl e ↦ rw (e, stored) refl
  | inr (s, e) ↦ rw (e, stored, find-assign session.id j session server.sessions, other) refl
]

pub store-new_session_id :
    (session : Session) (server : Server)
    → (store session server).new_session_id ≡ server.new_session_id
unfolding store
store-new_session_id session server = elim (Option-cases (find session.id server.sessions)) [
  | inl e ↦ rw (e, stored) refl
  | inr (s, e) ↦ rw (e, stored) refl
]

pub received-new_session_id :
    (id : ℕ) (o : Option NetPacket) (server : Server)
    → (received id o server).new_session_id ≡ server.new_session_id
unfolding received push_packet
received-new_session_id id none server = refl
received-new_session_id id (some packet) server = refl
