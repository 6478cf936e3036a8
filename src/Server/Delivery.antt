-- ===== src/Server/Delivery.antt =====
-- Whom `Server::Sender` sends a packet to, and when it faults.
use mathlib.Core.Option.{some-injective}
use endless_peak_server.Shared.{
  ℕ, ◌≡◌, refl, ◌↔◌, Bool, true, not, if◌then◌else◌, ◌==◌, List, [], ◌∷◌, Option, none, some, ◌>>=◌,
  subst, false, arith, >>=-eq-some, some-ne-none, inl, inr, sym, ◌∙◌,
}
use endless_peak_server.Queue.Fifo.{try_pop_cases, wait_and_pop_nil, wait_and_pop_cons}
use endless_peak_server.Packet.{make_buffer}
use endless_peak_server.Session.{SendBuffer, Session, push_to_send}
use endless_peak_server.Session.Gets.{Gets, push_to_send-Gets}
use endless_peak_server.World.{ServerPacket, PacketType, broadcast, rpc, rpc_others}
use endless_peak_server.Server.{
  Server, find, assign, send_all, send_others, deliver, sender_round, dispatched,
}

-- The sessions that a packet is for.
abbrev pub addressed : PacketType → ℕ → ℕ → Bool
addressed rpc id j = id == j
addressed broadcast id j = true
addressed rpc_others id j = not (id == j)

abbrev given : PacketType → ℕ → SendBuffer → ℕ → Session → Session
given type id buf j s = if addressed type id j then push_to_send buf s else s

abbrev pub given? : PacketType → ℕ → SendBuffer → ℕ → Option Session → Option Session
given? type id buf j none = none
given? type id buf j (some s) = some (given type id buf j s)

find-send_all :
    (buf : SendBuffer) (id j : ℕ) (sessions : List (ℕ × Session))
    → find j (send_all buf sessions) ≡ given? broadcast id buf j (find j sessions)
unfolding find send_all
find-send_all buf id j [] = refl
find-send_all buf id j ((k, s) ∷ rest) = ground (arith, find-send_all buf id j rest)

find-send_others :
    (buf : SendBuffer) (id j : ℕ) (sessions : List (ℕ × Session))
    → find j (send_others id buf sessions) ≡ given? rpc_others id buf j (find j sessions)
unfolding find send_others
find-send_others buf id j [] = refl
find-send_others buf id j ((k, s) ∷ rest) = ground (arith, find-send_others buf id j rest)

find-assign :
    (buf : SendBuffer) (id j : ℕ) (s : Session) (sessions : List (ℕ × Session))
    → find id sessions ≡ some s
    → find j (assign id (push_to_send buf s) sessions) ≡ given? rpc id buf j (find j sessions)
unfolding find assign
find-assign buf id j s [] e = cc
find-assign buf id j s ((k, t) ∷ rest) e = ground (arith, find-assign buf id j s rest)

pub find-deliver :
    (packet : ServerPacket) (buf : SendBuffer) (sessions sessions' : List (ℕ × Session)) (j : ℕ)
    → deliver packet buf sessions ≡ some sessions'
    → find j sessions' ≡ given? packet.type packet.id buf j (find j sessions)
unfolding deliver
find-deliver packet buf sessions sessions' j e = by_type packet.type refl
  where
    by_type :
        (type : PacketType)
        → packet.type ≡ type
        → find j sessions' ≡ given? packet.type packet.id buf j (find j sessions)
    by_type broadcast t =
        let out = some-injective _ _ (rw (t, deliver) at e) in
        rw (t, ← out) (find-send_all buf packet.id j sessions)
    by_type rpc_others t =
        let out = some-injective _ _ (rw (t, deliver) at e) in
        rw (t, ← out) (find-send_others buf packet.id j sessions)
    by_type rpc t =
        let (s, found, e') = >>=-eq-some (find packet.id sessions) _ (rw (t, deliver) at e) in
        let out = some-injective _ _ e' in
        rw (t, ← out) (find-assign buf packet.id j s sessions found)

abbrev pub Reached : Bool → SendBuffer → Session → Session → Type 0
Reached true buf s t = Gets buf s t
Reached false buf s t = t ≡ s

-- What a delivery makes of the entry of a session: none stays none, a session that is addressed
-- gets the buffer, and another one stays.
abbrev pub Delivered : PacketType → ℕ → SendBuffer → ℕ → Option Session → Option Session → Type 0
Delivered type id buf j none o = o ≡ none
Delivered type id buf j (some s) o =
    (t : Session) × (o ≡ some t) × Reached (addressed type id j) buf s t

given-Reached :
    (here : Bool) (buf : SendBuffer) (s : Session)
    → Reached here buf s (if here then push_to_send buf s else s)
given-Reached true buf s = push_to_send-Gets buf s
given-Reached false buf s = refl

given?-Delivered :
    (type : PacketType) (id : ℕ) (buf : SendBuffer) (j : ℕ) (o : Option Session)
    → Delivered type id buf j o (given? type id buf j o)
given?-Delivered type id buf j none = refl
given?-Delivered type id buf j (some s) =
    (given type id buf j s, refl, given-Reached (addressed type id j) buf s)

-- When the delivery of a packet of any type does not fault, every registered session that it
-- addresses gets the buffer, and every other one stays as it is; no session comes or goes. To get
-- it means, for a session that is not disconnected and has no write under way, that the first of
-- its waiting buffers and this one is handed to a write, and the rest waits in order; and for any
-- other session, that the buffer waits behind those that do. Nothing else of the session changes.
pub deliver_lem :
    (packet : ServerPacket) (buf : SendBuffer) (sessions sessions' : List (ℕ × Session)) (j : ℕ)
    → deliver packet buf sessions ≡ some sessions'
    → Delivered packet.type packet.id buf j (find j sessions) (find j sessions')
deliver_lem packet buf sessions sessions' j e =
    subst (Delivered packet.type packet.id buf j (find j sessions))
      (sym (find-deliver packet buf sessions sessions' j e))
      (given?-Delivered packet.type packet.id buf j (find j sessions))

deliver_fault :
    (packet : ServerPacket) (buf : SendBuffer) (sessions : List (ℕ × Session))
    → (deliver packet buf sessions ≡ none)
      ↔ ((packet.type ≡ rpc) × (find packet.id sessions ≡ none))
unfolding deliver
deliver_fault packet buf sessions = ground arith

after_deliver :
    (m : Option (List (ℕ × Session))) (f : List (ℕ × Session) → Server)
    → ((m >>= λ sessions. some (f sessions)) ≡ none) ↔ (m ≡ none)
after_deliver none f = ((λ e. refl), (λ e. refl))
after_deliver (some a) f = ((λ e. cc), (λ e. cc))

-- A round of `Sender` dereferences a null pointer exactly when the packet at the front is meant for
-- one session and that session is not in the map.
pub sender_round_fault :
    (server : Server) (packet : ServerPacket) (rest : List ServerPacket)
    → server.out_queue.items ≡ packet ∷ rest
    → (sender_round server ≡ none) ↔ ((packet.type ≡ rpc) × (find packet.id server.sessions ≡ none))
unfolding sender_round
sender_round_fault server packet rest e =
    let buf = make_buffer packet.packet in
    let (into, from) = deliver_fault packet buf server.sessions in
    let (in2, from2) =
      after_deliver (deliver packet buf server.sessions) (λ (sessions : List (ℕ × Session)).
        record server { sessions = sessions; out_queue = record { items = rest } }) in
    rw (wait_and_pop_cons server.out_queue packet rest e, dispatched)
      ((λ n. into (in2 n)), (λ h. from2 (from h)))

-- The next packet is meant for one session, and that session is not in the map.
abbrev pub Misdelivers : Server → Type 0
Misdelivers server =
    (packet : ServerPacket) × (rest : List ServerPacket) × (server.out_queue.items ≡ packet ∷ rest)
    × (packet.type ≡ rpc)
    × (find packet.id server.sessions ≡ none)

pub sender_round-none : (server : Server) → (sender_round server ≡ none) ↔ Misdelivers server
unfolding sender_round
sender_round-none server = elim (try_pop_cases server.out_queue) [
  | inl (e, _) ↦ (
    (λ n. absurd (some-ne-none server (rw (wait_and_pop_nil server.out_queue e, dispatched) at n))),
    (λ (packet, rest, items, _, _). absurd (cc (sym e ∙ items))),
  )
  | inr (packet, rest, e, _) ↦
      let (into, from) = sender_round_fault server packet rest e in
      (
        (λ n. let (type, missing) = into n in (packet, rest, e, type, missing)),
        (λ (other, others, items, type, missing).
            let same : packet ≡ other = cc (sym e ∙ items) in from (rw same type, rw same missing)),
      )
]
