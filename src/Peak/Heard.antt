-- ===== src/Peak/Heard.antt =====
-- What the handlers of net and the rounds of `Server::Sender` do to the queue of the world, next to
-- the map of sessions.
use endless_peak_server.Shared.{
  ℕ, ◌≡◌, refl, sym, ap, ◌∙◌, subst, ◌⊎◌, inl, inr, Bool, true, false, ◌==◌, ◌&&◌, not, Bool-cases,
  Option-cases, List, [], ◌∷◌, ◌++◌, Option, none, some, arith, append-nil, option_list,
}
use endless_peak_server.Queue.{TsQueue, push}
use endless_peak_server.Bytes.{swap_endian, to_bytes, of_bytes}
use endless_peak_server.Packet.{
  NetPacket, Opcodes, create_player, remove_player, to_opcode, to_uint16, get_head_opcode,
  opcode_packet,
}
use endless_peak_server.Reader.{on_read}
use endless_peak_server.Session.{Session, on_written}
use endless_peak_server.World.{ServerPacket, broadcast}
use endless_peak_server.World.Inputs.{opcode_of}
use endless_peak_server.World.Protocol.{Ids, Follows, next_ids, ids_after, with_id, without_id}
use endless_peak_server.Server.{
  Server, find, accept, erase, store, push_packet, process_state, close_session, on_error,
  on_accepted, on_received, on_sent, sender_round,
}
use endless_peak_server.Server.Sessions.{
  created, removed, on_accepted_lem, find-erase, find-erase_ne,
}
use endless_peak_server.Server.Receiving.{received_items, store_items, inputs_from}
use endless_peak_server.Server.Kept.{
  is_registered, registered, registered-store, received_sessions, sender_round_kept,
}
use endless_peak_server.Peak.Polite.{is_removal, fair}

abbrev Fine : Ids → ServerPacket → Type 0
Fine known packet = (opcode_of packet ≡ some create_player) ⊎ (known packet.id ≡ true)

ids_after-append :
    (known : Ids) (xs : List ServerPacket) (x : ServerPacket)
    → ids_after known (xs ++ (x ∷ [])) ≡ next_ids (opcode_of x) x.id (ids_after known xs)
ids_after-append known [] x = refl
ids_after-append known (y ∷ xs) x = ids_after-append (next_ids (opcode_of y) y.id known) xs x

Follows-extend :
    (known : Ids) (xs : List ServerPacket) (x : ServerPacket)
    → Follows known xs
    → Fine (ids_after known xs) x
    → Follows known (xs ++ (x ∷ []))
Follows-extend known [] x f fine = (fine, tt)
Follows-extend known (y ∷ xs) x (first, rest) fine =
    (first, Follows-extend (next_ids (opcode_of y) y.id known) xs x rest fine)

-- The inputs that wait keep to the protocol, and after them the players are the sessions in the map.
pub record Heard (known : Ids) (server : Server) : Type 0 where
  pub follows : Follows known server.in_queue.items
  pub expects : (j : ℕ) → ids_after known server.in_queue.items j ≡ registered j server

-- Nothing queued, and the same sessions.
Heard-same :
    (known : Ids) (v v' : Server)
    → Heard known v
    → v'.in_queue.items ≡ v.in_queue.items
    → ((j : ℕ) → registered j v' ≡ registered j v)
    → Heard known v'
Heard-same known v v' h same kept = record {
  follows = rw same h.follows;
  expects = λ j. rw same (h.expects j) ∙ sym (kept j);
}

Heard-push :
    (known : Ids) (v v' : Server) (x : ServerPacket)
    → Heard known v
    → v'.in_queue.items ≡ v.in_queue.items ++ (x ∷ [])
    → Fine (ids_after known v.in_queue.items) x
    → ((j : ℕ) → next_ids (opcode_of x) x.id (ids_after known v.in_queue.items) j ≡ registered j v')
    → Heard known v'
Heard-push known v v' x h queued fine later = record {
  follows = rw queued (Follows-extend known v.in_queue.items x h.follows fine);
  expects = λ j. rw (queued, ids_after-append known v.in_queue.items x) (later j);
}

created-opcode : (id : ℕ) → opcode_of (created id) ≡ some create_player
unfolding to_opcode get_head_opcode opcode_packet to_uint16 swap_endian of_bytes to_bytes
created-opcode id = refl

removed-opcode : (id : ℕ) → opcode_of (removed id) ≡ some remove_player
unfolding to_opcode get_head_opcode opcode_packet to_uint16 swap_endian of_bytes to_bytes
removed-opcode id = refl

with_other : (id j : ℕ) (known : Ids) → (id == j) ≡ false → with_id id known j ≡ known j
with_other id j known other = ground (arith, other)

pub on_accepted-Heard :
    (known : Ids) (session : Session) (server : Server)
    → Heard known server
    → Heard known (on_accepted session server).1
unfolding is_registered
on_accepted-Heard known session server h =
    let (_, _, queued) = on_accepted_lem session server 0 in
    Heard-push known server (on_accepted session server).1 (created session.id) h queued
      (inl (created-opcode session.id))
      λ j.
        let (_, found, _) = on_accepted_lem session server j in
        rw (created-opcode session.id, found)
          (elim (Bool-cases (session.id == j)) [
            | inl own ↦ rw own (ground (arith, own))
            | inr other ↦ rw other (
                with_other session.id j (ids_after known server.in_queue.items) other ∙ h.expects j)
          ])

erased :
    (id j : ℕ) (known : Ids) (sessions : List (ℕ × Session))
    → known j ≡ is_registered (find j sessions)
    → without_id id known j ≡ is_registered (find j (erase id sessions))
unfolding is_registered
erased id j known sessions k = elim (Bool-cases (id == j)) [
  | inl own ↦
      let same : id ≡ j = ground (arith, own) in
      let gone : is_registered (find j (erase id sessions)) ≡ false =
        rw (← same, find-erase id sessions) refl in
      ground (arith, own, gone)
  | inr other ↦ rw (find-erase_ne id j sessions other) (ground (arith, other, k))
]

pub on_error-Heard :
    (known : Ids) (session : Session) (server : Server)
    → Heard known server
    → Heard known (on_error session server).1
unfolding is_registered on_error process_state close_session push_packet push
on_error-Heard known session server h = elim (Option-cases (find session.id server.sessions)) [
  | inl e ↦ rw e h
  | inr (s, e) ↦ rw e (
      Heard-push known server _ (removed session.id) h refl (inr (h.expects session.id ∙ rw e refl))
        λ j. rw (removed-opcode session.id) (
          erased session.id j (ids_after known server.in_queue.items) server.sessions
            (h.expects j)))
]

-- An input that removes nobody, under an identifier that is known.
next_kept :
    (o : Option Opcodes) (id j : ℕ) (known : Ids)
    → is_removal o ≡ false
    → known id ≡ true
    → next_ids o id known j ≡ known j
unfolding is_removal
next_kept none id j known n k = refl
next_kept (some create_player) id j known n k = elim (Bool-cases (j == id)) [
  | inl own ↦
      let same : id ≡ j = ground (arith, own) in rw own (sym (subst (λ i. known i ≡ true) same k))
  | inr other ↦ rw other refl
]
next_kept (some remove_player) id j known n k = absurd (cc n)
next_kept (some _) id j known n k = refl

received_packet-Heard :
    (known : Ids) (id : ℕ) (o : Option NetPacket) (server v : Server)
    → Heard known server
    → fair (registered id server) o ≡ true
    → v.in_queue.items ≡ server.in_queue.items ++ inputs_from id (option_list o)
    → ((j : ℕ) → registered j v ≡ registered j server)
    → Heard known v
unfolding fair
received_packet-Heard known id none server v h f queued same =
    Heard-same known server v h (queued ∙ append-nil server.in_queue.items) same
received_packet-Heard known id (some packet) server v h f queued same =
    let (here, stays) =
      both (registered id server) (is_removal (to_opcode (get_head_opcode packet))) f in
    Heard-push known server v (record { packet = packet; id = id; type = broadcast }) h queued
      (inr (h.expects id ∙ here))
      (λ j.
        next_kept (to_opcode (get_head_opcode packet)) id j (ids_after known server.in_queue.items)
          stays (h.expects id ∙ here)
        ∙ h.expects j
        ∙ sym (same j))
  where
    both : (a b : Bool) → (a && not b) ≡ true → (a ≡ true) × (b ≡ false)
    both a b e = ground arith

pub on_received-Heard :
    (known : Ids) (chunk : List ℕ) (session : Session) (server : Server)
    → Heard known server
    → fair
        (registered session.id server)
        (on_read chunk session.reader.reading session.reader.handler).0
      ≡ true
    → Heard known (on_received chunk session server).1
unfolding on_received
on_received-Heard known chunk session server h f =
    let (o, reader) = on_read chunk session.reader.reading session.reader.handler in
    let session' : Session = record session { reader = reader } in
    let stored = store session' server in
    received_packet-Heard known session.id o server (on_received chunk session server).1 h f
      (received_items session.id o stored
        ∙ ap (λ xs. xs ++ inputs_from session.id (option_list o)) (store_items session' server))
      (λ j.
        ap (λ sessions. is_registered (find j sessions)) (received_sessions session.id o stored)
        ∙ registered-store session' server j)

pub on_sent-Heard :
    (known : Ids) (session : Session) (server : Server)
    → Heard known server
    → Heard known (on_sent session server).1
unfolding on_sent
on_sent-Heard known session server h =
    Heard-same known server (on_sent session server).1 h (store_items (on_written session) server)
      (registered-store (on_written session) server)

pub sender_round-Heard :
    (known : Ids) (server server' : Server)
    → Heard known server
    → sender_round server ≡ some server'
    → Heard known server'
sender_round-Heard known server server' h e =
    Heard-same known server server' h
      (ap (λ (q : TsQueue ServerPacket). q.items) (sender_round_kept server server' 0 e).0)
      (λ j. (sender_round_kept server server' j e).1)

pub accept-Heard :
    (known : Ids) (server : Server) → Heard known server → Heard known (accept server).1
unfolding accept
accept-Heard known server h = Heard-same known server (accept server).1 h refl (λ j. refl)
