-- ===== src/Peak/Life.antt =====
-- The handlers of net/session/session.cpp on the session that they hold: its state, its socket and
-- its entry in `sessions_`.
use endless_peak_server.Shared.{
  ℕ, ◌≡◌, refl, ap, ◌∙◌, inl, inr, true, false, ◌==◌, Option-cases, List, arith,
}
use endless_peak_server.Reader.{on_read}
use endless_peak_server.Session.{connecting, Session, on_written}
use endless_peak_server.Session.Fields.{SameLife, on_written-SameLife}
use endless_peak_server.Server.{
  Server, find, store, push_packet, add_session, close_session, process_state, on_accepted,
  on_error, on_received, on_sent,
}
use endless_peak_server.Server.Sessions.{on_accepted_lem, find-erase, find-erase_ne}
use endless_peak_server.Server.Kept.{
  received_sessions, find-store, find-store_ne, written_back, store-new_session_id,
  received-new_session_id,
}
use endless_peak_server.Peak.{is_connecting}
use endless_peak_server.Peak.Places.{Left}

-- Only the entry of the session changes, and the session is left in its place.
abbrev pub KeepsPlace : Session → Server → Session × Server → Type 0
KeepsPlace t server (t', server') =
    (t'.id ≡ t.id)
    × (server'.new_session_id ≡ server.new_session_id)
    × ((j : ℕ) → (t.id == j) ≡ false → find j server'.sessions ≡ find j server.sessions)
    × Left t' server'

connecting-Apart :
    (t : Session) (server : Server)
    → is_connecting t ≡ true
    → Left t server
    → (t.state ≡ connecting) × (t.closed ≡ false)
unfolding is_connecting
connecting-Apart t server c (inl (_, (_, state, _))) = absurd (cc (rw state at c))
connecting-Apart t server c (inr (_, (_, inl fresh))) = fresh
connecting-Apart t server c (inr (_, (_, inr (state, _)))) = absurd (cc (rw state at c))

pub on_accepted-KeepsPlace :
    (t : Session) (server : Server)
    → is_connecting t ≡ true
    → Left t server
    → KeepsPlace t server (on_accepted t server)
unfolding on_accepted process_state add_session push_packet
on_accepted-KeepsPlace t server c left =
    let (_, unclosed) = connecting-Apart t server c left in
    (
      refl,
      refl,
      (λ j other. let (_, found, _) = on_accepted_lem t server j in rw other at found),
      inl (
        let (_, found, _) = on_accepted_lem t server t.id in found ∙ ground arith,
        (refl, refl, unclosed),
      ),
    )

pub on_error-KeepsPlace : (t : Session) (server : Server) → KeepsPlace t server (on_error t server)
unfolding on_error process_state close_session push_packet
on_error-KeepsPlace t server = elim (Option-cases (find t.id server.sessions)) [
  | inl e ↦ rw e (refl, refl, (λ j other. refl), inr (e, (refl, inr (refl, refl))))
  | inr (s, e) ↦ rw e (
    refl,
    refl,
    (λ j other. find-erase_ne t.id j server.sessions other),
    inr (find-erase t.id server.sessions, (refl, inr (refl, refl))),
  )
]

-- A session that is written back to its entry.
stored-Left :
    (t t' : Session) (server server' : Server)
    → SameLife t t'
    → server'.sessions ≡ (store t' server).sessions
    → Left t server
    → Left t' server'
stored-Left t t' server server' (id, state, closed) stored (inl (found, (_, on, unclosed))) = inl (
  ap (find t'.id) stored
      ∙ find-store t' server
      ∙ ap (written_back t') (ap (λ k. find k server.sessions) id ∙ found),
  (refl, state ∙ on, closed ∙ unclosed),
)
stored-Left t t' server server' (id, state, closed) stored (inr (missing, (_, off))) = inr (
  ap (find t'.id) stored
      ∙ find-store t' server
      ∙ ap (written_back t') (ap (λ k. find k server.sessions) id ∙ missing),
  (refl, rw (state, closed) off),
)

pub on_received-KeepsPlace :
    (chunk : List ℕ) (t : Session) (server : Server)
    → Left t server
    → KeepsPlace t server (on_received chunk t server)
unfolding on_received
on_received-KeepsPlace chunk t server left =
    let (o, reader) = on_read chunk t.reader.reading t.reader.handler in
    let t' : Session = record t { reader = reader } in
    let sessions = received_sessions t.id o (store t' server) in
    (
      refl,
      received-new_session_id t.id o (store t' server) ∙ store-new_session_id t' server,
      (λ j other. ap (find j) sessions ∙ find-store_ne t' server j other),
      stored-Left t t' server (on_received chunk t server).1 (refl, refl, refl) sessions left,
    )

pub on_sent-KeepsPlace :
    (t : Session) (server : Server) → Left t server → KeepsPlace t server (on_sent t server)
unfolding on_sent
on_sent-KeepsPlace t server left =
    let t' = on_written t in
    let same = on_written-SameLife t in
    (
      same.0,
      store-new_session_id t' server,
      (λ j other. find-store_ne t' server j (rw (same.0) other)),
      stored-Left t t' server (on_sent t server).1 same refl left,
    )
