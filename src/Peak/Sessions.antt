-- ===== src/Peak/Sessions.antt =====
-- The sessions of the running program, over any events of net and the game thread.
use mathlib.Core.Option.{some-injective}
use endless_peak_server.Shared.{
  ℕ, ◌+◌, ◌^◌, ◌<◌, ◌≡◌, refl, sym, ap, ◌∙◌, subst, inl, inr, Bool, true, false, ltb, ◌==◌,
  Bool-cases, Option-cases, List, [], ◌∷◌, Option, none, some, arith, >>=-eq-some,
}
use endless_peak_server.Double.{Double}
use endless_peak_server.Session.{Session, new_session}
use endless_peak_server.World.{World}
use endless_peak_server.World.Loop.{tick}
use endless_peak_server.Server.{
  Server, find, accept, on_accepted, on_error, on_received, on_sent, sender_round, new_server,
}
use endless_peak_server.Server.Kept.{
  is_registered, SameEntry, SameEntry-registered, SameSessions, sender_round-SameSessions,
}
use endless_peak_server.Peak.{
  Peak, Event, connects, accepted, refused, brings, fails, writes, sends, ticks, holds, settle,
  handled, handle, queues_in, queues_out, opened, step, run, is_connecting, may_bring, may_fail,
  may_write,
}
use endless_peak_server.Peak.Places.{
  Left, Listed, IsPlaced, holds_cases, settle-IsPlaced, places, number,
}
use endless_peak_server.Peak.Life.{
  KeepsPlace, on_accepted-KeepsPlace, on_error-KeepsPlace, on_received-KeepsPlace,
  on_sent-KeepsPlace,
}

module _ {D : Type 0} where
  handle-IsPlaced :
      (n : ℕ) (enabled : Session → Bool) (handler : Session → Server → Session × Server) (id : ℕ)
      (s s' : Peak D)
      → ((t : Session)
          → enabled t ≡ true
          → Left t s.server
          → KeepsPlace t s.server (handler t s.server))
      → IsPlaced n s
      → some (handle enabled handler id s) ≡ some s'
      → IsPlaced n s'
  unfolding handle
  handle-IsPlaced n enabled handler id s s' keeps p e =
      subst (IsPlaced n) (some-injective _ _ e) (elim (Option-cases (holds id s)) [
        | inl missing ↦ rw (missing, handled) p
        | inr (t, held) ↦ elim (Bool-cases (enabled t)) [
          | inl on ↦
              let (below, left) = holds_cases n id s t p held in
              let (same, count, others, placed) = keeps t on left in
              rw (held, handled, on)
                (settle-IsPlaced n n s (handler t s.server).0 (handler t s.server).1 p.in_place
                  (count ∙ p.counted) (subst (λ k. ltb k n ≡ true) (sym same) below)
                  (λ j other. (refl, others j (subst (λ k. (k == j) ≡ false) same other))) placed)
          | inr off ↦ rw (held, handled, off) p
        ]
      ])

  connects-IsPlaced :
      (n : ℕ) (s : Peak D)
      → n + 1 < 2 ^ 64
      → IsPlaced n s
      → IsPlaced (n + 1) (settle (accept s.server) s)
  unfolding accept new_session is_registered
  connects-IsPlaced n s small p = elim (Option-cases (find n s.server.sessions)) [
    | inr (t, found) ↦
        let one : places n s ≡ number (ltb n n) = (p.in_place n).2 in
        let none_yet : number (ltb n n) ≡ 0 = ground arith in
        absurd (omega (arith, rw found at one, none_yet))
    | inl missing ↦
        let free : find s.server.new_session_id s.server.sessions ≡ none = rw (p.counted) missing in
        let fresh : s.server.new_session_id ≡ n = p.counted in
        settle-IsPlaced n (n + 1) s (new_session s.server.new_session_id) (accept s.server).1
          p.in_place (omega (arith, fresh)) (ground (arith, fresh))
          (λ j other. (later j other fresh, refl)) (inr (free, (refl, inl (refl, refl))))
  ]
    where
      later :
          (j : ℕ)
          → (s.server.new_session_id == j) ≡ false
          → s.server.new_session_id ≡ n
          → ltb j (n + 1) ≡ ltb j n
      later j other fresh = ground (arith, other, fresh)

  sends-IsPlaced :
      (n : ℕ) (s : Peak D) (server : Server)
      → SameSessions s.server server
      → IsPlaced n s
      → IsPlaced n (record s { server = server })
  sends-IsPlaced n s server (_, count, entries) p = record {
    counted = count ∙ p.counted;
    in_place = λ j.
        let (listed, apart, one) = p.in_place j in
        (
          listed_still j (find j s.server.sessions) (find j server.sessions) (entries j) listed,
          apart,
          ap (λ b. number b + number (is_registered (find j s.detached)))
                (SameEntry-registered (find j s.server.sessions) (find j server.sessions)
                  (entries j))
              ∙ one,
        );
  }
    where
      listed_still : (j : ℕ) (o o' : Option Session) → SameEntry o o' → Listed j o → Listed j o'
      listed_still j none none e l = tt
      listed_still j none (some t) e l = absurd e
      listed_still j (some s) none e l = absurd e
      listed_still j (some s) (some t) (id, state, closed) (own, on, unclosed) =
          (id ∙ own, state ∙ on, closed ∙ unclosed)

-- The TCP connections among the events.
abbrev pub connections : {D : Type 0} → List (Event D) → ℕ
connections [] = 0
connections (connects ∷ es) = 1 + connections es
connections (_ ∷ es) = connections es

abbrev counted : {D : Type 0} → Event D → ℕ → ℕ
counted connects n = n + 1
counted _ n = n

counted-connections :
    {D : Type 0} (e : Event D) (es : List (Event D)) (n : ℕ)
    → counted e n + connections es ≡ n + connections (e ∷ es)
counted-connections connects es n = omega arith
counted-connections _ es n = refl

module _ {D : Type 0} ⦃d : Double D⦄ where
  step-IsPlaced :
      (n : ℕ) (e : Event D) (s s' : Peak D)
      → counted e n < 2 ^ 64
      → step e s ≡ some s'
      → IsPlaced n s
      → IsPlaced (counted e n) s'
  unfolding step queues_out
  step-IsPlaced n connects s s' small e p =
      subst (IsPlaced (n + 1)) (some-injective _ _ e) (connects-IsPlaced n s small p)
  step-IsPlaced n (accepted id) s s' small e p =
      handle-IsPlaced n is_connecting on_accepted id s s'
        (λ t on left. on_accepted-KeepsPlace t s.server on left) p e
  step-IsPlaced n (refused id) s s' small e p =
      handle-IsPlaced n is_connecting on_error id s s' (λ t _ _. on_error-KeepsPlace t s.server) p e
  step-IsPlaced n (brings id chunk) s s' small e p =
      handle-IsPlaced n (may_bring chunk) (on_received chunk) id s s'
        (λ t _ left. on_received-KeepsPlace chunk t s.server left) p e
  step-IsPlaced n (fails id) s s' small e p =
      handle-IsPlaced n may_fail on_error id s s' (λ t _ _. on_error-KeepsPlace t s.server) p e
  step-IsPlaced n (writes id) s s' small e p =
      handle-IsPlaced n may_write on_sent id s s' (λ t _ left. on_sent-KeepsPlace t s.server left) p
        e
  step-IsPlaced n sends s s' small e p =
      let (server, sent, e') = >>=-eq-some (sender_round s.server) _ e in
      subst (IsPlaced n) (some-injective _ _ e')
        (sends-IsPlaced n s server (sender_round-SameSessions s.server server sent) p)
  step-IsPlaced n (ticks dt) s s' small e p =
      let (w, _, e') = >>=-eq-some (tick dt (queues_in s)) _ e in
      subst (IsPlaced n) (some-injective _ _ e')
        (record { counted = p.counted; in_place = p.in_place })

  run-IsPlaced :
      (n : ℕ) (es : List (Event D)) (s s' : Peak D)
      → n + connections es < 2 ^ 64
      → run es s ≡ some s'
      → IsPlaced n s
      → IsPlaced (n + connections es) s'
  unfolding run
  run-IsPlaced n [] s s' small e p =
      let zero_more : n ≡ n + 0 = omega arith in
      subst (λ k. IsPlaced k s') zero_more (subst (IsPlaced n) (some-injective _ _ e) p)
  run-IsPlaced n (event ∷ es) s s' small e p =
      let all = counted-connections event es n in
      let (between, stepped, rest) = >>=-eq-some (step event s) (run es) e in
      subst (λ k. IsPlaced k s') all
        (run-IsPlaced (counted event n) es between s' (omega (arith, all)) rest
          (step-IsPlaced n event s between (omega (arith, all)) stepped p))

  -- Over any events that do not fault, from the start of the threads on, with fewer than 2 ^ 64
  -- connections: the identifiers below the number of connections have one session each, and no other
  -- identifier has one; a session is either in the map, connected and with its socket not closed, or
  -- out of it, and then connecting with its socket not closed or disconnected with its socket closed.
  pub sessions_in_place :
      (w : World D) (es : List (Event D)) (s : Peak D)
      → connections es < 2 ^ 64
      → run es (opened w) ≡ some s
      → IsPlaced (connections es) s
  unfolding opened new_server is_registered find
  sessions_in_place w es s small e =
      let none_more : 0 + connections es ≡ connections es = omega arith in
      subst (λ k. IsPlaced k s) none_more
        (run-IsPlaced 0 es (opened w) s (omega arith) e
          (record { counted = refl; in_place = λ j. (tt, tt, ground arith) }))
