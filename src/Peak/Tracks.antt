-- ===== src/Peak/Tracks.antt =====
-- What the program keeps track of, while clients keep to the protocol: the players of the world,
-- the inputs that wait in its queue, and the map of sessions.
use mathlib.Core.Option.{some-injective}
use endless_peak_server.Shared.{
  ℕ, ◌≡◌, refl, ap, ◌∙◌, subst, inl, inr, Bool, true, Bool-cases, Option-cases, List, [], some,
  >>=-eq-some,
}
use endless_peak_server.Double.{Double}
use endless_peak_server.Session.{Session}
use endless_peak_server.World.{World, find as find_player}
use endless_peak_server.World.Loop.{tick}
use endless_peak_server.World.Inputs.{IsReady}
use endless_peak_server.World.Protocol.{Ids}
use endless_peak_server.World.Players.{has}
use endless_peak_server.World.Roster.{ids_of}
use endless_peak_server.World.Census.{tick-ids}
use endless_peak_server.World.Played.{tick-Follows}
use endless_peak_server.World.Ticks.{tick_lem}
use endless_peak_server.Server.{
  Server, find, on_accepted, on_error, on_received, on_sent, sender_round, new_server,
}
use endless_peak_server.Server.Kept.{is_registered}
use endless_peak_server.Peak.{
  Peak, Event, connects, accepted, refused, brings, fails, writes, sends, ticks, holds, settle,
  handled, handle, queues_in, queues_out, opened, step, may_bring, may_fail, may_write,
  is_connecting,
}
use endless_peak_server.Peak.Polite.{polite, brought, Reach, start, next}
use endless_peak_server.Peak.Heard.{
  Heard, accept-Heard, on_accepted-Heard, on_error-Heard, on_received-Heard, on_sent-Heard,
  sender_round-Heard,
}

module _ {D : Type 0} ⦃d : Double D⦄ where
  -- The world is ready and has taken all it took before; the inputs that wait keep to the protocol,
  -- and will leave a player for each session in the map.
  pub record Tracks (s : Peak D) : Type 0 where
    pub ready : IsReady s.world
    pub idle : s.world.game_in.items ≡ []
    pub flushed : s.world.game_out.items ≡ []
    pub heard : Heard (ids_of s.world.players) s.server

  handle-Tracks :
      (enabled : Session → Bool) (handler : Session → Server → Session × Server) (id : ℕ)
      (s : Peak D)
      → ((session : Session)
          → holds id s ≡ some session
          → Heard (ids_of s.world.players) s.server
          → Heard (ids_of s.world.players) (handler session s.server).1)
      → Tracks s
      → Tracks (handle enabled handler id s)
  unfolding handle settle
  handle-Tracks enabled handler id s keeps t = elim (Option-cases (holds id s)) [
    | inl e ↦ rw (e, handled) t
    | inr (session, e) ↦ elim (Bool-cases (enabled session)) [
      | inl on ↦
          rw (e, handled, on)
            (record {
              ready = t.ready;
              idle = t.idle;
              flushed = t.flushed;
              heard = keeps session e t.heard;
            })
      | inr off ↦ rw (e, handled, off) t
    ]
  ]

  pub tick-Tracks :
      (dt : D) (s : Peak D)
      → Tracks s
      → (w : World D) × (tick dt (queues_in s) ≡ some w) × Tracks (queues_out w s)
  unfolding queues_in queues_out
  tick-Tracks dt s t =
      let before = queues_in s in
      let (w, e, ready, _) =
        tick-Follows dt before (ids_of s.world.players)
          (record { present = t.ready.present; covered = t.ready.covered }) (λ j h. h)
          t.heard.follows in
      let now = tick-ids dt before w t.ready.present t.heard.follows e in
      let (_, _, _, (_, _, idle, swapped, flushed)) = tick_lem dt before w e in
      let waits : w.net_in.items ≡ [] = swapped ∙ t.idle in
      (
        w,
        e,
        record {
          ready = ready;
          idle = idle;
          flushed = flushed;
          heard = record {
            follows = rw waits tt;
            expects = λ j. rw waits (ap (λ known. known j) now ∙ t.heard.expects j);
          };
        },
      )

  brought-Heard :
      (known : Ids) (chunk : List ℕ) (id : ℕ) (s : Peak D) (session : Session)
      → polite (brings id chunk) s ≡ true
      → holds id s ≡ some session
      → Heard known s.server
      → Heard known (on_received chunk session s.server).1
  unfolding polite
  brought-Heard known chunk id s session p e h =
      on_received-Heard known chunk session s.server h (rw (e, brought) at p)

  handled_step :
      (enabled : Session → Bool) (handler : Session → Server → Session × Server) (id : ℕ)
      (s s' : Peak D)
      → ((session : Session)
          → holds id s ≡ some session
          → Heard (ids_of s.world.players) s.server
          → Heard (ids_of s.world.players) (handler session s.server).1)
      → Tracks s
      → some (handle enabled handler id s) ≡ some s'
      → Tracks s'
  handled_step enabled handler id s s' keeps t e =
      subst Tracks (some-injective _ _ e) (handle-Tracks enabled handler id s keeps t)

  -- A polite event keeps track, when it does not fault.
  pub step-Tracks :
      (e : Event D) (s s' : Peak D) → polite e s ≡ true → step e s ≡ some s' → Tracks s → Tracks s'
  unfolding step settle
  step-Tracks connects s s' p e t = subst Tracks (some-injective _ _ e) (record {
    ready = t.ready;
    idle = t.idle;
    flushed = t.flushed;
    heard = accept-Heard (ids_of s.world.players) s.server t.heard;
  })
  step-Tracks (accepted id) s s' p e t =
      handled_step is_connecting on_accepted id s s'
        (λ session _ h. on_accepted-Heard (ids_of s.world.players) session s.server h) t e
  step-Tracks (refused id) s s' p e t =
      handled_step is_connecting on_error id s s'
        (λ session _ h. on_error-Heard (ids_of s.world.players) session s.server h) t e
  step-Tracks (brings id chunk) s s' p e t =
      handled_step (may_bring chunk) (on_received chunk) id s s'
        (λ session held h. brought-Heard (ids_of s.world.players) chunk id s session p held h) t e
  step-Tracks (fails id) s s' p e t =
      handled_step may_fail on_error id s s'
        (λ session _ h. on_error-Heard (ids_of s.world.players) session s.server h) t e
  step-Tracks (writes id) s s' p e t =
      handled_step may_write on_sent id s s'
        (λ session _ h. on_sent-Heard (ids_of s.world.players) session s.server h) t e
  step-Tracks sends s s' p e t =
      let (server, sent, e') = >>=-eq-some (sender_round s.server) _ e in
      subst Tracks (some-injective _ _ e') (record {
        ready = t.ready;
        idle = t.idle;
        flushed = t.flushed;
        heard = sender_round-Heard (ids_of s.world.players) s.server server t.heard sent;
      })
  step-Tracks (ticks dt) s s' p e t =
      let (w, ticked, after) = tick-Tracks dt s t in
      subst Tracks (some-injective _ _ (rw ticked at e)) after

  opened-Tracks :
      (w : World D)
      → IsReady w
      → w.players ≡ []
      → w.game_in.items ≡ []
      → w.net_in.items ≡ []
      → w.game_out.items ≡ []
      → Tracks (opened w)
  unfolding opened new_server find is_registered has find_player
  opened-Tracks w ready nobody idle quiet flushed = record {
    ready = ready;
    idle = idle;
    flushed = flushed;
    heard = record { follows = rw quiet tt; expects = λ j. rw (quiet, nobody) refl };
  }

  pub Reach-Tracks :
      (w : World D) (s : Peak D)
      → IsReady w
      → w.players ≡ []
      → w.game_in.items ≡ []
      → w.net_in.items ≡ []
      → w.game_out.items ≡ []
      → Reach w s
      → Tracks s
  Reach-Tracks w s ready nobody idle quiet flushed start =
      opened-Tracks w ready nobody idle quiet flushed
  Reach-Tracks w s' ready nobody idle quiet flushed (next e reached p stepped) =
      step-Tracks e _ s' p stepped (Reach-Tracks w _ ready nobody idle quiet flushed reached)
