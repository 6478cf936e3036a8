-- ===== src/Peak/Visits.antt =====
-- What the world and the clients learn of a session that comes or goes, from the handlers of
-- net/session/session.cpp to the end of the next tick of game/world/world.cpp.
use Prim.Native.String.{String}
use endless_peak_server.Shared.{
  ℕ, ◌<◌, ◌≡◌, refl, sym, ap, ◌∙◌, subst, true, false, List, [], ◌∷◌, ◌++◌, some, ◌>>=◌, ◌==◌,
  if◌then◌else◌, Bool, Bool-cases, inl, inr,
}
use endless_peak_server.Double.{Double}
use endless_peak_server.Bytes.{swap_endian, to_bytes, of_bytes}
use endless_peak_server.Packet.{remove_player, to_opcode, get_head_opcode, opcode_packet, to_uint16}
use endless_peak_server.Queue.{TsQueue}
use endless_peak_server.Config.Load.{Json}
use endless_peak_server.Player.{GameConfig}
use endless_peak_server.Main.{Asio, runs, main}
use endless_peak_server.Session.{Session}
use endless_peak_server.World.{ServerPacket, PlayerMap, World, broadcast}
use endless_peak_server.World.Players.{has}
use endless_peak_server.World.Roster.{ids_of}
use endless_peak_server.World.Protocol.{ids_after}
use endless_peak_server.World.Loop.{still_all}
use endless_peak_server.World.Answers.{
  Answers, Answers-last, move_packets, Handled, answer, answers_to, announced, start_fields,
}
use endless_peak_server.World.Ticks.{tick_lem, keys}
use endless_peak_server.Server.{
  Server, find, on_accepted, on_error, process_state, add_session, push_packet,
}
use endless_peak_server.Server.Sessions.{created, removed, on_accepted_lem, on_error_queues}
use endless_peak_server.Server.Kept.{is_registered, registered}
use endless_peak_server.Peak.{
  Peak, Event, accepted, fails, ticks, step, run, handle, handled, holds, settle, queues_in,
  queues_out, is_connecting, may_fail, registered_or,
}
use endless_peak_server.Peak.Polite.{Reach, polite}
use endless_peak_server.Peak.Tracks.{Tracks, tick-Tracks, step-Tracks}
use endless_peak_server.Peak.Safe.{main-Tracks}

pub behind :
    (out queue before flushed sent moves : List ServerPacket)
    → out ≡ queue ++ ((flushed ++ sent) ++ moves)
    → queue ≡ before
    → flushed ≡ []
    → out ≡ before ++ (sent ++ moves)
behind out queue before flushed sent moves net same empty =
    net ∙ ap (λ xs. queue ++ ((xs ++ sent) ++ moves)) empty ∙ ap (λ xs. xs ++ (sent ++ moves)) same

-- The packet `RemovePlayer` for everyone, with the player's identifier.
abbrev pub farewell : ℕ → List ServerPacket
farewell id = answer remove_player (record { width = 8; value = id } ∷ []) id broadcast ∷ []

module _ {D : Type 0} ⦃d : Double D⦄ where
  answers_to-created :
      (config : GameConfig) (id : ℕ) (players : PlayerMap D)
      → answers_to config (created id) players ≡ announced (start_fields D config id) id players
  unfolding to_opcode get_head_opcode opcode_packet to_uint16 swap_endian of_bytes to_bytes
  answers_to-created config id players = refl

  answers_to-removed :
      (config : GameConfig) (id : ℕ) (players : PlayerMap D)
      → answers_to config (removed id) players ≡ farewell id
  unfolding to_opcode get_head_opcode opcode_packet to_uint16 swap_endian of_bytes to_bytes
  answers_to-removed config id players = refl

  -- A tick ended in which one more input came behind those that waited: the network has got the
  -- answers to the inputs that waited, then the news, which may depend on the players that the last
  -- input left, and the packets of the players, who are still those.
  abbrev pub Told : D → Peak D → ServerPacket → (PlayerMap D → List ServerPacket) → Peak D → Type 0
  Told dt s x news s' =
      (before : PlayerMap D) × (told : List ServerPacket) × (mid : PlayerMap D) × (after : PlayerMap
        D)
      × (still_all s.world.players ≡ some before)
      × Answers dt s.world.config s.server.in_queue.items before told mid
      × Handled dt s.world.config x mid after
      × (keys s'.world.players ≡ keys after)
      × (s'.server.out_queue.items
          ≡ s.server.out_queue.items ++ ((told ++ news after) ++ move_packets s'.world.players))

  retell :
      (dt : D) (s s' : Peak D) (x : ServerPacket) (news news' : PlayerMap D → List ServerPacket)
      → ((players : PlayerMap D) → news players ≡ news' players)
      → Told dt s x news s'
      → Told dt s x news' s'
  retell dt s s' x news news' same (before, told, mid, after, still, all, handled, kept, out) = (
    before,
    told,
    mid,
    after,
    still,
    all,
    handled,
    kept,
    out
        ∙ ap (λ xs. s.server.out_queue.items ++ ((told ++ xs) ++ move_packets s'.world.players))
            (same after),
  )

  -- The tick after one more input.
  next_tick :
      (s v : Peak D) (x : ServerPacket) (dt : D)
      → Tracks v
      → v.world ≡ s.world
      → v.server.out_queue ≡ s.server.out_queue
      → v.server.in_queue.items ≡ s.server.in_queue.items ++ (x ∷ [])
      → (s' : Peak D) × (step (ticks dt) v ≡ some s')
        × Told dt s x (answers_to s.world.config x) s'
        × ((j : ℕ) → has j s'.world.players ≡ registered j v.server)
  unfolding step queues_in queues_out
  next_tick s v x dt t world out queued =
      let (w, ticked, after) = tick-Tracks dt v t in
      let (before, sent, left, (net, (still, all, kept), _, swapped, _)) =
        tick_lem dt (queues_in v) w ticked in
      let waits : w.net_in.items ≡ [] = swapped ∙ t.idle in
      let answered : Answers dt s.world.config (s.server.in_queue.items ++ (x ∷ [])) before sent
          left =
        subst (λ xs. Answers dt s.world.config xs before sent left) queued
          (subst (λ (u : World D). Answers dt u.config v.server.in_queue.items before sent left)
            world all) in
      let (mid, told, first, handled, split) =
        Answers-last dt s.world.config s.server.in_queue.items x before left sent answered in
      (
        queues_out w v,
        rw ticked refl,
        (
          before,
          told,
          mid,
          left,
          ap (λ (u : World D). still_all u.players) (sym world) ∙ still,
          first,
          handled,
          kept,
          behind w.net_out.items v.server.out_queue.items s.server.out_queue.items
                v.world.game_out.items sent (move_packets w.players) net
                (ap (λ (q : TsQueue ServerPacket). q.items) out) t.flushed
              ∙ ap (λ xs. s.server.out_queue.items ++ (xs ++ move_packets w.players)) split,
        ),
        λ j. ap (λ q. ids_after (ids_of w.players) q j) (sym waits) ∙ after.heard.expects j,
      )

  handled_lem :
      (enabled : Session → Bool) (handler : Session → Server → Session × Server) (id : ℕ)
      (s : Peak D) (session : Session)
      → holds id s ≡ some session
      → enabled session ≡ true
      → handle enabled handler id s ≡ settle (handler session s.server) s
  unfolding handle
  handled_lem enabled handler id s session held on = rw (held, handled, on) refl

  holds_registered :
      (id : ℕ) (s : Peak D) (session : Session)
      → find id s.server.sessions ≡ some session
      → holds id s ≡ some session
  unfolding holds
  holds_registered id s session found = rw (found, registered_or) refl

  -- The handler of a session that is held, then a tick.
  then_tick :
      (e : Event D) (enabled : Session → Bool) (handler : Session → Server → Session × Server)
      (s : Peak D) (session : Session) (x : ServerPacket) (dt : D)
      → Tracks s
      → polite e s ≡ true
      → step e s ≡ some (handle enabled handler session.id s)
      → holds session.id s ≡ some session
      → enabled session ≡ true
      → (handler session s.server).1.out_queue ≡ s.server.out_queue
      → (handler session s.server).1.in_queue.items ≡ s.server.in_queue.items ++ (x ∷ [])
      → (s' : Peak D) × (run (e ∷ ticks dt ∷ []) s ≡ some s')
        × Told dt s x (answers_to s.world.config x) s'
        × ((j : ℕ) → has j s'.world.players ≡ registered j (handler session s.server).1)
  unfolding run settle
  then_tick e enabled handler s session x dt t p stepped held on out queued =
      let v = settle (handler session s.server) s in
      let now : step e s ≡ some v =
        stepped ∙ ap some (handled_lem enabled handler session.id s session held on) in
      let (s', ticked, told, players) =
        next_tick s v x dt (step-Tracks e s v p now t) refl out queued in
      (s', ap (λ o. o >>= run (ticks dt ∷ [])) now ∙ ap (λ o. o >>= run []) ticked, told, players)

  -- Let `main` have started with a grid of less than 256 rows, and let handlers, sends and ticks
  -- have run in any order, where no client sent `RemovePlayer` and no packet came from a session
  -- that is not in the map. When the handshake of a connecting session ends then and a tick follows,
  -- the tick returns, the session has a player, as have the sessions in the map and nobody else, and
  -- the network's queue has got, behind what it had and the answers to the inputs that waited, for
  -- the session the packet `CreatePlayer` with its identifier, the start's coordinates and the size,
  -- and `SpawnPlayers` with the count and each other player that the inputs have left, and for the
  -- others `AddPlayer` with the identifier, the coordinates and the size; then come the positions of
  -- the players, who are those that the inputs have left.
  pub newcomer_joins :
      {J A : Type 0} (json : Json J) (asio : Asio A) (argc : ℕ) (filename : String) (io net : ℕ)
      (w : World D) (s : Peak D) (session : Session) (dt : D) (j : ℕ)
      → main json asio argc filename ≡ some (runs io net w)
      → w.config.grid_y < 256
      → Reach w s
      → holds session.id s ≡ some session
      → is_connecting session ≡ true
      → (s' : Peak D) × (run (accepted session.id ∷ ticks dt ∷ []) s ≡ some s')
        × Told dt s
            (created session.id)
            (announced (start_fields D s.world.config session.id) session.id)
            s'
        × (has j s'.world.players ≡ (if session.id == j then true else registered j s.server))
  unfolding step is_registered on_accepted process_state add_session push_packet polite
  newcomer_joins json asio argc filename io net w s session dt j started small reached held on =
      let t = main-Tracks json asio argc filename io net w s started small reached in
      let (_, found, queued) = on_accepted_lem session s.server j in
      let (s', ran, told, players) =
        then_tick (accepted session.id) is_connecting on_accepted s session (created session.id) dt
          t refl refl held on refl queued in
      (
        s',
        ran,
        retell dt s s' (created session.id) (answers_to s.world.config (created session.id))
            (announced (start_fields D s.world.config session.id) session.id)
            (answers_to-created s.world.config session.id) told,
        players j ∙ ap is_registered found ∙ (elim (Bool-cases (session.id == j)) [
          | inl own ↦ rw own refl
          | inr other ↦ rw other refl
        ]),
      )

  -- Let `main` have started with a grid of less than 256 rows, and let handlers, sends and ticks
  -- have run in any order, where no client sent `RemovePlayer` and no packet came from a session
  -- that is not in the map. When a read or a write of a session in the map, past its handshake,
  -- fails then and a tick follows, the tick returns, the session has no player, the other sessions
  -- in the map have theirs and nobody else has one, and the network's queue has got, behind what it
  -- had and the answers to the inputs that waited, the packet `RemovePlayer` for everyone, with the
  -- session's identifier as its only field; then come the positions of the players that are left.
  pub leaver_leaves :
      {J A : Type 0} (json : Json J) (asio : Asio A) (argc : ℕ) (filename : String) (io net : ℕ)
      (w : World D) (s : Peak D) (session : Session) (dt : D) (j : ℕ)
      → main json asio argc filename ≡ some (runs io net w)
      → w.config.grid_y < 256
      → Reach w s
      → find session.id s.server.sessions ≡ some session
      → is_connecting session ≡ false
      → (s' : Peak D) × (run (fails session.id ∷ ticks dt ∷ []) s ≡ some s')
        × Told dt s (removed session.id) (λ players. farewell session.id) s'
        × (has j s'.world.players ≡ (if session.id == j then false else registered j s.server))
  unfolding step is_registered polite may_fail
  leaver_leaves json asio argc filename io net w s session dt j started small reached found on =
      let t = main-Tracks json asio argc filename io net w s started small reached in
      let (out, queued, entry) = on_error_queues session session s.server j found in
      let (s', ran, told, players) =
        then_tick (fails session.id) may_fail on_error s session (removed session.id) dt t refl refl
          (holds_registered session.id s session found) (rw on refl) out queued in
      (
        s',
        ran,
        retell dt s s' (removed session.id) (answers_to s.world.config (removed session.id))
            (λ players. farewell session.id) (answers_to-removed s.world.config session.id) told,
        players j ∙ ap is_registered entry ∙ (elim (Bool-cases (session.id == j)) [
          | inl own ↦ rw own refl
          | inr other ↦ rw other refl
        ]),
      )
