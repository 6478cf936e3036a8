-- ===== src/Peak/Safe.antt =====
-- Which events of the running program dereference a null pointer, while clients keep to the
-- protocol: the handlers of net, the rounds of `Server::Sender` and the ticks of the world.
use Prim.Native.String.{String}
use endless_peak_server.Shared.{
  ℕ, ◌<◌, ◌≡◌, ◌↔◌, refl, sym, ◌∙◌, Option, none, some, ◌>>=◌, some-ne-none,
}
use endless_peak_server.Double.{Double}
use endless_peak_server.Config.Load.{Json}
use endless_peak_server.World.{World}
use endless_peak_server.World.Protocol.{ids_after}
use endless_peak_server.World.Roster.{ids_of}
use endless_peak_server.Server.Kept.{registered}
use endless_peak_server.Main.{Asio, runs, main}
use endless_peak_server.Main.Started.{main-IsReady, main-queues}
use endless_peak_server.Server.{Server, sender_round}
use endless_peak_server.Server.Delivery.{Misdelivers, sender_round-none}
use endless_peak_server.Peak.{
  Peak, Event, connects, accepted, refused, brings, fails, writes, sends, ticks, step, queues_out,
}
use endless_peak_server.Peak.Polite.{Reach}
use endless_peak_server.Peak.Tracks.{Tracks, tick-Tracks, Reach-Tracks}

after_sends :
    {D : Type 0} (m : Option Server) (f : Server → Peak D)
    → ((m >>= λ server. some (f server)) ≡ none) ↔ (m ≡ none)
after_sends none f = ((λ e. refl), (λ e. refl))
after_sends (some v) f = ((λ e. cc), (λ e. cc))

module _ {D : Type 0} ⦃d : Double D⦄ where
  -- An event that is not a round of the sender.
  other_event :
      (e : Event D) (s s' : Peak D)
      → (e ≡ sends → ⊥)
      → step e s ≡ some s'
      → (step e s ≡ none) ↔ ((e ≡ sends) × Misdelivers s.server)
  other_event e s s' n returns =
      ((λ faults. absurd (some-ne-none s' (sym returns ∙ faults))), (λ (same, _). absurd (n same)))

  step-fault :
      (e : Event D) (s : Peak D)
      → Tracks s
      → (step e s ≡ none) ↔ ((e ≡ sends) × Misdelivers s.server)
  unfolding step
  step-fault connects s t = other_event connects s _ (λ x. cc x) refl
  step-fault (accepted id) s t = other_event (accepted id) s _ (λ x. cc x) refl
  step-fault (refused id) s t = other_event (refused id) s _ (λ x. cc x) refl
  step-fault (brings id chunk) s t = other_event (brings id chunk) s _ (λ x. cc x) refl
  step-fault (fails id) s t = other_event (fails id) s _ (λ x. cc x) refl
  step-fault (writes id) s t = other_event (writes id) s _ (λ x. cc x) refl
  step-fault sends s t =
      let (into, from) =
        after_sends (sender_round s.server) (λ server. record s { server = server }) in
      let (missing, faults) = sender_round-none s.server in
      ((λ n. (refl, missing (into n))), (λ (_, m). from (faults m)))
  step-fault (ticks dt) s t =
      let (w, ticked, _) = tick-Tracks dt s t in
      other_event (ticks dt) s (queues_out w s) (λ x. cc x) (rw ticked refl)

  pub main-Tracks :
      {J A : Type 0} (json : Json J) (asio : Asio A) (argc : ℕ) (filename : String) (io net : ℕ)
      (w : World D) (s : Peak D)
      → main json asio argc filename ≡ some (runs io net w)
      → w.config.grid_y < 256
      → Reach w s
      → Tracks s
  main-Tracks json asio argc filename io net w s started small reached =
      let (ready, nobody, _, _, _) = main-IsReady json asio argc filename io net w started small in
      let (idle, quiet, flushed, _) = main-queues json asio argc filename io net w started in
      Reach-Tracks w s ready nobody idle quiet flushed reached

  -- Let `main` have started with a grid of less than 256 rows, and let handlers, sends and ticks
  -- have run in any order, where no client sent `RemovePlayer` and no packet came from a session
  -- that is not in the map. Then an event that comes next faults (dereferences a null pointer or
  -- reads outside the map of tiles) exactly when it is a round of the sender whose packet is meant
  -- for one session that is not in the map of sessions.
  pub main_faults_iff :
      {J A : Type 0} (json : Json J) (asio : Asio A) (argc : ℕ) (filename : String) (io net : ℕ)
      (w : World D) (s : Peak D) (e : Event D)
      → main json asio argc filename ≡ some (runs io net w)
      → w.config.grid_y < 256
      → Reach w s
      → (step e s ≡ none) ↔ ((e ≡ sends) × Misdelivers s.server)
  main_faults_iff json asio argc filename io net w s e started small reached =
      step-fault e s (main-Tracks json asio argc filename io net w s started small reached)

  -- Let `main` have started with a grid of less than 256 rows, and let handlers, sends and ticks
  -- have run in any order, where no client sent `RemovePlayer` and no packet came from a session
  -- that is not in the map. Then the inputs that wait for the world, taken one after the other,
  -- leave a player for each session in the map and no other player.
  pub players_are_sessions :
      {J A : Type 0} (json : Json J) (asio : Asio A) (argc : ℕ) (filename : String) (io net : ℕ)
      (w : World D) (s : Peak D) (j : ℕ)
      → main json asio argc filename ≡ some (runs io net w)
      → w.config.grid_y < 256
      → Reach w s
      → ids_after (ids_of s.world.players) s.server.in_queue.items j ≡ registered j s.server
  players_are_sessions json asio argc filename io net w s j started small reached =
      let t = main-Tracks json asio argc filename io net w s started small reached in
      t.heard.expects j
