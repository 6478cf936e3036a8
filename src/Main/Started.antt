-- ===== src/Main/Started.antt =====
-- The system that `main` starts.
use Prim.Native.String.{String}
use mathlib.Core.Option.{some-injective}
use endless_peak_server.Shared.{
  List, ℕ, zero, suc, ◌*◌, ◌%◌, ◌≤◌, ◌<◌, ◌≡◌, refl, sym, ap, ◌∙◌, subst, inl, inr, Bool, true,
  false, [], none, some, ◌==◌, arith, if◌then◌else◌, Bool-cases, >>=-eq-some,
}
use endless_peak_server.Double.{Double}
use endless_peak_server.Collision.Bounds.{IsGrid}
use endless_peak_server.Player.{GameConfig}
use endless_peak_server.Config.Load.{
  Json, Config, load_config, get_instance, init_net_config, init_game_config,
  init_accounts_db_config,
}
use endless_peak_server.Config.Instance.{get_instance-load_config}
use endless_peak_server.Config.Fits.{FitsTypes, init_game_config-FitsTypes}
use endless_peak_server.Server.Senders.{net_threads}
use endless_peak_server.World.{World, init_tiles}
use endless_peak_server.World.Inputs.{IsReady}
use endless_peak_server.World.Startup.{new_world, init_tiles-IsCovered}
use endless_peak_server.World.Rounds.{Round, game_loop}
use endless_peak_server.World.Protocol.{Follows, arrivals, nobody}
use endless_peak_server.World.Played.{game_loop_total}
use endless_peak_server.Main.{
  Asio, Outcome, exit_failure, runs, start_listen, io_threads, context, start, main,
}

positive_factors : (x y : ℕ) → 625 ≤ x * y → (0 < x) × (0 < y)
positive_factors zero y h = absurd (grind arith)
positive_factors (suc x) zero h = absurd (grind arith)
positive_factors (suc x) (suc y) h = (omega arith, omega arith)

load_config-FitsTypes :
    {J : Type 0} (json : Json J) (argv : String) (c : Config)
    → load_config json argv ≡ some c
    → FitsTypes c.game_config
unfolding load_config
load_config-FitsTypes json argv c e =
    let (net, _, e1) = >>=-eq-some (init_net_config json argv) _ e in
    let (game, fits, e2) = >>=-eq-some (init_game_config json argv) _ e1 in
    let (accounts, _, e3) = >>=-eq-some (init_accounts_db_config json argv) _ e2 in
    subst (λ (x : Config). FitsTypes x.game_config) (some-injective _ _ e3)
      (init_game_config-FitsTypes json argv game fits)

io_threads-pos : (configured io : ℕ) → io_threads configured ≡ io → 1 ≤ io
unfolding io_threads
io_threads-pos configured io e = omega arith

net_threads-pos : (configured net : ℕ) → net_threads configured ≡ net → 1 ≤ net
unfolding net_threads
net_threads-pos configured net e = omega arith

module _ {D : Type 0} ⦃d : Double D⦄ where
  new_world-IsReady :
      (c : GameConfig) (w : World D)
      → FitsTypes c
      → c.grid_y < 256
      → new_world c ≡ some w
      → IsReady w × (w.players ≡ []) × (w.config ≡ c)
  unfolding new_world
  new_world-IsReady c w f small e =
      let (px, py) = positive_factors c.grid_x c.grid_y f.printed in
      let grid : IsGrid c.grid_x (c.grid_y % 256) = record {
        x_pos = px;
        x_fits = f.grid_x;
        y_pos = omega arith;
        y_fits = omega arith;
      } in
      let (tiles, made, _, covered) = init_tiles-IsCovered c f.area (omega (arith, f.cells)) grid in
      let same = some-injective _ _ (rw made at e) in
      subst (λ (v : World D). IsReady v × (v.players ≡ []) × (v.config ≡ c)) same
        (record { present = tt; covered = covered }, refl, refl)

  failure-runs :
      (o : Outcome D) (io net : ℕ) (w : World D)
      → o ≡ exit_failure
      → some o ≡ some (runs io net w)
      → ⊥
  failure-runs o io net w failed e = cc

  outcome-runs :
      (started : Bool) (io io' net net' : ℕ) (v w : World D)
      → (if started then runs io net v else exit_failure) ≡ runs io' net' w
      → (io ≡ io') × (net ≡ net') × (v ≡ w)
  outcome-runs true io io' net net' v w e = (cc, cc, cc)
  outcome-runs false io io' net net' v w e = absurd cc

  new_world-world :
      (c : GameConfig) (w : World D) → FitsTypes c → new_world c ≡ some w → w.config ≡ c
  unfolding new_world
  new_world-world c w f e =
      let (tiles, _, same) = >>=-eq-some (init_tiles c) _ e in
      sym (ap (λ (v : World D). v.config) (some-injective _ _ same))

  world-IsReady :
      (c : GameConfig) (v w : World D)
      → FitsTypes c
      → new_world c ≡ some v
      → v ≡ w
      → w.config.grid_y < 256
      → IsReady w × (w.players ≡ []) × FitsTypes w.config
  world-IsReady c v w f made same small =
      let again : new_world c ≡ some w = made ∙ ap some same in
      let kept = new_world-world c w f again in
      let (ready, empty, _) =
        new_world-IsReady c w f (subst (λ (g : GameConfig). g.grid_y < 256) kept small) again in
      (ready, empty, subst FitsTypes (sym kept) f)

  start-IsReady :
      {J A : Type 0} (json : Json J) (asio : Asio A) (filename : String) (io net : ℕ) (w : World D)
      → start json asio filename ≡ some (runs io net w)
      → w.config.grid_y < 256
      → IsReady w × (w.players ≡ []) × FitsTypes w.config × (1 ≤ io) × (1 ≤ net)
  unfolding start
  start-IsReady json asio filename io net w e small =
      let (found, got, e1) = >>=-eq-some (get_instance json filename none) _ e in
      let c = found.0 in
      let loaded = get_instance-load_config json filename found got in
      let (v, made, e2) = >>=-eq-some (new_world c.game_config) _ e1 in
      let (address, _, e3) = >>=-eq-some (context asio c.net_config.ip) _ e2 in
      let fits : FitsTypes c.game_config = load_config-FitsTypes json filename c loaded in
      let (io_eq, net_eq, same) =
        outcome-runs (start_listen asio address c.net_config.port) _ io _ net v w
          (some-injective _ _ e3) in
      let (ready, empty, kept) = world-IsReady c.game_config v w fits made same small in
      (
        ready,
        empty,
        kept,
        io_threads-pos c.net_config.io_threads io io_eq,
        net_threads-pos c.net_config.net_threads net net_eq,
      )

  -- When `main` gets past its startup, with a grid of less than 256 rows, then the world is ready
  -- for every tick, has no players, and its numbers fit their types, and at least one thread runs
  -- the service and at least one sends.
  pub main-IsReady :
      {J A : Type 0} (json : Json J) (asio : Asio A) (argc : ℕ) (filename : String) (io net : ℕ)
      (w : World D)
      → main json asio argc filename ≡ some (runs io net w)
      → w.config.grid_y < 256
      → IsReady w × (w.players ≡ []) × FitsTypes w.config × (1 ≤ io) × (1 ≤ net)
  unfolding main
  main-IsReady json asio argc filename io net w e small = elim (Bool-cases (argc == 2)) [
    | inl enough ↦ start-IsReady json asio filename io net w (rw enough at e) small
    | inr wrong ↦ absurd (failure-runs exit_failure io net w refl (rw wrong at e))
  ]

  -- The four queues of the world.
  abbrev pub AllEmpty : World D → Type 0
  AllEmpty w =
      (w.game_in.items ≡ [])
      × (w.net_in.items ≡ [])
      × (w.game_out.items ≡ [])
      × (w.net_out.items ≡ [])

  new_world-queues : (c : GameConfig) (w : World D) → new_world c ≡ some w → AllEmpty w
  unfolding new_world
  new_world-queues c w e =
      let (tiles, _, same) = >>=-eq-some (init_tiles c) _ e in
      subst (λ (v : World D). AllEmpty v) (some-injective _ _ same) (refl, refl, refl, refl)

  start-queues :
      {J A : Type 0} (json : Json J) (asio : Asio A) (filename : String) (io net : ℕ) (w : World D)
      → start json asio filename ≡ some (runs io net w)
      → AllEmpty w
  unfolding start
  start-queues json asio filename io net w e =
      let (found, _, e1) = >>=-eq-some (get_instance json filename none) _ e in
      let c = found.0 in
      let (v, made, e2) = >>=-eq-some (new_world c.game_config) _ e1 in
      let (address, _, e3) = >>=-eq-some (context asio c.net_config.ip) _ e2 in
      let (_, _, same) =
        outcome-runs (start_listen asio address c.net_config.port) _ io _ net v w
          (some-injective _ _ e3) in
      new_world-queues c.game_config w (made ∙ ap some same)

  pub main-queues :
      {J A : Type 0} (json : Json J) (asio : Asio A) (argc : ℕ) (filename : String) (io net : ℕ)
      (w : World D)
      → main json asio argc filename ≡ some (runs io net w)
      → AllEmpty w
  unfolding main
  main-queues json asio argc filename io net w e = elim (Bool-cases (argc == 2)) [
    | inl enough ↦ start-queues json asio filename io net w (rw enough at e)
    | inr wrong ↦ absurd (failure-runs exit_failure io net w refl (rw wrong at e))
  ]

  -- When `main` gets past its startup, with a grid of less than 256 rows, then its game loop returns
  -- after any number of rounds without dereferencing a null pointer, while every input creates its
  -- player or comes from a player that was created and not removed since.
  pub main_plays :
      {J A : Type 0} (json : Json J) (asio : Asio A) (argc : ℕ) (filename : String) (io net : ℕ)
      (w : World D) (rounds : List (Round D))
      → main json asio argc filename ≡ some (runs io net w)
      → w.config.grid_y < 256
      → Follows nobody (arrivals rounds)
      → (w' : World D) × (game_loop rounds w ≡ some w') × IsReady w'
  main_plays json asio argc filename io net w rounds e small f =
      let (ready, _, _, _, _) = main-IsReady json asio argc filename io net w e small in
      let (first, second, _, _) = main-queues json asio argc filename io net w e in
      game_loop_total rounds w nobody ready first second (λ j h. absurd (cc h)) f
