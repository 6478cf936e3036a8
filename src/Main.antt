-- ===== src/Main.antt =====
-- `main` of src/main.cpp, with `Server::StartListen` of net/server/server.cpp. The libraries' parts
-- are parameters; `none` is an exception or a read out of bounds while the server starts.
use Prim.Native.String.{String}
use Prim.Native.Nat.{max}
use endless_peak_server.Shared.{
  ℕ, ◌-◌, ◌+◌, Bool, true, false, if◌then◌else◌, ◌==◌, Option, none, some, ◌>>=◌,
}
use endless_peak_server.Double.{Double}
use endless_peak_server.Config.Load.{Json, get_instance}
use endless_peak_server.Server.Senders.{net_threads}
use endless_peak_server.World.{World}
use endless_peak_server.World.Startup.{new_world}
pub mod Started

-- What the system's calls of boost::asio answer: whether the certificates load, the address of a
-- text, and whether each call on the acceptor reports an error.
pub record Asio (A : Type 0) : Type 0 where
  pub certificates : Bool
  pub make_address : String → Option A
  pub open_fails : A → ℕ → Bool
  pub set_option_fails : Bool
  pub bind_fails : A → ℕ → Bool
  pub listen_fails : Bool

-- The exit code, or the server with its threads for `ioc.run`, those for `Sender`, and the world.
pub data Outcome (D : Type 0) : Type 0 where
  exit_failure : Outcome D
  runs : ℕ → ℕ → World D → Outcome D

unfoldable pub start_listen : {A : Type 0} → Asio A → A → ℕ → Bool
start_listen asio address port =
    if asio.open_fails address port
    then false
    else if asio.set_option_fails
    then false
    else if asio.bind_fails address port
    then false
    else if asio.listen_fails
    then false
    else true

-- The pool has one thread less, and `main` itself runs the service too.
unfoldable pub io_threads : ℕ → ℕ
io_threads configured = (max 1 configured - 1) + 1

unfoldable pub context : {A : Type 0} → Asio A → String → Option A
context asio ip = if asio.certificates then asio.make_address ip else none

-- `main` behind the test of the arguments.
unfoldable pub start :
    {D J A : Type 0} ⦃d : Double D⦄ (json : Json J) (asio : Asio A) (filename : String)
    → Option (Outcome D)
start json asio filename = do
  found ← get_instance json filename none
  let config = found.0
  world ← new_world config.game_config
  address ← context asio config.net_config.ip
  some (
      if start_listen asio address config.net_config.port
      then runs (io_threads config.net_config.io_threads)
          (net_threads config.net_config.net_threads) world
      else exit_failure)

unfoldable pub main :
    {D J A : Type 0} ⦃d : Double D⦄ (json : Json J) (asio : Asio A) (argc : ℕ) (filename : String)
    → Option (Outcome D)
main json asio argc filename = if argc == 2 then start json asio filename else some exit_failure
