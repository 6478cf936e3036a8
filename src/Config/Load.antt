-- ===== src/Config/Load.antt =====
-- `Config` of shared/config/config.hpp and config.cpp, over the JSON library and the files as a
-- parameter. `none` is an exception that leaves the constructor, or a read out of bounds.
use Prim.Native.String.{String}
use endless_peak_server.Shared.{ℕ, ◌%◌, ◌^◌, List, Option, none, some, ◌>>=◌}
use endless_peak_server.Player.{PlayerConfig, GameConfig}
use endless_peak_server.Config.{copy_map, print_map}

-- `J` is `nlohmann::json`. `file` reads and parses a file, `config_file` one in the folder `config`
-- of the working directory. `at` is `operator[]`: null under a missing key, an exception on what is
-- no object. The last three are the conversions, which throw at another type: `number` gives the
-- stored integer modulo 2 ^ 64, of which an assignment takes the low bits.
pub record Json (J : Type 0) : Type 0 where
  pub file : String → Option J
  pub config_file : String → Option J
  pub at : J → String → Option J
  pub number : J → Option ℕ
  pub numbers : J → Option (List ℕ)
  pub text : J → Option String

pub record NetConfig : Type 0 where
  pub ip : String
  pub port : ℕ
  pub io_threads : ℕ
  pub net_threads : ℕ

pub record AccountsDbConfig : Type 0 where
  pub db_name : String
  pub host : String
  pub user : String
  pub password : String
  pub table_name : String

pub record Config : Type 0 where
  pub net_config : NetConfig
  pub game_config : GameConfig
  pub accounts_db_config : AccountsDbConfig

pub record Grid : Type 0 where
  pub grid_x : ℕ
  pub grid_y : ℕ
  pub tile : ℕ
  pub cells : List ℕ

module _ {J : Type 0} (json : Json J) where
  open json use {file, config_file, at, number, numbers, text}

  -- The assignment of `section[key]` to an unsigned integer of `w` bits, and to a string.
  abbrev pub uint : ℕ → J → String → Option ℕ
  uint w section key = at section key >>= λ v. number v >>= λ n. some (n % 2 ^ w)

  abbrev pub string : J → String → Option String
  string section key = at section key >>= text

  -- `config_data[key]` of the file.
  abbrev pub file_section : String → String → Option J
  file_section filename key = file filename >>= λ config_data. at config_data key

  unfoldable pub init_net_config : String → Option NetConfig
  init_net_config filename = do
    server ← file_section filename "server"
    ip ← string server "ip"
    port ← uint 16 server "port"
    io_threads ← uint 8 server "io_threads"
    net_threads ← uint 8 server "net_threads"
    some (record { ip = ip; port = port; io_threads = io_threads; net_threads = net_threads })

  unfoldable pub init_player_config : String → Option PlayerConfig
  init_player_config player = do
    player_data ← config_file player
    type ← at player_data "type"
    default ← at type "default"
    width ← uint 8 default "width"
    height ← uint 8 default "height"
    player_start_x ← uint 16 default "player_start_x"
    player_start_y ← uint 16 default "player_start_y"
    player_offset ← uint 16 default "player_offset"
    some (record {
      width = width;
      height = height;
      player_start_x = player_start_x;
      player_start_y = player_start_y;
      player_offset = player_offset;
    })

  -- The fields that are read from the file of the map.
  unfoldable pub init_grid : J → Option Grid
  init_grid map_data = do
    grid_x ← uint 16 map_data "grid_x"
    grid_y ← uint 16 map_data "grid_y"
    tile ← uint 8 map_data "tile"
    tmp ← (at map_data "map" >>= numbers)
    cells ← copy_map grid_x grid_y tmp
    some (record { grid_x = grid_x; grid_y = grid_y; tile = tile; cells = cells })

  unfoldable pub init_game_config : String → Option GameConfig
  init_game_config filename = do
    game ← file_section filename "game"
    tick_rate ← uint 8 game "tick_rate"
    game_threads ← uint 8 game "game_threads"
    map_name ← string game "map"
    map_data ← config_file map_name
    grid ← init_grid map_data
    player_name ← string game "player"
    player ← init_player_config player_name
    printed ← print_map grid.cells
    some (record {
      tick_rate = tick_rate;
      game_threads = game_threads;
      tile = grid.tile;
      grid_x = grid.grid_x;
      grid_y = grid.grid_y;
      map = grid.cells;
      player = player;
    })

  unfoldable pub init_accounts_db_config : String → Option AccountsDbConfig
  init_accounts_db_config filename = do
    db ← file_section filename "db"
    db_name ← string db "db_name"
    host ← string db "host"
    user ← string db "user"
    password ← string db "password"
    tables ← at db "tables"
    table_name ← string tables "accounts_table"
    some (record {
      db_name = db_name;
      host = host;
      user = user;
      password = password;
      table_name = table_name;
    })

  unfoldable pub load_config : String → Option Config
  load_config filename = do
    net_config ← init_net_config filename
    game_config ← init_game_config filename
    accounts_db_config ← init_accounts_db_config filename
    some (record {
      net_config = net_config;
      game_config = game_config;
      accounts_db_config = accounts_db_config;
    })

  instance_of : String → Option Config → Option (Config × Option Config)
  instance_of filename none = load_config filename >>= λ config. some (config, some config)
  instance_of filename (some config) = some (config, some config)

  -- `Config::GetInstance` with its static object, which stays unset when the constructor throws.
  unfoldable pub get_instance : String → Option Config → Option (Config × Option Config)
  unfolding instance_of
  get_instance filename config = instance_of filename config
