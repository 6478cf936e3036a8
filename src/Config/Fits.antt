-- ===== src/Config/Fits.antt =====
-- What every configuration that was loaded satisfies.
use Prim.Native.String.{String}
use endless_peak_server.Shared.{
  ℕ, zero, suc, ◌+◌, ◌*◌, ◌^◌, ◌≤◌, ◌<◌, ◌≡◌, refl, sym, List, some, ◌>>=◌, length, All, int_mul,
  int_mul-some, arith, >>=-eq-some, get_elem?, some-ne-none, ap, ◌∙◌, subst,
}
use mathlib.Core.Option.{some-injective}
use native.Mathlib.Nat.{mod-lt}
use native.Mathlib.Decide.{dec_lt}
use endless_peak_server.Player.{GameConfig, PlayerConfig}
use endless_peak_server.Config.{copy_from, copy_map, print_map}
use endless_peak_server.Config.Map.{print_from-none}
use endless_peak_server.Config.Load.{
  Json, init_game_config, init_player_config, uint, string, file_section, Grid, init_grid,
}

-- A copy has the asked length, and bytes.
abbrev Copied : ℕ → List ℕ → Type 0
Copied n cells = (length cells ≡ n) × All (λ v. v < 256) cells

copy_from-Copied : (n i : ℕ) (tmp cells : List ℕ) → copy_from n i tmp ≡ some cells → Copied n cells
unfolding copy_from
copy_from-Copied zero i tmp cells e = subst (Copied 0) (some-injective _ _ e) (refl, tt)
copy_from-Copied (suc n) i tmp cells e =
    let (v, e1, e2) = >>=-eq-some (get_elem? tmp i) _ e in
    let (rest, e3, e4) = >>=-eq-some (copy_from n (i + 1) tmp) _ e2 in
    let (size, bytes) = copy_from-Copied n (i + 1) tmp rest e3 in
    subst (Copied (suc n)) (some-injective _ _ e4) (ap suc size, (omega arith, bytes))

print_map-length : (cells printed : List ℕ) → print_map cells ≡ some printed → 625 ≤ length cells
unfolding print_map
print_map-length cells printed e = elim (dec_lt (length cells) 625) [
  | no long ↦ omega arith
  | yes short ↦
      absurd
        (some-ne-none printed (sym e ∙ print_from-none 625 0 cells (omega arith) (omega arith)))
]

pub record FitsPlayer (p : PlayerConfig) : Type 0 where
  pub width : p.width < 256
  pub height : p.height < 256
  pub start_x : p.player_start_x < 2 ^ 16
  pub start_y : p.player_start_y < 2 ^ 16
  pub offset : p.player_offset < 2 ^ 16

pub record FitsGrid (g : Grid) : Type 0 where
  pub tile : g.tile < 256
  pub grid_x : g.grid_x < 2 ^ 16
  pub grid_y : g.grid_y < 2 ^ 16
  pub area : g.grid_x * g.grid_y < 2 ^ 31
  pub cells : length g.cells ≡ g.grid_x * g.grid_y
  pub bytes : All (λ v. v < 256) g.cells

-- Each number fits its type, and the map has a byte for each cell of the grid, at least 625 and less
-- than `2 ^ 31`.
pub record FitsTypes (c : GameConfig) : Type 0 where
  pub tick_rate : c.tick_rate < 256
  pub game_threads : c.game_threads < 256
  pub tile : c.tile < 256
  pub grid_x : c.grid_x < 2 ^ 16
  pub grid_y : c.grid_y < 2 ^ 16
  pub player : FitsPlayer c.player
  pub area : c.grid_x * c.grid_y < 2 ^ 31
  pub cells : length c.map ≡ c.grid_x * c.grid_y
  pub bytes : All (λ v. v < 256) c.map
  pub printed : 625 ≤ c.grid_x * c.grid_y

module _ {J : Type 0} (json : Json J) where
  init_player_config-FitsPlayer :
      (player : String) (p : PlayerConfig) → init_player_config json player ≡ some p → FitsPlayer p
  unfolding init_player_config
  init_player_config-FitsPlayer player p e = ground arith

  uint-lt :
      (w : ℕ) (section : J) (key : String) (n : ℕ)
      → 0 < 2 ^ w
      → uint json w section key ≡ some n
      → n < 2 ^ w
  uint-lt w section key n p e =
      let (v, _, e1) = >>=-eq-some (json.at section key) _ e in
      let (m, _, e2) = >>=-eq-some (json.number v) _ e1 in
      subst (λ k. k < 2 ^ w) (some-injective _ _ e2) (mod-lt m p)

  init_grid-FitsGrid : (map_data : J) (g : Grid) → init_grid json map_data ≡ some g → FitsGrid g
  unfolding init_grid copy_map
  init_grid-FitsGrid map_data g e =
      let (grid_x, e3, e) = >>=-eq-some (uint json 16 map_data "grid_x") _ e in
      let (grid_y, e4, e) = >>=-eq-some (uint json 16 map_data "grid_y") _ e in
      let (tile, e5, e) = >>=-eq-some (uint json 8 map_data "tile") _ e in
      let (tmp, _, e) = >>=-eq-some (json.at map_data "map" >>= json.numbers) _ e in
      let (cells, e6, e) = >>=-eq-some (copy_map grid_x grid_y tmp) _ e in
      let (n, e7, e8) = >>=-eq-some (int_mul grid_x grid_y) _ e6 in
      let (same, area) = int_mul-some grid_x grid_y n e7 in
      let (size, bytes) = copy_from-Copied n 0 tmp cells e8 in
      subst FitsGrid (some-injective _ _ e) (record {
        tile = uint-lt 8 map_data "tile" tile (omega arith) e5;
        grid_x = uint-lt 16 map_data "grid_x" grid_x (omega arith) e3;
        grid_y = uint-lt 16 map_data "grid_y" grid_y (omega arith) e4;
        area = area;
        cells = size ∙ same;
        bytes = bytes;
      })

  -- A game configuration that was loaded fits its types.
  pub init_game_config-FitsTypes :
      (filename : String) (c : GameConfig) → init_game_config json filename ≡ some c → FitsTypes c
  unfolding init_game_config
  init_game_config-FitsTypes filename c e =
      let (game, _, e) = >>=-eq-some (file_section json filename "game") _ e in
      let (tick_rate, e1, e) = >>=-eq-some (uint json 8 game "tick_rate") _ e in
      let (game_threads, e2, e) = >>=-eq-some (uint json 8 game "game_threads") _ e in
      let (map_name, _, e) = >>=-eq-some (string json game "map") _ e in
      let (map_data, _, e) = >>=-eq-some (json.config_file map_name) _ e in
      let (grid, e3, e) = >>=-eq-some (init_grid json map_data) _ e in
      let (player_name, _, e) = >>=-eq-some (string json game "player") _ e in
      let (player, e7, e) = >>=-eq-some (init_player_config json player_name) _ e in
      let (printed, e8, e) = >>=-eq-some (print_map grid.cells) _ e in
      let g = init_grid-FitsGrid map_data grid e3 in
      subst FitsTypes (some-injective _ _ e) (record {
        tick_rate = uint-lt 8 game "tick_rate" tick_rate (omega arith) e1;
        game_threads = uint-lt 8 game "game_threads" game_threads (omega arith) e2;
        tile = g.tile;
        grid_x = g.grid_x;
        grid_y = g.grid_y;
        player = init_player_config-FitsPlayer player_name player e7;
        area = g.area;
        cells = g.cells;
        bytes = g.bytes;
        printed = omega (arith, g.cells, print_map-length grid.cells printed e8);
      })
