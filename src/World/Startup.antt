-- ===== src/World/Startup.antt =====
-- The world that the constructor builds from a configuration.
use native.Mathlib.Nat.{mod-le}
use endless_peak_server.Shared.{
  ℕ, zero, suc, ◌+◌, ◌*◌, ◌%◌, ◌^◌, ◌<◌, int_mul-fits, ◌≤◌, ◌≡◌, refl, ap, List, [], ◌∷◌, Option,
  some, ◌>>=◌, length, arith,
}
use endless_peak_server.Double.{Double}
use endless_peak_server.Swept.{Tile}
use endless_peak_server.Collision.Bounds.{IsGrid, get_elem?-some}
use endless_peak_server.Player.{GameConfig}
use endless_peak_server.Queue.{new_queue}
use endless_peak_server.World.{World, tile_at, tiles_from, init_tiles}
use endless_peak_server.World.Movement.{IsCovered}

module _ {D : Type 0} ⦃d : Double D⦄ (config : GameConfig) where
  tiles_from_total :
      (n i : ℕ)
      → i + n ≤ length config.map
      → (tiles : List (Tile D)) × (tiles_from config n i ≡ some tiles) × (length tiles ≡ n)
  unfolding tiles_from
  tiles_from_total zero i h = ([], refl, refl)
  tiles_from_total (suc n) i h =
      let (cell, found) = get_elem?-some config.map i (omega arith) in
      let (rest, made, size) = tiles_from_total n (i + 1) (omega arith) in
      (tile_at config i cell ∷ rest, rw (found, made), ap suc size)

  -- From a map of at least the grid's size, which is less than `2 ^ 31`, with a grid that is not empty and whose number of rows
  -- is not 0 modulo 256, the constructor returns a tile for each cell, and the tiles cover the grid
  -- that movements look at.
  pub init_tiles-IsCovered :
      config.grid_x * config.grid_y < 2 ^ 31
      → config.grid_x * config.grid_y ≤ length config.map
      → IsGrid config.grid_x (config.grid_y % 256)
      → (tiles : List (Tile D)) × (init_tiles config ≡ some tiles)
        × (length tiles ≡ config.grid_x * config.grid_y)
        × IsCovered config tiles
  unfolding init_tiles
  init_tiles-IsCovered area enough grid =
      let (tiles, made, size) = tiles_from_total (config.grid_x * config.grid_y) 0 (omega arith) in
      let rows : config.grid_y % 256 ≤ config.grid_y = mod-le config.grid_y 256 in
      (
        tiles,
        rw (int_mul-fits config.grid_x config.grid_y area) made,
        size,
        record { grid = grid; enough = grind (arith, size, rows) },
      )

  -- The constructor, with empty queues of the subsystems.
  unfoldable pub new_world : Option (World D)
  new_world = init_tiles config >>= λ tiles. some (record {
    config = config;
    players = [];
    tiles = tiles;
    net_in = new_queue;
    net_out = new_queue;
    game_in = new_queue;
    game_out = new_queue;
  })
