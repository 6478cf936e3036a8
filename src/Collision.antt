-- ===== src/Collision.antt =====
-- `Collision` of game/physics/collision.hpp and collision.cpp.
use Prim.Native.Nat.{max, min}
use endless_peak_server.Shared.{
  ℕ, zero, suc, ◌+◌, ◌-◌, ◌*◌, ◌%◌, ◌^◌, Bool, true, false, ◌&&◌, if◌then◌else◌, ltb, List, [], ◌∷◌,
  ◌++◌, Option, none, some, ◌>>=◌, get_elem?, sub64, flatten, map,
}
use endless_peak_server.Double.{Double}
use endless_peak_server.Swept.{
  Box, Tile, TileType, empty, solid, default_tile, new_tile, get_type, SweptData, swept_aabb,
  no_hit,
}
pub mod Bounds
pub mod Ascending
pub mod Nearest

counted : ℕ → ℕ → List ℕ
counted zero lo = []
counted (suc n) lo = lo ∷ counted n (lo + 1)

-- The values of a loop `for (i = lo; i <= hi; i++)`, for `hi` below the largest `std::size_t`.
unfoldable pub upto : ℕ → ℕ → List ℕ
unfolding counted
upto lo hi = counted (hi + 1 - lo) lo

-- The rows of the double loop. A `std::set` keeps what is inserted in ascending order.
unfoldable pub tiles_in : ℕ → ℕ → ℕ → ℕ → ℕ → List ℕ
tiles_in grid_x left top right bottom =
    flatten (map (λ y. map (λ x. (y * grid_x + x) % 2 ^ 64) (upto left right)) (upto top bottom))

module _ {D : Type 0} ⦃d : Double D⦄ where
  open d use {of_nat, add, div, floor, fmin, fmax, lt, eq, to_size}

  -- `tile` and `grid_y` are `uint8_t`, `grid_x` is `uint16_t`.
  unfoldable pub find_collision_indices : Box D → ℕ → ℕ → ℕ → D → D → List ℕ
  find_collision_indices box tile grid_x grid_y vel_x vel_y =
      let start_left = box.x in
      let start_top = box.y in
      let start_right = add box.x (of_nat box.width) in
      let start_bottom = add box.y (of_nat box.height) in
      let end_left = add start_left vel_x in
      let end_top = add start_top vel_y in
      let end_right = add start_right vel_x in
      let end_bottom = add start_bottom vel_y in
      let bb_left = floor (div (fmin start_left end_left) (of_nat tile)) in
      let bb_top = floor (div (fmin start_top end_top) (of_nat tile)) in
      let bb_right = floor (div (fmax start_right end_right) (of_nat tile)) in
      let bb_bottom = floor (div (fmax start_bottom end_bottom) (of_nat tile)) in
      let tile_left = max 0 (to_size bb_left) in
      let tile_top = max 0 (to_size bb_top) in
      let tile_right = min (sub64 grid_x 1) (to_size bb_right) in
      let tile_bottom = min (sub64 grid_y 1) (to_size bb_bottom) in
      if eq vel_x (of_nat 0) && eq vel_y (of_nat 0)
      then []
      else tiles_in grid_x tile_left tile_top tile_right tile_bottom

  nearer : SweptData D → SweptData D → SweptData D
  nearer res tmp = if lt tmp.entry_time res.entry_time then tmp else res

  meet : Box D → D → D → SweptData D → Tile D → SweptData D
  unfolding nearer
  meet box vel_x vel_y res default_tile = res
  meet box vel_x vel_y res (new_tile other empty) = res
  meet box vel_x vel_y res (new_tile other solid) = nearer res (swept_aabb box other vel_x vel_y)

  -- The loop over the indices; `none` is a read outside the map.
  unfoldable pub sweep : List ℕ → List (Tile D) → Box D → D → D → SweptData D → Option (SweptData D)
  unfolding meet
  sweep [] tiles box vel_x vel_y res = some res
  sweep (i ∷ rest) tiles box vel_x vel_y res =
      get_elem? tiles i >>= λ t. sweep rest tiles box vel_x vel_y (meet box vel_x vel_y res t)

  unfoldable pub swept_axis : Box D → ℕ → ℕ → ℕ → List (Tile D) → D → D → Option (SweptData D)
  swept_axis box tile grid_x grid_y tiles vel_x vel_y =
      sweep (find_collision_indices box tile grid_x grid_y vel_x vel_y) tiles box vel_x vel_y no_hit
