-- ===== src/Swept.antt =====
-- `IBox` and `Tile` of game/tile, and `SweptAABB` of game/physics/swept_math.hpp and swept_math.cpp.
use endless_peak_server.Shared.{ℕ, Bool, true, false, ◌&&◌, ◌||◌, if◌then◌else◌, Option, none, some}
use endless_peak_server.Double.{Double}
pub mod Times

pub record Box (D : Type 0) : Type 0 where
  pub x : D
  pub y : D
  pub width : ℕ
  pub height : ℕ

pub data TileType : Type 0 where
  empty solid : TileType

-- `Tile()` leaves the box indeterminate.
pub data Tile (D : Type 0) : Type 0 where
  default_tile : Tile D
  new_tile : Box D → TileType → Tile D

unfoldable pub get_type : {D : Type 0} → Tile D → TileType
get_type default_tile = empty
get_type (new_tile box t) = t

-- The normals are `uint8_t`.
pub record SweptData (D : Type 0) : Type 0 where
  pub entry_time : D
  pub normal_x : ℕ
  pub normal_y : ℕ
  pub hit : Bool

module _ {D : Type 0} ⦃d : Double D⦄ where
  open d use {of_nat, infinity, neg, add, sub, div, fmin, fmax, lt, le, eq}

  abbrev pub no_hit : SweptData D
  no_hit = record { entry_time = of_nat 1; normal_x = 0; normal_y = 0; hit = false }

  -- The distances to entry and to exit along one axis; `none` is the early return.
  unfoldable pub axis_distances : D → D → ℕ → D → ℕ → Option (D × D)
  axis_distances vel p1 size1 p2 size2 =
      if lt (of_nat 0) vel
      then some (sub p2 (add p1 (of_nat size1)), sub (add p2 (of_nat size2)) p1)
      else if lt vel (of_nat 0)
      then some (sub (add p2 (of_nat size2)) p1, sub p2 (add p1 (of_nat size1)))
      else if le (add p1 (of_nat size1)) p2 || le (add p2 (of_nat size2)) p1
      then none
      else some (neg infinity, infinity)

  unfoldable pub axis_time : D → D → D
  axis_time vel distance = if eq vel (of_nat 0) then distance else div distance vel

  -- `vel > 0 ? -1 : 1`, converted to `uint8_t`.
  unfoldable pub normal : D → ℕ
  normal vel = if lt (of_nat 0) vel then 255 else 1

  -- From the entry and exit times of both axes on.
  unfoldable pub resolve : D → D → D → D → D → D → SweptData D
  unfolding normal
  resolve vel_x vel_y x_entry x_exit y_entry y_exit =
      let entry_time = fmax x_entry y_entry in
      let exit_time = fmin x_exit y_exit in
      if lt exit_time entry_time || (lt entry_time (of_nat 0) || lt (of_nat 1) entry_time)
      then no_hit
      else if lt y_entry x_entry
      then record { entry_time = entry_time; normal_x = normal vel_x; normal_y = 0; hit = true }
      else record { entry_time = entry_time; normal_x = 0; normal_y = normal vel_y; hit = true }

  unfoldable pub swept_aabb : Box D → Box D → D → D → SweptData D
  swept_aabb box1 box2 vel_x vel_y =
      if eq vel_x (of_nat 0) && eq vel_y (of_nat 0)
      then no_hit
      else elim (axis_distances vel_x box1.x box1.width box2.x box2.width) [
        | none ↦ no_hit
        | some (x_in, x_out) ↦ elim (axis_distances vel_y box1.y box1.height box2.y box2.height) [
          | none ↦ no_hit
          | some (y_in, y_out) ↦
              resolve vel_x vel_y (axis_time vel_x x_in) (axis_time vel_x x_out)
                (axis_time vel_y y_in) (axis_time vel_y y_out)
        ]
      ]
