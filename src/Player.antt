-- ===== src/Player.antt =====
-- `Player` of game/player/player.hpp and player.cpp, and the parts of `GameConfig` of
-- shared/config/config.hpp that the world reads.
use endless_peak_server.Shared.{ℕ, Bool, false, List}
use endless_peak_server.Double.{Double}
use endless_peak_server.Swept.{Box}

pub record Player (D : Type 0) : Type 0 where
  pub id : ℕ
  pub x : D
  pub y : D
  pub vel_x : D
  pub vel_y : D
  pub width : ℕ
  pub height : ℕ
  pub on_ground : Bool

pub record PlayerConfig : Type 0 where
  pub width : ℕ
  pub height : ℕ
  pub player_start_x : ℕ
  pub player_start_y : ℕ
  pub player_offset : ℕ

pub record GameConfig : Type 0 where
  pub tick_rate : ℕ
  pub game_threads : ℕ
  pub tile : ℕ
  pub grid_x : ℕ
  pub grid_y : ℕ
  pub map : List ℕ
  pub player : PlayerConfig

module _ {D : Type 0} where
  -- The player as an `IBox`.
  abbrev pub box_of : Player D → Box D
  box_of p = record { x = p.x; y = p.y; width = p.width; height = p.height }

  unfoldable pub set_vel : D → D → Player D → Player D
  set_vel vel_x vel_y p = record p { vel_x = vel_x; vel_y = vel_y }

  unfoldable pub set_on_ground : Bool → Player D → Player D
  set_on_ground state p = record p { on_ground = state }

module _ {D : Type 0} ⦃d : Double D⦄ where
  unfoldable pub new_player : ℕ → D → D → D → D → ℕ → ℕ → Player D
  new_player id x y vel_x vel_y width height = record {
    id = id;
    x = x;
    y = y;
    vel_x = vel_x;
    vel_y = vel_y;
    width = width;
    height = height;
    on_ground = false;
  }

  unfoldable pub move : D → D → Player D → Player D
  move dx dy p = record p { x = d.add p.x dx; y = d.add p.y dy }
