-- ===== src/World/Stops.antt =====
-- Where `World::MovePlayer` of game/world/world.cpp leaves a player, by the search of the first hit
-- of game/physics/collision.cpp.
use endless_peak_server.Shared.{◌%◌, ◌≡◌, ◌⊎◌, true, false, ◌&&◌, if◌then◌else◌, List}
use endless_peak_server.Double.{Double, IsOrdered}
use endless_peak_server.Swept.{Box, Tile, SweptData, no_hit}
use endless_peak_server.Collision.{find_collision_indices}
use endless_peak_server.Collision.Nearest.{IsFirst, OfSome, AllNotBefore}
use endless_peak_server.Player.{Player, GameConfig, box_of, set_vel, set_on_ground, move}

module _ {D : Type 0} ⦃d : Double D⦄ (o : IsOrdered D) (config : GameConfig)
    (tiles : List (Tile D)) where
  open d use {of_nat, eq, le, add, mul}

  -- A sweep of a box that finds the first hit, among the tiles in the way.
  abbrev pub FindsFirst : Box D → D → D → SweptData D → Type 0
  FindsFirst box vel_x vel_y s =
      let indices =
        find_collision_indices box config.tile config.grid_x (config.grid_y % 256) vel_x vel_y in
      IsFirst o box vel_x vel_y s
      × ((s ≡ no_hit) ⊎ OfSome o box vel_x vel_y s tiles indices)
      × AllNotBefore o box vel_x vel_y s.entry_time tiles indices

  -- From `p` to `q` along x, and from `q` to `r` along y.
  pub record Moved (p q r : Player D) (sx sy : SweptData D) : Type 0 where
    pub q_x : q.x ≡ add p.x (mul p.vel_x sx.entry_time)
    pub q_y : q.y ≡ add p.y (of_nat 0)
    pub r_x : r.x ≡ add q.x (of_nat 0)
    pub r_y : r.y ≡ add q.y (mul p.vel_y sy.entry_time)
    pub first_x : FindsFirst (box_of p) p.vel_x (of_nat 0) sx
    pub first_y : FindsFirst (box_of q) (of_nat 0) p.vel_y sy
    pub vel_x :
        r.vel_x
        ≡ (if sy.hit then mul p.vel_x sx.entry_time else if sx.hit then of_nat 0 else p.vel_x)
    pub vel_y : r.vel_y ≡ (if sy.hit then of_nat 0 else p.vel_y)
    pub on_ground : r.on_ground ≡ (sy.hit && le (of_nat 0) (mul p.vel_y sy.entry_time))

  after_x : D → D → Player D → SweptData D → Player D
  after_x vel_x vel_y p s =
      let moved = move (mul vel_x s.entry_time) (of_nat 0) p in
      if s.hit then set_vel (of_nat 0) vel_y moved else moved

  after_y : D → D → Player D → SweptData D → Player D
  after_y vel_x vel_y p s =
      let moved = set_on_ground false (move (of_nat 0) (mul vel_y s.entry_time) p) in
      if s.hit
      then set_vel vel_x (of_nat 0)
          (if le (of_nat 0) (mul vel_y s.entry_time) then set_on_ground true moved else moved)
      else moved
