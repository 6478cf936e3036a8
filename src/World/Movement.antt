-- ===== src/World/Movement.antt =====
-- When a movement of `World::MovePlayer` returns, and what it leaves alone.
use endless_peak_server.Shared.{
  ◌*◌, ◌%◌, ◌≤◌, ◌≡◌, refl, ◌∙◌, true, false, if◌then◌else◌, List, some, length, arith, Bool-cases,
  inl, inr,
}
use endless_peak_server.Double.{Double}
use endless_peak_server.Swept.{Tile}
use endless_peak_server.Collision.Bounds.{IsGrid, swept_axis_total}
use endless_peak_server.Player.{Player, GameConfig, box_of, set_vel, set_on_ground, move}
use endless_peak_server.World.{ServerPacket, move_x, move_y, move_player_by, update, move_packet}

module _ {D : Type 0} ⦃d : Double D⦄ (config : GameConfig) (tiles : List (Tile D)) where
  open d use {of_nat, eq, add, mul, gravity}

  -- The grid fits the types that `SweptAxis` takes, once `grid_y` is cut to 8 bits, and the map
  -- covers it.
  pub record IsCovered : Type 0 where
    pub grid : IsGrid config.grid_x (config.grid_y % 256)
    pub enough : config.grid_x * (config.grid_y % 256) ≤ length tiles

  move_x_total :
      IsCovered
      → (p : Player D) (vel_x vel_y : D)
      → (r : D × Player D) × (move_x config tiles p vel_x vel_y ≡ some r) × (r.1.id ≡ p.id)
  unfolding move_x move set_vel
  move_x_total c p vel_x vel_y =
      let (s, e) =
        swept_axis_total (box_of p) config.tile config.grid_x (config.grid_y % 256) tiles vel_x
          (of_nat 0) c.grid c.enough in
      let moved = move (mul vel_x s.entry_time) (of_nat 0) p in
      (
        (mul vel_x s.entry_time, if s.hit then set_vel (of_nat 0) vel_y moved else moved),
        rw e,
        ground arith,
      )

  move_y_total :
      IsCovered
      → (p : Player D) (vel_x vel_y : D)
      → (r : Player D) × (move_y config tiles p vel_x vel_y ≡ some r) × (r.id ≡ p.id)
  unfolding move_y move set_vel set_on_ground
  move_y_total c p vel_x vel_y =
      let (s, e) =
        swept_axis_total (box_of p) config.tile config.grid_x (config.grid_y % 256) tiles (of_nat 0)
          vel_y c.grid c.enough in
      let vel_y' = mul vel_y s.entry_time in
      let moved = set_on_ground false (move (of_nat 0) vel_y' p) in
      (
        (if s.hit
            then set_vel vel_x (of_nat 0)
                (if d.le (of_nat 0) vel_y' then set_on_ground true moved else moved)
            else moved),
        rw e,
        ground arith,
      )

  pub move_player_by_total :
      IsCovered
      → (p : Player D) → (r : Player D) × (move_player_by config tiles p ≡ some r) × (r.id ≡ p.id)
  unfolding move_player_by
  move_player_by_total c p =
      let (rx, ex, ix) = move_x_total c p p.vel_x p.vel_y in
      let (ry, ey, iy) = move_y_total c rx.1 rx.0 p.vel_y in
      let (rz, ez, iz) = move_y_total c p p.vel_x p.vel_y in
      elim (Bool-cases (eq p.vel_x (of_nat 0))) [
        | inl still_x ↦ elim (Bool-cases (eq p.vel_y (of_nat 0))) [
          | inl still_y ↦ (p, rw (still_x, still_y), refl)
          | inr moves_y ↦ (rz, rw (still_x, moves_y, ez), iz)
        ]
        | inr moves_x ↦ elim (Bool-cases (eq p.vel_y (of_nat 0))) [
          | inl still_y ↦ (rx.1, rw (moves_x, ex, still_y), ix)
          | inr moves_y ↦ (ry, rw (moves_x, ex, moves_y, ey), iy ∙ ix)
        ]
      ]

  -- `Update` of a player on a map that covers the grid returns, under the player's identifier.
  pub update_total :
      IsCovered
      → (dt : D) (p : Player D)
      → (r : Player D × ServerPacket) × (update config tiles dt p ≡ some r) × (r.0.id ≡ p.id)
  unfolding update set_vel
  update_total c dt p =
      let started = record p { vel_y = add p.vel_y (mul gravity dt) } in
      let (r, e, i) = move_player_by_total c started in ((r, move_packet r), rw e, i)
