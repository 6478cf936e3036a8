-- ===== src/World.antt =====
-- `World` of game/world/world.hpp and world.cpp, with the `ServerPacket` of
-- shared/protocol/server_packet.hpp and the queues of shared/subsystems. A function returns `none`
-- where the code dereferences a null pointer, reads outside the map, or multiplies the sizes of the
-- grid to an `int` that overflows.
use endless_peak_server.Shared.{
  ℕ, zero, suc, ◌+◌, ◌*◌, ◌%◌, ◌^◌, Bool, true, false, not, ◌&&◌, if◌then◌else◌, ◌==◌, List, [],
  ◌∷◌, ◌++◌, Option, none, some, ◌>>=◌, get_elem?, length, sub64, int_mul, map,
}
use endless_peak_server.Double.{Double}
use endless_peak_server.Queue.{TsQueue, push, try_pop, empty, size, ts_swap}
use endless_peak_server.Packet.{
  NetPacket, Opcodes, create_player, spawn_players, move_left, move_right, jump, move_player,
  add_player, remove_player, to_uint16, to_opcode, empty_packet, set_head_opcode, insert,
  get_head_opcode, create_player_packet, add_player_packet, remove_player_packet,
  move_player_packet,
}
use endless_peak_server.Swept.{Box, Tile, TileType, solid, default_tile, new_tile, SweptData}
use endless_peak_server.Collision.{swept_axis}
use endless_peak_server.Player.{
  Player, GameConfig, box_of, set_vel, set_on_ground, new_player, move,
}
pub mod Players
pub mod Movement
pub mod Inputs
pub mod Faults
pub mod Loop
pub mod Answers
pub mod Frames
pub mod Ticks
pub mod Spawn
pub mod Removed
pub mod Startup
pub mod Rounds
pub mod Protocol
pub mod Played
pub mod Roster
pub mod Census
pub mod Stops

pub data PacketType : Type 0 where
  broadcast rpc rpc_others : PacketType

pub record ServerPacket : Type 0 where
  pub packet : NetPacket
  pub id : ℕ
  pub type : PacketType

-- `players_`: an entry may hold a null pointer. The order of the list is the order of iteration.
abbrev pub PlayerMap : Type 0 → Type 0
PlayerMap D = List (ℕ × Option (Player D))

pub record World (D : Type 0) : Type 0 where
  pub config : GameConfig
  pub players : PlayerMap D
  pub tiles : List (Tile D)
  pub net_in : TsQueue ServerPacket
  pub net_out : TsQueue ServerPacket
  pub game_in : TsQueue ServerPacket
  pub game_out : TsQueue ServerPacket

module _ {D : Type 0} where
  -- `players_.find`.
  unfoldable pub find : ℕ → PlayerMap D → Option (Option (Player D))
  find id [] = none
  find id ((k, p) ∷ rest) = if k == id then some p else find id rest

  -- `players_[id] = p`.
  unfoldable pub assign : ℕ → Option (Player D) → PlayerMap D → PlayerMap D
  assign id p [] = (id, p) ∷ []
  assign id p ((k, q) ∷ rest) = if k == id then (k, p) ∷ rest else (k, q) ∷ assign id p rest

  -- `players_.erase(id)`. A key stands once in the map.
  unfoldable pub erase : ℕ → PlayerMap D → PlayerMap D
  erase id [] = []
  erase id ((k, q) ∷ rest) = let rest' = erase id rest in if k == id then rest' else (k, q) ∷ rest'

  subscripted : ℕ → PlayerMap D → Option (Option (Player D)) → Option (Player D) × PlayerMap D
  subscripted id players none = (none, assign id none players)
  subscripted id players (some p) = (p, players)

  -- `players_[id]`, which inserts a null pointer under a missing key.
  unfoldable pub subscript : ℕ → PlayerMap D → Option (Player D) × PlayerMap D
  unfolding subscripted
  subscript id players = subscripted id players (find id players)

module _ {D : Type 0} ⦃d : Double D⦄ where
  open d use {of_nat, gravity, neg, add, mul, lt, le, eq, bits}

  -- The constructor's loops: row by row, a solid tile where the map is not 0.
  pub tile_at : GameConfig → ℕ → ℕ → Tile D
  tile_at config i cell =
      let x = i % config.grid_x in
      let y = Prim.Native.Nat.◌/◌ i config.grid_x in
      if cell == 0
      then default_tile
      else new_tile
          (record {
            x = mul (of_nat x) (of_nat config.tile);
            y = mul (of_nat y) (of_nat config.tile);
            width = config.tile;
            height = config.tile;
          })
          solid

  unfoldable pub tiles_from : GameConfig → ℕ → ℕ → Option (List (Tile D))
  tiles_from config zero i = some []
  tiles_from config (suc n) i = get_elem? config.map i >>= λ cell.
      tiles_from config n (i + 1) >>= λ rest. some (tile_at config i cell ∷ rest)

  unfoldable pub init_tiles : GameConfig → Option (List (Tile D))
  unfolding tile_at tiles_from
  init_tiles config = int_mul config.grid_x config.grid_y >>= λ n. tiles_from config n 0

  -- The two fields of a moving player that a collision along x changes.
  unfoldable pub move_x : GameConfig → List (Tile D) → Player D → D → D → Option (D × Player D)
  move_x config tiles p vel_x vel_y =
      swept_axis (box_of p) config.tile config.grid_x (config.grid_y % 256) tiles vel_x (of_nat 0)
      >>= λ swept.
          let vel_x' = mul vel_x swept.entry_time in
          let moved = move vel_x' (of_nat 0) p in
          some (vel_x', if swept.hit then set_vel (of_nat 0) vel_y moved else moved)

  unfoldable pub move_y : GameConfig → List (Tile D) → Player D → D → D → Option (Player D)
  move_y config tiles p vel_x vel_y =
      swept_axis (box_of p) config.tile config.grid_x (config.grid_y % 256) tiles (of_nat 0) vel_y
      >>= λ swept.
          let vel_y' = mul vel_y swept.entry_time in
          let moved = set_on_ground false (move (of_nat 0) vel_y' p) in
          some (
            if swept.hit
            then set_vel vel_x (of_nat 0)
                (if le (of_nat 0) vel_y' then set_on_ground true moved else moved)
            else moved)

  -- `World::MovePlayer`.
  unfoldable pub move_player_by : GameConfig → List (Tile D) → Player D → Option (Player D)
  move_player_by config tiles p =
      let vel_x = p.vel_x in
      let vel_y = p.vel_y in
      (if eq vel_x (of_nat 0) then some (vel_x, p) else move_x config tiles p vel_x vel_y) >>= λ r.
      if eq vel_y (of_nat 0) then some r.1 else move_y config tiles r.1 r.0 vel_y

  abbrev pub move_packet : Player D → ServerPacket
  move_packet p = record {
    packet = move_player_packet p.id (bits p.x) (bits p.y);
    id = p.id;
    type = broadcast;
  }

  -- `World::Update`: the player after it, and the packet that it queues.
  unfoldable pub update :
      GameConfig → List (Tile D) → D → Player D → Option (Player D × ServerPacket)
  update config tiles dt p =
      move_player_by config tiles (set_vel p.vel_x (add p.vel_y (mul gravity dt)) p) >>= λ p'.
      some (p', move_packet p')

  -- The fields of one player in the packet for a new one.
  unfoldable pub insert_player : Player D → NetPacket → NetPacket
  insert_player p packet =
      insert 1 p.height
        (insert 1 p.width (insert 8 (bits p.y) (insert 8 (bits p.x) (insert 8 p.id packet))))

  -- The loop over `players_`, without the new player.
  unfoldable pub insert_others : ℕ → PlayerMap D → NetPacket → Option NetPacket
  insert_others id [] packet = some packet
  insert_others id ((k, none) ∷ rest) packet =
      if k == id then insert_others id rest packet else none
  insert_others id ((k, some p) ∷ rest) packet =
      insert_others id rest (if k == id then packet else insert_player p packet)

  unfoldable pub spawn_packet : ℕ → PlayerMap D → Option NetPacket
  spawn_packet id players =
      insert_others id players (
        insert 8 (sub64 (length players) 1)
          (set_head_opcode (to_uint16 spawn_players) empty_packet))

  -- The packets of `World::AddPlayer`, in the order of the three `Push` calls.
  unfoldable pub announce : Player D → NetPacket → World D → World D
  announce p spawn w =
      let created = create_player_packet p.id (bits p.x) (bits p.y) p.width p.height in
      let added = add_player_packet p.id (bits p.x) (bits p.y) p.width p.height in
      record w {
        game_out =
            push (record { packet = added; id = p.id; type = rpc_others })
              (push (record { packet = spawn; id = p.id; type = rpc })
                (push (record { packet = created; id = p.id; type = rpc }) w.game_out));
      }

  -- `World::AddPlayer`.
  unfoldable pub add_player_to : Player D → World D → Option (World D)
  unfolding announce
  add_player_to p w =
      let players = assign p.id (some p) w.players in
      spawn_packet p.id players >>= λ spawn.
      some (announce p spawn (record w { players = players }))

  -- `World::RemovePlayer`.
  unfoldable pub remove_player_from : ℕ → World D → World D
  remove_player_from id w = record w {
    players = erase id w.players;
    game_out =
        push (record { packet = remove_player_packet id; id = id; type = broadcast }) w.game_out;
  }

  unfoldable pub player_numbers : World D → ℕ
  player_numbers w = length w.players
