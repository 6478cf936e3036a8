-- ===== src/Tests/Game.antt =====
-- The world and its physics, as in game/world and game/physics, on whole numbers.
use endless_peak_server.Shared.{
  ℕ, ◌≡◌, refl, ◌⊎◌, inl, inr, List, [], ◌∷◌, none, some, length, All, sub64, arith, ◌==◌,
}
use endless_peak_server.Double.Coarse.{Coarse, fin, coarse_double, Coarse-IsOrdered}
use endless_peak_server.Bytes.{to_bytes, of_bytes, swap_endian}
use endless_peak_server.Queue.{new_queue}
use endless_peak_server.Packet.{
  NetPacket, Opcodes, opcode_packet, empty_packet, create_player, remove_player, jump,
  spawn_players, set_head_opcode, to_uint16, to_opcode, get_head_opcode,
}
use endless_peak_server.Packet.RoundTrip.{Field, extract_all, widths, values, sized}
use endless_peak_server.Swept.{
  no_hit, Box, Tile, default_tile, new_tile, solid, SweptData, swept_aabb,
}
use endless_peak_server.Swept.Times.{IsResult, swept_aabb-IsResult}
use endless_peak_server.Collision.{find_collision_indices, swept_axis}
use endless_peak_server.Collision.Ascending.{Above, set_of, set_of-find_collision_indices}
use endless_peak_server.Collision.Bounds.{IsGrid, swept_axis_total}
use endless_peak_server.Collision.Nearest.{IsFirst, OfSome, AllNotBefore, swept_axis-IsFirst}
use endless_peak_server.Player.{Player, set_vel, GameConfig, new_player}
use endless_peak_server.World.{
  World, PlayerMap, ServerPacket, broadcast, spawn_packet, insert_others, find,
}
use endless_peak_server.World.Loop.{start_player, tick}
use endless_peak_server.World.Players.{AllPresent, has}
use endless_peak_server.World.Ticks.{Ticked, tick_lem}
use endless_peak_server.World.Inputs.{Allowed, IsReady, tick_total}
use endless_peak_server.World.Rounds.{Round, game_loop}
use endless_peak_server.World.Protocol.{Ids, Follows, Knows, arrivals}
use endless_peak_server.World.Played.{game_loop_total}
use endless_peak_server.World.Removed.{removed_input_faults}
use endless_peak_server.World.Spawn.{others, spawn_fields, spawn_packet_lem}

abbrev whole : ℕ → Coarse
whole n = fin n 0

-- A box at the origin, and a wall of two tiles in its way.
abbrev mover : Box Coarse
mover = record { x = whole 0; y = whole 0; width = 10; height = 10 }

abbrev wall : Tile Coarse
wall = new_tile (record { x = whole 20; y = whole 0; width = 10; height = 10 }) solid

abbrev walls : List (Tile Coarse)
walls = default_tile ∷ default_tile ∷ wall ∷ default_tile ∷ default_tile ∷ wall ∷ []

small-IsGrid : IsGrid 3 2
small-IsGrid = record {
  x_pos = omega arith;
  x_fits = omega arith;
  y_pos = omega arith;
  y_fits = omega arith;
}

swept_aabb-IsResult_example : IsResult (
    swept_aabb mover
      (record { x = whole 12; y = whole 3; width = 10; height = 10 })
      (whole 2)
      (whole 0))
swept_aabb-IsResult_example =
    swept_aabb-IsResult mover (record { x = whole 12; y = whole 3; width = 10; height = 10 })
      (whole 2) (whole 0)

set_of-find_collision_indices_example :
    let found = find_collision_indices mover 10 3 2 (whole 15) (whole 0) in
    Above 0 found × (set_of found [] ≡ found)
set_of-find_collision_indices_example =
    set_of-find_collision_indices mover 10 3 2 (whole 15) (whole 0) small-IsGrid

swept : (s : SweptData Coarse) × (swept_axis mover 10 3 2 walls (whole 15) (whole 0) ≡ some s)
swept = swept_axis_total mover 10 3 2 walls (whole 15) (whole 0) small-IsGrid (omega arith)

swept_axis-IsFirst_example :
    IsFirst Coarse-IsOrdered mover (whole 15) (whole 0) swept.0
    × ((swept.0 ≡ no_hit)
        ⊎ OfSome Coarse-IsOrdered mover
            (whole 15)
            (whole 0)
            swept.0
            walls
            (find_collision_indices mover 10 3 2 (whole 15) (whole 0)))
    × AllNotBefore Coarse-IsOrdered mover
        (whole 15)
        (whole 0)
        swept.0.entry_time
        walls
        (find_collision_indices mover 10 3 2 (whole 15) (whole 0))
swept_axis-IsFirst_example =
    swept_axis-IsFirst Coarse-IsOrdered mover (whole 15) (whole 0) 10 3 2 walls swept.0 swept.1

abbrev config : GameConfig
config = record {
  tick_rate = 30;
  game_threads = 1;
  tile = 10;
  grid_x = 3;
  grid_y = 2;
  map = 0 ∷ 0 ∷ 1 ∷ 0 ∷ 0 ∷ 1 ∷ [];
  player = record {
    width = 8;
    height = 9;
    player_start_x = 0;
    player_start_y = 0;
    player_offset = 1;
  };
}

-- Player 1 stands in the world, and the given inputs wait.
abbrev pub world : List ServerPacket → World Coarse
world inputs = record {
  config = config;
  players = (1, some (start_player 1 config)) ∷ [];
  tiles = walls;
  net_in = record { items = inputs };
  net_out = new_queue;
  game_in = new_queue;
  game_out = new_queue;
}

abbrev from_client : Opcodes → ℕ → ServerPacket
from_client opcode id = record { packet = opcode_packet opcode; id = id; type = broadcast }

abbrev busy : World Coarse
busy = world (from_client create_player 2 ∷ from_client jump 1 ∷ [])

pub one_present : (inputs : List ServerPacket) → AllPresent (world inputs).players
unfolding start_player new_player
one_present inputs = (refl, tt)

busy-IsReady : IsReady busy
busy-IsReady = record {
  present = one_present (from_client create_player 2 ∷ from_client jump 1 ∷ []);
  covered = record { grid = small-IsGrid; enough = omega arith };
}

busy-Allowed : All (Allowed busy.players) busy.net_in.items
unfolding to_opcode get_head_opcode opcode_packet to_uint16 has find swap_endian of_bytes to_bytes
busy-Allowed = (inl refl, (inr (refl, λ e. cc), tt))

after_busy : (w' : World Coarse) × (tick (whole 1) busy ≡ some w') × IsReady w'
after_busy = tick_total (whole 1) busy busy-IsReady busy-Allowed

tick_lem_example :
    (before : PlayerMap Coarse) × (sent : List ServerPacket) × (after : PlayerMap Coarse) × Ticked
      (whole 1)
      busy
      before
      sent
      after
      after_busy.0
tick_lem_example = tick_lem (whole 1) busy after_busy.0 after_busy.1

removed_input_faults_example :
    tick (whole 1) (world (from_client remove_player 1 ∷ from_client jump 1 ∷ [])) ≡ none
unfolding to_opcode get_head_opcode opcode_packet to_uint16 swap_endian of_bytes to_bytes
removed_input_faults_example =
    removed_input_faults (from_client remove_player 1) (from_client jump 1) (whole 1)
      (world (from_client remove_player 1 ∷ from_client jump 1 ∷ []))
      (one_present (from_client remove_player 1 ∷ from_client jump 1 ∷ [])) refl refl refl (λ e. cc)
      (λ e. cc)

abbrev two_players : PlayerMap Coarse
two_players = (1, some (start_player 1 config)) ∷ (2, some (start_player 2 config)) ∷ []

abbrev spawn : NetPacket
spawn = elim (spawn_packet 2 two_players) [ none ↦ empty_packet | some packet ↦ packet ]

spawn_packet_lem_example :
    let count : Field = record { width = 8; value = sub64 (length two_players) 1 } in
    let fs = spawn_fields (others 2 two_players) (count ∷ []) in
    extract_all (widths fs) spawn
    ≡ some (values fs, sized (set_head_opcode (to_uint16 spawn_players) empty_packet))
unfolding spawn_packet insert_others start_player new_player
spawn_packet_lem_example =
    spawn_packet_lem Coarse-IsOrdered 2 two_players spawn (omega arith, tt) refl

-- Player 2 comes, plays and goes, while player 1 stays.
abbrev visit : List (Round Coarse)
visit =
    record { delta = whole 1; arrived = from_client create_player 2 ∷ from_client jump 1 ∷ [] }
    ∷ record { delta = whole 1; arrived = from_client jump 2 ∷ from_client remove_player 2 ∷ [] }
    ∷ []

abbrev only_one : Ids
only_one = λ j. j == 1

visit-Follows : Follows only_one (arrivals visit)
unfolding to_opcode get_head_opcode opcode_packet to_uint16 swap_endian of_bytes to_bytes
visit-Follows = (inl refl, (inr refl, (inr refl, (inr refl, tt))))

only_one-Knows : Knows only_one (world []).players
unfolding has find
only_one-Knows j h = ground (arith, h)

game_loop_total_example : (w' : World Coarse) × (game_loop visit (world []) ≡ some w') × IsReady w'
game_loop_total_example =
    game_loop_total visit (world []) only_one
      (record {
        present = one_present [];
        covered = record { grid = small-IsGrid; enough = omega arith };
      })
      refl refl only_one-Knows visit-Follows

-- Player 1 runs to the right and falls.
abbrev runner : Player Coarse
runner = set_vel (whole 15) (whole 3) (start_player 1 config)
