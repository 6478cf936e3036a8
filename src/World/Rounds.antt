-- ===== src/World/Rounds.antt =====
-- `World::GameLoop` of game/world/world.cpp: the clock's readings and what arrives between two ticks
-- are given, round by round, and the loop ends with the given rounds.
use endless_peak_server.Shared.{List, [], ◌∷◌, ◌++◌, Option, some, ◌>>=◌}
use endless_peak_server.Double.{Double}
use endless_peak_server.World.{ServerPacket, World}
use endless_peak_server.World.Loop.{tick}

-- `delta` is what the clock measured since the round before; `arrived` was pushed to the queue of
-- the network in the meantime.
pub record Round (D : Type 0) : Type 0 where
  pub delta : D
  pub arrived : List ServerPacket

module _ {D : Type 0} ⦃d : Double D⦄ where
  unfoldable pub receive : List ServerPacket → World D → World D
  receive arrived w = record w { net_in = record { items = w.net_in.items ++ arrived } }

  unfoldable pub game_loop : List (Round D) → World D → Option (World D)
  game_loop [] w = some w
  game_loop (r ∷ rounds) w = tick r.delta (receive r.arrived w) >>= game_loop rounds
