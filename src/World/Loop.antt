-- ===== src/World/Loop.antt =====
-- `World::ProcessInput` and `World::Tick` of game/world/world.cpp.
use endless_peak_server.Shared.{
  ℕ, zero, suc, ◌+◌, ◌*◌, false, if◌then◌else◌, [], ◌∷◌, Option, none, some, ◌>>=◌,
}
use endless_peak_server.Double.{Double}
use endless_peak_server.Queue.{TsQueue, push, try_pop, size, ts_swap}
use endless_peak_server.Packet.{
  Opcodes, create_player, move_left, move_right, jump, remove_player, to_opcode, get_head_opcode,
}
use endless_peak_server.Player.{Player, GameConfig, set_vel, set_on_ground, new_player}
use endless_peak_server.World.{
  ServerPacket, PlayerMap, World, assign, subscript, add_player_to, remove_player_from, update,
}

-- The loop that empties `out_queue_` into the network's queue.
unfoldable pub flush :
    ℕ → TsQueue ServerPacket → TsQueue ServerPacket → TsQueue ServerPacket × TsQueue ServerPacket
flush zero from to = (from, to)
flush (suc fuel) from to =
    let (front, queue) = try_pop from in
    elim front [ none ↦ (from, to) | some packet ↦ flush fuel queue (push packet to) ]

module _ {D : Type 0} ⦃d : Double D⦄ where
  open d use {of_nat, neg, mul}

  -- The pointer that `ProcessInput` holds is the entry's: what it sets is seen through the map.
  -- `none` is a null pointer.
  unfoldable pub change : ℕ → (Player D → Player D) → Option (Player D) → World D → Option (World D)
  change id f none w = none
  change id f (some p) w = some (record w { players = assign id (some (f p)) w.players })

  unfoldable pub start_player : ℕ → GameConfig → Player D
  start_player id config =
      new_player id
        (of_nat (config.player.player_start_x * config.tile + config.player.player_offset))
        (of_nat (config.player.player_start_y * config.tile + config.player.player_offset))
        (of_nat 0) (of_nat 0) config.player.width config.player.height

  unfoldable pub jump_by : D → Player D → Player D
  jump_by jump_force p =
      if p.on_ground then set_on_ground false (set_vel p.vel_x (neg jump_force) p) else p

  unfoldable pub dispatch : Option Opcodes → ℕ → Option (Player D) → D → World D → Option (World D)
  dispatch (some create_player) id p dt w = add_player_to (start_player id w.config) w
  dispatch (some remove_player) id p dt w = some (remove_player_from id w)
  dispatch (some move_left) id p dt w =
      change id (λ q. set_vel (neg (mul (of_nat 100) dt)) q.vel_y q) p w
  dispatch (some move_right) id p dt w =
      change id (λ q. set_vel (mul (of_nat 100) dt) q.vel_y q) p w
  dispatch (some jump) id p dt w = change id (jump_by (mul (of_nat 400) dt)) p w
  dispatch _ id p dt w = some w

  unfoldable pub process_input : ServerPacket → D → World D → Option (World D)
  process_input packet dt w =
      let (p, players) = subscript packet.id w.players in
      dispatch (to_opcode (get_head_opcode packet.packet)) packet.id p dt
        (record w { players = players })

  -- `item.second->SetVel(0.0, item.second->GetVelY())` for every entry.
  unfoldable pub still_all : PlayerMap D → Option (PlayerMap D)
  still_all [] = some []
  still_all ((k, none) ∷ rest) = none
  still_all ((k, some p) ∷ rest) =
      still_all rest >>= λ rest'. some ((k, some (set_vel (of_nat 0) p.vel_y p)) ∷ rest')

  -- The loop over the inputs, with fuel for its rounds.
  unfoldable pub process_inputs : ℕ → D → World D → Option (World D)
  process_inputs zero dt w = some w
  process_inputs (suc fuel) dt w =
      let (front, queue) = try_pop w.game_in in
      elim front [
        | none ↦ some w
        | some packet ↦
            process_input packet dt (record w { game_in = queue }) >>= process_inputs fuel dt
      ]

  -- The loop of `Update` over the players.
  unfoldable pub update_all :
      D → PlayerMap D → World D → Option (PlayerMap D × TsQueue ServerPacket)
  update_all dt [] w = some ([], w.game_out)
  update_all dt ((k, none) ∷ rest) w = none
  update_all dt ((k, some p) ∷ rest) w = update w.config w.tiles dt p >>= λ r.
      update_all dt rest (record w { game_out = push r.1 w.game_out }) >>= λ rest'.
      some ((k, some r.0) ∷ rest'.0, rest'.1)

  unfoldable pub swap_in : World D → World D
  swap_in w =
      let (game_in, net_in) = ts_swap false w.game_in w.net_in in
      record w { game_in = game_in; net_in = net_in }

  unfoldable pub flush_out : World D → World D
  flush_out w =
      let (game_out, net_out) = flush (size w.game_out) w.game_out w.net_out in
      record w { game_out = game_out; net_out = net_out }

  unfoldable pub tick : D → World D → Option (World D)
  tick dt w =
      let swapped = swap_in w in
      still_all swapped.players >>= λ still.
      process_inputs (size swapped.game_in) dt (record swapped { players = still }) >>= λ processed.
      update_all dt processed.players processed >>= λ r.
      some (flush_out (record processed { players = r.0; game_out = r.1 }))
