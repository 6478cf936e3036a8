-- ===== src/World/Answers.antt =====
-- The packets that the inputs of a tick are to be answered with, field by field.
use endless_peak_server.Shared.{
  ℕ, ◌+◌, ◌*◌, ◌≡◌, refl, sym, ap, ◌∙◌, List, [], ◌∷◌, ◌++◌, Option, none, some, length,
  append_assoc, append-nil, sub64,
}
use endless_peak_server.Double.{Double}
use endless_peak_server.Packet.{
  Opcodes, create_player, remove_player, spawn_players, add_player, move_player, to_uint16,
  to_opcode, get_head_opcode, set_head_opcode, empty_packet,
}
use endless_peak_server.Packet.RoundTrip.{Field, insert_all}
use endless_peak_server.Player.{Player, GameConfig}
use endless_peak_server.World.{
  broadcast, rpc, rpc_others, ServerPacket, PlayerMap, World, PacketType,
}
use endless_peak_server.World.Loop.{process_input}
use endless_peak_server.World.Spawn.{others, spawn_fields}

-- A packet with an opcode and fields, the last written first, for the clients that the identifier
-- and the type name.
abbrev pub answer : Opcodes → List Field → ℕ → PacketType → ServerPacket
answer opcode fields id type = record {
  packet = insert_all fields (set_head_opcode (to_uint16 opcode) empty_packet);
  id = id;
  type = type;
}

-- A new player's fields: height, width, y, x and identifier.
abbrev pub start_fields : (D : Type 0) ⦃d : Double D⦄ → GameConfig → ℕ → List Field
start_fields D ⦃d⦄ config id =
    let y = config.player.player_start_y * config.tile + config.player.player_offset in
    let x = config.player.player_start_x * config.tile + config.player.player_offset in
    record { width = 1; value = config.player.height }
    ∷ record { width = 1; value = config.player.width }
    ∷ record { width = 8; value = d.bits (d.of_nat y) }
    ∷ record { width = 8; value = d.bits (d.of_nat x) }
    ∷ record { width = 8; value = id }
    ∷ []

module _ {D : Type 0} ⦃d : Double D⦄ where
  abbrev pub announced : List Field → ℕ → PlayerMap D → List ServerPacket
  announced fields id players =
      let count : Field = record { width = 8; value = sub64 (length players) 1 } in
      answer create_player fields id rpc
      ∷ answer spawn_players (spawn_fields (others id players) (count ∷ [])) id rpc
      ∷ answer add_player fields id rpc_others
      ∷ []

  -- What the clients are told about an input that leaves the given players: of a new player itself,
  -- it of the others, and they of it, of a player that left everyone, and of the rest nothing.
  abbrev pub answers : GameConfig → Option Opcodes → ℕ → PlayerMap D → List ServerPacket
  answers config (some create_player) id players = announced (start_fields D config id) id players
  answers config (some remove_player) id players =
      answer remove_player (record { width = 8; value = id } ∷ []) id broadcast ∷ []
  answers config _ id players = []

  abbrev pub answers_to : GameConfig → ServerPacket → PlayerMap D → List ServerPacket
  answers_to config x players = answers config (to_opcode (get_head_opcode x.packet)) x.id players

  abbrev pub moved : Player D → ServerPacket
  moved p =
      let y : Field = record { width = 8; value = d.bits p.y } in
      let x : Field = record { width = 8; value = d.bits p.x } in
      let id : Field = record { width = 8; value = p.id } in
      answer move_player (y ∷ x ∷ id ∷ []) p.id broadcast

  -- For each player that is there, a packet for everyone with y, x and identifier.
  abbrev pub move_packets : PlayerMap D → List ServerPacket
  move_packets [] = []
  move_packets ((k, none) ∷ rest) = move_packets rest
  move_packets ((k, some p) ∷ rest) = moved p ∷ move_packets rest

  -- `ProcessInput` turns the players into others.
  abbrev pub Handled : D → GameConfig → ServerPacket → PlayerMap D → PlayerMap D → Type 0
  Handled dt config x before after =
      (w : World D) × (v : World D) × (w.config ≡ config)
      × (w.players ≡ before)
      × (process_input x dt w ≡ some v)
      × (v.players ≡ after)

  -- The inputs are handled in order, and the packets are the answers to each, in order, with the
  -- players as the inputs up to it have left them.
  abbrev pub Answers :
      D → GameConfig → List ServerPacket → PlayerMap D → List ServerPacket → PlayerMap D → Type 0
  Answers dt config [] before sent after = (sent ≡ []) × (before ≡ after)
  Answers dt config (x ∷ rest) before sent after =
      (mid : PlayerMap D) × (later : List ServerPacket) × Handled dt config x before mid
      × (sent ≡ answers_to config x mid ++ later)
      × Answers dt config rest mid later after

  -- The answers to the last input come last.
  pub Answers-last :
      (dt : D) (config : GameConfig) (xs : List ServerPacket) (x : ServerPacket)
      (before after : PlayerMap D) (sent : List ServerPacket)
      → Answers dt config (xs ++ (x ∷ [])) before sent after
      → (mid : PlayerMap D) × (told : List ServerPacket) × Answers dt config xs before told mid
        × Handled dt config x mid after
        × (sent ≡ told ++ answers_to config x after)
  Answers-last dt config [] x before after sent (mid, later, handled, all, (nothing, same)) = (
    before,
    [],
    (refl, refl),
    rw (← same) handled,
    rw (all, nothing, ← same) (append-nil (answers_to config x mid)),
  )
  Answers-last dt config (y ∷ xs) x before after sent (mid, later, handled, all, rest) =
      let (last, told, front, latest, rest_all) =
        Answers-last dt config xs x mid after later rest in
      (
        last,
        answers_to config y mid ++ told,
        (mid, told, handled, refl, front),
        latest,
        all
            ∙ ap (λ zs. answers_to config y mid ++ zs) rest_all
            ∙ sym (append_assoc (answers_to config y mid) told (answers_to config x after)),
      )
