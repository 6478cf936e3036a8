-- ===== src/World/Spawn.antt =====
-- The packet with the other players that a new player gets, read back.
use mathlib.Core.Option.{some-injective}
use endless_peak_server.Shared.{
  ℕ, ◌^◌, ◌<◌, ◌≡◌, refl, sym, inl, inr, if◌then◌else◌, ◌==◌, List, [], ◌∷◌, ◌++◌, none, some,
  length, arith, All, sub64, some-ne-none, Bool-cases,
}
use endless_peak_server.Double.{Double, IsOrdered}
use endless_peak_server.Packet.{NetPacket, set_head_opcode, to_uint16, spawn_players, empty_packet}
use endless_peak_server.Packet.RoundTrip.{
  Field, IsFitting, insert_all, extract_all, widths, values, sized, extract_all-insert_all,
  insert_all-sized,
}
use endless_peak_server.Player.{Player}
use endless_peak_server.World.{PlayerMap, insert_others, insert_player, spawn_packet}

module _ {D : Type 0} ⦃d : Double D⦄ where
  -- The fields of a player, the last written first.
  abbrev pub player_fields : Player D → List Field
  player_fields p =
      record { width = 1; value = p.height }
      ∷ record { width = 1; value = p.width }
      ∷ record { width = 8; value = d.bits p.y }
      ∷ record { width = 8; value = d.bits p.x }
      ∷ record { width = 8; value = p.id }
      ∷ []

  -- The players of a map but one.
  abbrev pub others : ℕ → PlayerMap D → List (Player D)
  others id [] = []
  others id ((k, none) ∷ rest) = others id rest
  others id ((k, some p) ∷ rest) = if k == id then others id rest else p ∷ others id rest

  -- What the receiver pops: the last player first, and the count at the end.
  abbrev pub spawn_fields : List (Player D) → List Field → List Field
  spawn_fields [] after = after
  spawn_fields (p ∷ ps) after = spawn_fields ps (player_fields p ++ after)

  -- A player whose fields fit their types.
  abbrev pub Fitting : Player D → Type 0
  Fitting p = (p.id < 256 ^ 8) × (p.width < 256) × (p.height < 256)

  insert_player-eq :
      (p : Player D) (fs : List Field) (packet : NetPacket)
      → insert_player p (insert_all fs packet) ≡ insert_all (player_fields p ++ fs) packet
  unfolding insert_player insert_all
  insert_player-eq p fs packet = refl

  insert_others-eq :
      (id : ℕ) (players : PlayerMap D) (after : List Field) (packet result : NetPacket)
      → insert_others id players (insert_all after packet) ≡ some result
      → result ≡ insert_all (spawn_fields (others id players) after) packet
  unfolding insert_others
  insert_others-eq id [] after packet result e = sym (some-injective _ _ e)
  insert_others-eq id ((k, none) ∷ rest) after packet result e = elim (Bool-cases (k == id)) [
    | inl own ↦ insert_others-eq id rest after packet result (rw own at e)
    | inr other ↦ absurd (some-ne-none result (sym (rw other at e)))
  ]
  insert_others-eq id ((k, some p) ∷ rest) after packet result e = elim (Bool-cases (k == id)) [
    | inl own ↦ rw own (insert_others-eq id rest after packet result (rw own at e))
    | inr other ↦ rw other (
        insert_others-eq id rest (player_fields p ++ after) packet result
          (rw (other, insert_player-eq p after packet) at e))
  ]

  -- The packet `SpawnPlayers` holds the count and the players of the map but the new one.
  pub spawn_packet-eq :
      (id : ℕ) (players : PlayerMap D) (packet : NetPacket)
      → spawn_packet id players ≡ some packet
      → let count : Field = record { width = 8; value = sub64 (length players) 1 } in
        packet
        ≡ insert_all
            (spawn_fields (others id players) (count ∷ []))
            (set_head_opcode (to_uint16 spawn_players) empty_packet)
  unfolding spawn_packet
  spawn_packet-eq id players packet e =
      let count : Field = record { width = 8; value = sub64 (length players) 1 } in
      insert_others-eq id players (count ∷ [])
        (set_head_opcode (to_uint16 spawn_players) empty_packet) packet (unfold insert_all in e)

  length-spawn_fields :
      (ps : List (Player D)) (after : List Field)
      → 0 < length after
      → 0 < length (spawn_fields ps after)
  length-spawn_fields [] after h = h
  length-spawn_fields (p ∷ ps) after h =
      length-spawn_fields ps (player_fields p ++ after) (omega arith)

  module _ (laws : IsOrdered D) where
    spawn_fields-IsFitting :
        (ps : List (Player D)) (after : List Field)
        → All Fitting ps
        → All IsFitting after
        → All IsFitting (spawn_fields ps after)
    spawn_fields-IsFitting [] after f h = h
    spawn_fields-IsFitting (p ∷ ps) after (f, fs) h =
        spawn_fields-IsFitting ps (player_fields p ++ after) fs
          (omega arith, (omega arith, (laws.bits-lt p.y, (laws.bits-lt p.x, (f.0, h)))))

    -- If the other players' fields fit their types, the fields that a new player's client pops from the packet `SpawnPlayers` are the other players,
    -- the last in the map first and each as height, width, y, x and identifier, and then the count
    -- that was written first.
    pub spawn_packet_lem :
        (id : ℕ) (players : PlayerMap D) (packet : NetPacket)
        → All Fitting (others id players)
        → spawn_packet id players ≡ some packet
        → let count : Field = record { width = 8; value = sub64 (length players) 1 } in
          let fs = spawn_fields (others id players) (count ∷ []) in
          extract_all (widths fs) packet
          ≡ some (values fs, sized (set_head_opcode (to_uint16 spawn_players) empty_packet))
    spawn_packet_lem id players packet f e =
        let count : Field = record { width = 8; value = sub64 (length players) 1 } in
        let base = set_head_opcode (to_uint16 spawn_players) empty_packet in
        let fs = spawn_fields (others id players) (count ∷ []) in
        let built : packet ≡ insert_all fs base = spawn_packet-eq id players packet e in
        let fit : All IsFitting fs =
          spawn_fields-IsFitting (others id players) (count ∷ []) f (omega arith, tt) in
        rw
          (
            built,
            insert_all-sized fs base
                (length-spawn_fields (others id players) (count ∷ []) (omega arith)),
          )
          (extract_all-insert_all fs base fit)
