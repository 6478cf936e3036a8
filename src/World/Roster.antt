-- ===== src/World/Roster.antt =====
-- Whom `World::ProcessInput` and `World::Tick` of game/world/world.cpp leave in the map of players.
use mathlib.Core.Option.{some-injective}
use mathlib.Core.Path.{fun_ext}
use endless_peak_server.Shared.{
  ℕ, ◌≡◌, ◌≢◌, refl, sym, ap, ◌∙◌, subst, inl, inr, true, false, if◌then◌else◌, ◌==◌, Bool-cases,
  Option-cases, [], ◌∷◌, Option, none, some, arith,
}
use endless_peak_server.Double.{Double}
use endless_peak_server.Packet.{Opcodes, create_player, remove_player, move_left, move_right, jump}
use endless_peak_server.Player.{Player, new_player}
use endless_peak_server.World.{
  ServerPacket, PlayerMap, World, assign, erase, find, subscript, remove_player_from,
}
use endless_peak_server.World.Loop.{change, dispatch, process_input, start_player}
use endless_peak_server.World.Players.{
  AllPresent, has, find-AllPresent, subscript_known, subscript_unknown,
}
use endless_peak_server.World.Inputs.{opcode_of}
use endless_peak_server.World.Removed.{removal, has-erase}
use endless_peak_server.World.Protocol.{
  Ids, next_ids, with_id, without_id, add_player_to-players, has-erase-other,
}

module _ {D : Type 0} where
  abbrev pub ids_of : PlayerMap D → Ids
  ids_of players = λ j. has j players

  has-assign-if :
      (j id : ℕ) (o : Option (Player D)) (players : PlayerMap D)
      → has j (assign id o players) ≡ (if j == id then true else has j players)
  unfolding has find assign
  has-assign-if j id o [] = ground arith
  has-assign-if j id o ((k, q) ∷ rest) = ground (arith, has-assign-if j id o rest)

  -- An entry that is there is assigned.
  has-assign_known :
      (j id : ℕ) (o : Option (Player D)) (players : PlayerMap D)
      → has id players ≡ true
      → has j (assign id o players) ≡ has j players
  has-assign_known j id o players known =
      let now = has-assign-if j id o players in
      elim (Bool-cases (j == id)) [
        | inl own ↦
            let same : id ≡ j = ground (arith, own) in
            now ∙ rw own (sym (subst (λ k. has k players ≡ true) same known))
        | inr other ↦ now ∙ rw other refl
      ]

  subscript_found :
      (id : ℕ) (players : PlayerMap D) (o : Option (Player D))
      → find id players ≡ some o
      → (subscript id players).1 ≡ players
  unfolding subscript
  subscript_found id players o found = rw (found, subscript) refl

  subscript-has :
      (j id : ℕ) (players : PlayerMap D)
      → (j == id) ≡ false
      → has j (subscript id players).1 ≡ has j players
  subscript-has j id players other = elim (Option-cases (find id players)) [
    | inl missing ↦
        let now = ap (λ x. x.1) (subscript_unknown id players missing) in
        rw now (has-assign-if j id none players ∙ rw other refl)
    | inr (o, found) ↦ ap (has j) (subscript_found id players o found)
  ]

module _ {D : Type 0} ⦃d : Double D⦄ where
  pub created-ids :
      (packet : ServerPacket) (dt : D) (w w' : World D)
      → opcode_of packet ≡ some create_player
      → process_input packet dt w ≡ some w'
      → ids_of w'.players ≡ with_id packet.id (ids_of w.players)
  unfolding process_input dispatch start_player new_player
  created-ids packet dt w w' o e =
      let base = (subscript packet.id w.players).1 in
      let added =
        add_player_to-players (start_player packet.id w.config) (record w { players = base }) w'
          (rw o at e) in
      fun_ext (λ j. rw added (
        has-assign-if j packet.id (some (start_player packet.id w.config)) base
        ∙ elim (Bool-cases (j == packet.id)) [
          | inl own ↦ rw own refl
          | inr other ↦ rw other (subscript-has j packet.id w.players other)
        ]))

  pub removed-ids :
      (packet : ServerPacket) (dt : D) (w w' : World D)
      → opcode_of packet ≡ some remove_player
      → process_input packet dt w ≡ some w'
      → ids_of w'.players ≡ without_id packet.id (ids_of w.players)
  unfolding remove_player_from
  removed-ids packet dt w w' o e =
      let base = (subscript packet.id w.players).1 in
      let left = some-injective _ _ (sym (removal packet dt w o) ∙ e) in
      let players : erase packet.id base ≡ w'.players = ap (λ (v : World D). v.players) left in
      fun_ext (λ j. rw (← players) (elim (Bool-cases (j == packet.id)) [
        | inl own ↦
            let same : packet.id ≡ j = ground (arith, own) in
            rw own
              (subst (λ k. has k (erase packet.id base) ≡ false) same (has-erase packet.id base))
        | inr other ↦
            rw other
              (has-erase-other j packet.id base other ∙ subscript-has j packet.id w.players other)
      ]))

  change-ids :
      (id : ℕ) (f : Player D → Player D) (p : Player D) (w w' : World D) (players : PlayerMap D)
      → has id players ≡ true
      → change id f (some p) (record w { players = players }) ≡ some w'
      → ids_of w'.players ≡ ids_of players
  unfolding change
  change-ids id f p w w' players known e =
      let changed = ap (λ (v : World D). v.players) (some-injective _ _ e) in
      fun_ext (λ j. rw (← changed) (has-assign_known j id (some (f p)) players known))

  same-ids :
      (w w' : World D) (players : PlayerMap D)
      → some (record w { players = players }) ≡ some w'
      → ids_of w'.players ≡ ids_of players
  same-ids w w' players e = ap (λ (v : World D). ids_of v.players) (sym (some-injective _ _ e))

  -- Every other input, of a player in the map.
  dispatch-ids :
      (o : Option Opcodes) (id : ℕ) (p : Player D) (dt : D) (w w' : World D) (players : PlayerMap D)
      → o ≢ some create_player
      → o ≢ some remove_player
      → has id players ≡ true
      → dispatch o id (some p) dt (record w { players = players }) ≡ some w'
      → ids_of w'.players ≡ next_ids o id (ids_of players)
  unfolding dispatch
  dispatch-ids (some create_player) id p dt w w' players c r known e = absurd (c refl)
  dispatch-ids (some remove_player) id p dt w w' players c r known e = absurd (r refl)
  dispatch-ids (some move_left) id p dt w w' players c r known e =
      change-ids id _ p w w' players known e
  dispatch-ids (some move_right) id p dt w w' players c r known e =
      change-ids id _ p w w' players known e
  dispatch-ids (some jump) id p dt w w' players c r known e = change-ids id _ p w w' players known e
  dispatch-ids _ id p dt w w' players c r known e = same-ids w w' players e

  pub other-ids :
      (packet : ServerPacket) (dt : D) (w w' : World D)
      → AllPresent w.players
      → opcode_of packet ≢ some create_player
      → opcode_of packet ≢ some remove_player
      → has packet.id w.players ≡ true
      → process_input packet dt w ≡ some w'
      → ids_of w'.players ≡ next_ids (opcode_of packet) packet.id (ids_of w.players)
  unfolding process_input
  other-ids packet dt w w' a c r known e =
      let (p, found, _) = find-AllPresent packet.id w.players a known in
      dispatch-ids (opcode_of packet) packet.id p dt w w' w.players c r known
        (rw (subscript_known packet.id w.players p found) at e)
