-- ===== src/World/Inputs.antt =====
-- Which inputs a tick survives.
use endless_peak_server.Shared.{
  ℕ, zero, suc, ◌≡◌, ◌≢◌, refl, ap, ◌∙◌, ◌⊎◌, inl, inr, true, [], ◌∷◌, Option, none, some, length,
  arith, All, All-imp, Option-cases,
}
use endless_peak_server.Double.{Double}
use endless_peak_server.Queue.{TsQueue, push, size, ts_swap}
use endless_peak_server.Queue.Fifo.{try_pop_cases}
use endless_peak_server.Packet.{
  Opcodes, create_player, move_left, move_right, jump, remove_player, to_opcode, get_head_opcode,
}
use endless_peak_server.Player.{Player, set_vel, set_on_ground, new_player}
use endless_peak_server.World.{
  ServerPacket, PlayerMap, World, add_player_to, assign, find, announce,
}
use endless_peak_server.World.Loop.{
  update_all, still_all, process_input, process_inputs, tick, change, dispatch, start_player,
  jump_by, swap_in, flush_out,
}
use endless_peak_server.World.Players.{
  AllPresent, has, assign-AllPresent, assign-assign, has-assign, find-AllPresent, has-find,
  has-cons, subscript_known, subscript_unknown, spawn_packet_total,
}
use endless_peak_server.World.Movement.{IsCovered, update_total}
use endless_peak_server.World.Frames.{process_input-Frame}

abbrev pub opcode_of : ServerPacket → Option Opcodes
opcode_of packet = to_opcode (get_head_opcode packet.packet)

module _ {D : Type 0} ⦃d : Double D⦄ where
  -- A request to create a player, or any other input but a removal from a player in the map.
  abbrev pub Allowed : PlayerMap D → ServerPacket → Type 0
  Allowed players packet =
      (opcode_of packet ≡ some create_player)
      ⊎ ((has packet.id players ≡ true) × (opcode_of packet ≢ some remove_player))

  -- The players stay in the map, and every entry stays a player.
  abbrev Kept : PlayerMap D → World D → Type 0
  Kept players w' =
      AllPresent w'.players × ((j : ℕ) → has j players ≡ true → has j w'.players ≡ true)

  add_total :
      (p : Player D) (w : World D) (players : PlayerMap D)
      → AllPresent (assign p.id (some p) players)
      → (w' : World D) × (add_player_to p (record w { players = players }) ≡ some w')
        × (w'.players ≡ assign p.id (some p) players)
  unfolding add_player_to announce
  add_total p w players a =
      let (spawn, e) = spawn_packet_total p.id (assign p.id (some p) players) a in
      (announce p spawn (record w { players = assign p.id (some p) players }), rw e, refl)

  change_total :
      (id : ℕ) (f : Player D → Player D) (p : Player D) (w : World D) (players : PlayerMap D)
      → ((f p).id ≡ id)
      → AllPresent players
      → (w' : World D) × (change id f (some p) (record w { players = players }) ≡ some w')
        × Kept players w'
  unfolding change
  change_total id f p w players e a = (
    record w { players = assign id (some (f p)) players },
    refl,
    (assign-AllPresent id (f p) players e a, λ j h. has-assign j id (some (f p)) players h),
  )

  -- A new player, over an entry that is missing, null or a player.
  create_total :
      (id : ℕ) (w : World D) (players base : PlayerMap D)
      → assign id (some (start_player id w.config)) players
        ≡ assign id (some (start_player id w.config)) base
      → AllPresent base
      → (w' : World D) × (add_player_to (start_player id w.config) (record w { players = players })
          ≡ some w')
        × Kept base w'
  unfolding start_player new_player
  create_total id w players base same a =
      let p : Player D = start_player id w.config in
      let present : AllPresent (assign id (some p) base) = assign-AllPresent id p base refl a in
      let (w', e, m) = add_total p w players (rw same present) in
      (w', e, (rw (m, same) present, λ j h. rw (m, same) (has-assign j id (some p) base h)))

  known_total :
      (o : Option Opcodes) (id : ℕ) (p : Player D) (dt : D) (w : World D) (players : PlayerMap D)
      → o ≢ some remove_player
      → p.id ≡ id
      → AllPresent players
      → (w' : World D) × (dispatch o id (some p) dt (record w { players = players }) ≡ some w')
        × Kept players w'
  unfolding dispatch set_vel jump_by set_on_ground
  known_total (some create_player) id p dt w players n e a =
      create_total id w players players refl a
  known_total (some remove_player) id p dt w players n e a = absurd (n refl)
  known_total (some move_left) id p dt w players n e a = change_total id _ p w players e a
  known_total (some move_right) id p dt w players n e a = change_total id _ p w players e a
  known_total (some jump) id p dt w players n e a = change_total id _ p w players (ground arith) a
  known_total _ id p dt w players n e a = (record w { players = players }, refl, (a, λ j h. h))

  unknown_create :
      (id : ℕ) (dt : D) (w : World D)
      → AllPresent w.players
      → (w' : World D) × (dispatch
            (some create_player)
            id
            none
            dt
            (record w { players = assign id none w.players })
          ≡ some w')
        × Kept w.players w'
  unfolding dispatch
  unknown_create id dt w a =
      create_total id w (assign id none w.players) w.players
        (assign-assign id (start_player id w.config) none w.players) a

  known_input :
      (packet : ServerPacket) (dt : D) (w : World D)
      → AllPresent w.players
      → has packet.id w.players ≡ true
      → opcode_of packet ≢ some remove_player
      → (w' : World D) × (process_input packet dt w ≡ some w') × Kept w.players w'
  unfolding process_input
  known_input packet dt w a known n =
      let (p, e, i) = find-AllPresent packet.id w.players a known in
      rw (subscript_known packet.id w.players p e)
        (known_total (opcode_of packet) packet.id p dt w w.players n i a)

  create_input :
      (packet : ServerPacket) (dt : D) (w : World D)
      → AllPresent w.players
      → find packet.id w.players ≡ none
      → opcode_of packet ≡ some create_player
      → (w' : World D) × (process_input packet dt w ≡ some w') × Kept w.players w'
  unfolding process_input
  create_input packet dt w a missing o =
      rw (subscript_unknown packet.id w.players missing, o) (unknown_create packet.id dt w a)

  -- An allowed input is processed, and the map of players stays whole.
  pub process_input_total :
      (packet : ServerPacket) (dt : D) (w : World D)
      → AllPresent w.players
      → Allowed w.players packet
      → (w' : World D) × (process_input packet dt w ≡ some w') × Kept w.players w'
  process_input_total packet dt w a (inr (known, n)) = known_input packet dt w a known n
  process_input_total packet dt w a (inl o) = elim (Option-cases (find packet.id w.players)) [
    | inl missing ↦ create_input packet dt w a missing o
    | inr (q, found) ↦ known_input packet dt w a (has-find packet.id w.players q found) (λ r. cc)
  ]

  Allowed-mono :
      (players : PlayerMap D) (w' : World D) (packet : ServerPacket)
      → Kept players w'
      → Allowed players packet
      → Allowed w'.players packet
  Allowed-mono players w' packet k (inl o) = inl o
  Allowed-mono players w' packet k (inr (known, n)) = inr (k.1 packet.id known, n)

  -- A whole map of players on a map that covers the grid.
  pub record IsReady (w : World D) : Type 0 where
    pub present : AllPresent w.players
    pub covered : IsCovered w.config w.tiles

  process_inputs_total :
      (fuel : ℕ) (dt : D) (w : World D)
      → IsReady w
      → All (Allowed w.players) w.game_in.items
      → (w' : World D) × (process_inputs fuel dt w ≡ some w') × IsReady w'
  unfolding process_inputs
  process_inputs_total zero dt w r h = (w, refl, r)
  process_inputs_total (suc fuel) dt w r h = elim (try_pop_cases w.game_in) [
    | inl (nothing, t) ↦ let front = ap (λ x. x.0) t in (w, rw (front, process_inputs), r)
    | inr (x, rest, items, t) ↦
        let front = ap (λ x. x.0) t in
        let back = ap (λ x. x.1) t in
        let popped : World D = record w { game_in = record { items = rest } } in
        let (allowed, others) : All (Allowed w.players) (x ∷ rest) = rw items at h in
        let (v, e, kept) = process_input_total x dt popped r.present allowed in
        let f = process_input-Frame x dt popped v e in
        let ready : IsReady v = record {
          present = kept.0;
          covered = rw (f.config, f.tiles) r.covered;
        } in
        let left : All (Allowed v.players) v.game_in.items = rw f.game_in (
          All-imp (Allowed w.players) (Allowed v.players) rest
            (λ packet. Allowed-mono w.players v packet kept) others) in
        let (w', e', ready') = process_inputs_total fuel dt v ready left in
        (w', rw (front, process_inputs, back, e) e', ready')
  ]

  pub still_all_total :
      (players : PlayerMap D)
      → AllPresent players
      → (still : PlayerMap D) × (still_all players ≡ some still)
        × AllPresent still
        × ((j : ℕ) → has j still ≡ has j players)
  unfolding still_all set_vel
  still_all_total [] a = ([], refl, tt, λ j. refl)
  still_all_total ((k, none) ∷ rest) a = absurd a
  still_all_total ((k, some p) ∷ rest) a =
      let (still, e, present, same) = still_all_total rest a.1 in
      (
        (k, some (set_vel (d.of_nat 0) p.vel_y p)) ∷ still,
        rw e,
        (a.0, present),
        λ j. has-cons j k _ (some p) still rest (same j),
      )

  pub update_all_total :
      (dt : D) (players : PlayerMap D) (w : World D)
      → AllPresent players
      → IsCovered w.config w.tiles
      → (r : PlayerMap D × TsQueue ServerPacket) × (update_all dt players w ≡ some r)
        × AllPresent r.0
  unfolding update_all
  update_all_total dt [] w a c = (([], w.game_out), refl, tt)
  update_all_total dt ((k, none) ∷ rest) w a c = absurd a
  update_all_total dt ((k, some p) ∷ rest) w a c =
      let (r, e, i) = update_total w.config w.tiles c dt p in
      let w' = record w { game_out = push r.1 w.game_out } in
      let (r', e', a') = update_all_total dt rest w' a.1 c in
      (((k, some r.0) ∷ r'.0, r'.1), rw (e, e'), (i ∙ a.0, a'))

  -- A tick of a ready world whose queued inputs are all allowed returns (no null pointer is
  -- dereferenced and no tile outside the map is read) and leaves a ready world.
  pub tick_total :
      (dt : D) (w : World D)
      → IsReady w
      → All (Allowed w.players) w.net_in.items
      → (w' : World D) × (tick dt w ≡ some w') × IsReady w'
  unfolding tick swap_in flush_out ts_swap size
  tick_total dt w r h =
      let (still, e1, present, same) = still_all_total w.players r.present in
      let stilled : World D = record (swap_in w) { players = still } in
      let allowed : All (Allowed still) w.net_in.items =
        All-imp (Allowed w.players) (Allowed still) w.net_in.items
          (λ packet. Allowed-mono w.players stilled packet (present, λ j known. same j ∙ known))
          h in
      let (v, e2, ready) =
        process_inputs_total (length w.net_in.items) dt stilled
          (record { present = present; covered = r.covered }) allowed in
      let (u, e3, a) = update_all_total dt v.players v ready.present ready.covered in
      (
        flush_out (record v { players = u.0; game_out = u.1 }),
        rw (e1, e2, e3),
        record { present = a; covered = ready.covered },
      )
