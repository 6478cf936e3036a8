-- ===== src/World/Protocol.antt =====
-- What inputs that keep to the protocol do to the map of players of `World::ProcessInput`.
use mathlib.Core.Option.{some-injective}
use endless_peak_server.Shared.{
  ℕ, ◌≡◌, ◌≢◌, refl, sym, ap, ◌∙◌, ◌⊎◌, subst, inl, inr, Bool, true, false, if◌then◌else◌, ◌==◌,
  Bool-cases, List, [], ◌∷◌, ◌++◌, Option, none, some, arith, >>=-eq-some,
}
use endless_peak_server.Double.{Double}
use endless_peak_server.Packet.{
  Opcodes, create_player, remove_player, spawn_players, move_left, move_right, jump, move_player,
  add_player,
}
use endless_peak_server.Player.{Player, new_player}
use endless_peak_server.World.{
  ServerPacket, PlayerMap, World, add_player_to, assign, erase, find, spawn_packet,
  remove_player_from, subscript,
}
use endless_peak_server.World.Loop.{process_input, dispatch, start_player}
use endless_peak_server.World.Players.{
  AllPresent, has, find-AllPresent, subscript_known, erase-AllPresent, has-cons,
}
use endless_peak_server.World.Inputs.{opcode_of, process_input_total}
use endless_peak_server.World.Removed.{removal}
use endless_peak_server.World.Ticks.{keys}
use endless_peak_server.World.Rounds.{Round}

-- The identifiers that have a player.
abbrev pub Ids : Type 0
Ids = ℕ → Bool

abbrev pub nobody : Ids
nobody = λ j. false

abbrev pub with_id : ℕ → Ids → Ids
with_id id known = λ j. if j == id then true else known j

abbrev pub without_id : ℕ → Ids → Ids
without_id id known = λ j. if j == id then false else known j

-- What an input with an opcode does to them.
abbrev pub next_ids : Option Opcodes → ℕ → Ids → Ids
next_ids (some create_player) id known = with_id id known
next_ids (some remove_player) id known = without_id id known
next_ids _ id known = known

-- Each input creates its player, or comes while the player is there.
abbrev pub Follows : Ids → List ServerPacket → Type 0
Follows known [] = Unit
Follows known (packet ∷ rest) =
    ((opcode_of packet ≡ some create_player) ⊎ (known packet.id ≡ true))
    × Follows (next_ids (opcode_of packet) packet.id known) rest

abbrev pub arrivals : {D : Type 0} → List (Round D) → List ServerPacket
arrivals [] = []
arrivals (r ∷ rounds) = r.arrived ++ arrivals rounds

abbrev pub ids_after : Ids → List ServerPacket → Ids
ids_after known [] = known
ids_after known (packet ∷ rest) = ids_after (next_ids (opcode_of packet) packet.id known) rest

pub Follows-append :
    (known : Ids) (xs ys : List ServerPacket)
    → Follows known (xs ++ ys)
    → Follows known xs × Follows (ids_after known xs) ys
Follows-append known [] ys f = (tt, f)
Follows-append known (x ∷ xs) ys (fine, f) =
    let (first, rest) = Follows-append (next_ids (opcode_of x) x.id known) xs ys f in
    ((fine, first), rest)

module _ {D : Type 0} where
  -- Every known identifier has a player.
  abbrev pub Knows : Ids → PlayerMap D → Type 0
  Knows known players = (j : ℕ) → known j ≡ true → has j players ≡ true

  has-assign-own :
      (id : ℕ) (o : Option (Player D)) (players : PlayerMap D) → has id (assign id o players) ≡ true
  unfolding has find assign
  has-assign-own id o [] = ground arith
  has-assign-own id o ((k, q) ∷ rest) = ground (arith, has-assign-own id o rest)

  pub has-erase-other :
      (j id : ℕ) (players : PlayerMap D)
      → (j == id) ≡ false
      → has j (erase id players) ≡ has j players
  unfolding has find erase
  has-erase-other j id [] d = refl
  has-erase-other j id ((k, q) ∷ rest) d =
      let ih = has-erase-other j id rest d in
      elim (Bool-cases (k == id)) [
        | inl own ↦ rw own (ih ∙ sym (skips own))
        | inr other ↦ rw other (has-cons j k q q (erase id rest) rest ih)
      ]
    where
      skips : (k == id) ≡ true → has j ((k, q) ∷ rest) ≡ has j rest
      skips own = ground (arith, own, d)

-- The identifier of an input that creates nobody is known.
known_id :
    (o : Option Opcodes) (known : Bool)
    → (o ≡ some create_player) ⊎ (known ≡ true)
    → o ≢ some create_player
    → known ≡ true
known_id o known (inl created) n = absurd (n created)
known_id o known (inr here) n = here

module _ {D : Type 0} ⦃d : Double D⦄ where
  pub has-keys :
      (j : ℕ) (players others : PlayerMap D)
      → keys players ≡ keys others
      → has j players ≡ has j others
  unfolding has find
  has-keys j [] [] e = refl
  has-keys j [] (o ∷ others) e = absurd cc
  has-keys j (p ∷ players) [] e = absurd cc
  has-keys j ((k, p) ∷ players) ((l, o) ∷ others) e =
      let same : k ≡ l = cc in
      let rest = has-keys j players others (tails e) in
      rw same (has-cons j l p o players others rest)
    where
      tails : k ∷ keys players ≡ l ∷ keys others → keys players ≡ keys others
      tails e = cc

  pub add_player_to-players :
      (p : Player D) (w w' : World D)
      → add_player_to p w ≡ some w'
      → w'.players ≡ assign p.id (some p) w.players
  unfolding add_player_to
  add_player_to-players p w w' e =
      let (spawn, _, same) = >>=-eq-some (spawn_packet p.id (assign p.id (some p) w.players)) _ e in
      ap (λ (v : World D). v.players) (sym (some-injective _ _ same))

  create-has :
      (packet : ServerPacket) (dt : D) (w w' : World D)
      → opcode_of packet ≡ some create_player
      → process_input packet dt w ≡ some w'
      → has packet.id w'.players ≡ true
  unfolding process_input dispatch start_player new_player
  create-has packet dt w w' o e =
      let added =
        add_player_to-players (start_player packet.id w.config)
          (record w { players = (subscript packet.id w.players).1 }) w' (rw o at e) in
      rw added (has-assign-own packet.id _ (subscript packet.id w.players).1)

  abbrev Stepped : Ids → World D → Type 0
  Stepped known w' = AllPresent w'.players × Knows known w'.players

  created_input :
      (packet : ServerPacket) (dt : D) (w : World D) (known : Ids)
      → AllPresent w.players
      → Knows known w.players
      → opcode_of packet ≡ some create_player
      → (w' : World D) × (process_input packet dt w ≡ some w')
        × Stepped (with_id packet.id known) w'
  created_input packet dt w known a k o =
      let (w', e, kept) = process_input_total packet dt w a (inl o) in
      let own = create-has packet dt w w' o e in
      let knows : Knows (with_id packet.id known) w'.players = λ j h.
        elim (Bool-cases (j == packet.id)) [
          | inl same ↦
              let equal : packet.id ≡ j = ground (arith, same) in
              subst (λ i. has i w'.players ≡ true) equal own
          | inr other ↦ kept.1 j (k j (rw other at h))
        ] in
      (w', e, (kept.0, knows))

  removed_input :
      (packet : ServerPacket) (dt : D) (w : World D) (known : Ids)
      → AllPresent w.players
      → Knows known w.players
      → opcode_of packet ≡ some remove_player
      → known packet.id ≡ true
      → (w' : World D) × (process_input packet dt w ≡ some w')
        × Stepped (without_id packet.id known) w'
  unfolding remove_player_from
  removed_input packet dt w known a k o here =
      let (p, found, _) = find-AllPresent packet.id w.players a (k packet.id here) in
      let same = ap (λ x. x.1) (subscript_known packet.id w.players p found) in
      let knows : Knows (without_id packet.id known) (erase packet.id w.players) = λ j h.
        elim (Bool-cases (j == packet.id)) [
          | inl own ↦ absurd (cc (rw own at h))
          | inr other ↦ has-erase-other j packet.id w.players other ∙ k j (rw other at h)
        ] in
      (
        remove_player_from packet.id (record w { players = (subscript packet.id w.players).1 }),
        removal packet dt w o,
        (rw same (erase-AllPresent packet.id w.players a), rw same knows),
      )

  other_input :
      (packet : ServerPacket) (dt : D) (w : World D) (known : Ids)
      → AllPresent w.players
      → Knows known w.players
      → opcode_of packet ≢ some remove_player
      → known packet.id ≡ true
      → (w' : World D) × (process_input packet dt w ≡ some w') × Stepped known w'
  other_input packet dt w known a k n here =
      let (w', e, kept) = process_input_total packet dt w a (inr (k packet.id here, n)) in
      (w', e, (kept.0, λ j h. kept.1 j (k j h)))

  pub next_input :
      (o : Option Opcodes) (packet : ServerPacket) (dt : D) (w : World D) (known : Ids)
      → opcode_of packet ≡ o
      → (o ≡ some create_player) ⊎ (known packet.id ≡ true)
      → AllPresent w.players
      → Knows known w.players
      → (w' : World D) × (process_input packet dt w ≡ some w')
        × Stepped (next_ids o packet.id known) w'
  next_input (some create_player) packet dt w known e fine a k =
      created_input packet dt w known a k e
  next_input (some remove_player) packet dt w known e fine a k =
      removed_input packet dt w known a k e
        (known_id (some remove_player) (known packet.id) fine (λ x. cc x))
  next_input none packet dt w known e fine a k =
      other_input packet dt w known a k (λ x. cc (e, x))
        (known_id _ (known packet.id) fine (λ x. cc x))
  next_input (some spawn_players) packet dt w known e fine a k =
      other_input packet dt w known a k (λ x. cc (e, x))
        (known_id _ (known packet.id) fine (λ x. cc x))
  next_input (some move_left) packet dt w known e fine a k =
      other_input packet dt w known a k (λ x. cc (e, x))
        (known_id _ (known packet.id) fine (λ x. cc x))
  next_input (some move_right) packet dt w known e fine a k =
      other_input packet dt w known a k (λ x. cc (e, x))
        (known_id _ (known packet.id) fine (λ x. cc x))
  next_input (some jump) packet dt w known e fine a k =
      other_input packet dt w known a k (λ x. cc (e, x))
        (known_id _ (known packet.id) fine (λ x. cc x))
  next_input (some move_player) packet dt w known e fine a k =
      other_input packet dt w known a k (λ x. cc (e, x))
        (known_id _ (known packet.id) fine (λ x. cc x))
  next_input (some add_player) packet dt w known e fine a k =
      other_input packet dt w known a k (λ x. cc (e, x))
        (known_id _ (known packet.id) fine (λ x. cc x))
