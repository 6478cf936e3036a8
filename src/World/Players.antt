-- ===== src/World/Players.antt =====
-- The map of players: every entry a player under its own identifier.
use endless_peak_server.Shared.{
  ℕ, ◌≡◌, refl, ap, inl, inr, Bool, true, false, if◌then◌else◌, ◌==◌, [], ◌∷◌, Option, none, some,
  arith, Bool-cases, sub64, length,
}
use endless_peak_server.Double.{Double}
use endless_peak_server.Packet.{
  NetPacket, insert, set_head_opcode, to_uint16, spawn_players, empty_packet,
}
use endless_peak_server.Player.{Player}
use endless_peak_server.World.{
  PlayerMap, find, assign, erase, subscript, insert_others, insert_player, spawn_packet,
}

module _ {D : Type 0} where
  abbrev pub AllPresent : PlayerMap D → Type 0
  AllPresent [] = Unit {0}
  AllPresent ((k, none) ∷ rest) = ⊥
  AllPresent ((k, some p) ∷ rest) = (p.id ≡ k) × AllPresent rest

  is_key : Option (Option (Player D)) → Bool
  is_key none = false
  is_key (some p) = true

  -- The map has an entry under the identifier.
  unfoldable pub has : ℕ → PlayerMap D → Bool
  unfolding is_key
  has id players = is_key (find id players)

  pub assign-AllPresent :
      (id : ℕ) (p : Player D) (players : PlayerMap D)
      → p.id ≡ id
      → AllPresent players
      → AllPresent (assign id (some p) players)
  unfolding assign
  assign-AllPresent id p [] e a = (e, tt)
  assign-AllPresent id p ((k, none) ∷ rest) e a = absurd a
  assign-AllPresent id p ((k, some q) ∷ rest) e a =
      ground (arith, assign-AllPresent id p rest e a.1)

  -- A null entry goes when its key is assigned a player, or erased.
  pub assign-assign :
      (id : ℕ) (p : Player D) (o : Option (Player D)) (players : PlayerMap D)
      → assign id (some p) (assign id o players) ≡ assign id (some p) players
  unfolding assign
  assign-assign id p o [] = ground arith
  assign-assign id p o ((k, q) ∷ rest) = elim (Bool-cases (k == id)) [
    | inl e ↦ rw (e, assign, e)
    | inr e ↦ rw (e, assign, e) (ap (λ xs. (k, q) ∷ xs) (assign-assign id p o rest))
  ]

  pub erase-AllPresent :
      (id : ℕ) (players : PlayerMap D) → AllPresent players → AllPresent (erase id players)
  unfolding erase
  erase-AllPresent id [] a = tt
  erase-AllPresent id ((k, none) ∷ rest) a = absurd a
  erase-AllPresent id ((k, some q) ∷ rest) a = ground (arith, erase-AllPresent id rest a.1)

  pub erase-assign :
      (id : ℕ) (o : Option (Player D)) (players : PlayerMap D)
      → erase id (assign id o players) ≡ erase id players
  unfolding assign erase
  erase-assign id o [] = ground arith
  erase-assign id o ((k, q) ∷ rest) = elim (Bool-cases (k == id)) [
    | inl e ↦ rw (e, erase, e)
    | inr e ↦ rw (e, erase, e) (ap (λ xs. (k, q) ∷ xs) (erase-assign id o rest))
  ]

  pub has-assign :
      (j id : ℕ) (o : Option (Player D)) (players : PlayerMap D)
      → has j players ≡ true
      → has j (assign id o players) ≡ true
  unfolding has find assign
  has-assign j id o [] h = cc
  has-assign j id o ((k, q) ∷ rest) h = ground (arith, has-assign j id o rest)

  -- What `players_[id]` finds under a key that is there.
  pub find-AllPresent :
      (id : ℕ) (players : PlayerMap D)
      → AllPresent players
      → has id players ≡ true
      → (p : Player D) × (find id players ≡ some (some p)) × (p.id ≡ id)
  unfolding has find
  find-AllPresent id [] a h = cc
  find-AllPresent id ((k, none) ∷ rest) a h = absurd a
  find-AllPresent id ((k, some q) ∷ rest) a h = elim (Bool-cases (k == id)) [
    | inl e ↦ (q, rw e, ground arith)
    | inr e ↦ rw e (find-AllPresent id rest a.1 (rw (e, find, has) at h))
  ]

  pub has-cons :
      (j k : ℕ) (o q : Option (Player D)) (players others : PlayerMap D)
      → has j players ≡ has j others
      → has j ((k, o) ∷ players) ≡ has j ((k, q) ∷ others)
  unfolding has find
  has-cons j k o q players others e = elim (Bool-cases (k == j)) [
    | inl here ↦ rw here
    | inr there ↦ rw there e
  ]

  pub has-find :
      (id : ℕ) (players : PlayerMap D) (o : Option (Player D))
      → find id players ≡ some o
      → has id players ≡ true
  unfolding has
  has-find id players o e = rw (e, is_key)

  pub find-has : (id : ℕ) (players : PlayerMap D) → has id players ≡ false → find id players ≡ none
  unfolding has
  find-has id players h = ground arith

  pub subscript_known :
      (id : ℕ) (players : PlayerMap D) (p : Player D)
      → find id players ≡ some (some p)
      → subscript id players ≡ (some p, players)
  unfolding subscript
  subscript_known id players p e = rw (e, subscript)

  pub subscript_unknown :
      (id : ℕ) (players : PlayerMap D)
      → find id players ≡ none
      → subscript id players ≡ (none, assign id none players)
  unfolding subscript
  subscript_unknown id players e = rw (e, subscript)

module _ {D : Type 0} ⦃d : Double D⦄ where
  pub insert_others_total :
      (id : ℕ) (players : PlayerMap D) (packet : NetPacket)
      → AllPresent players
      → (result : NetPacket) × (insert_others id players packet ≡ some result)
  unfolding insert_others
  insert_others_total id [] packet a = (packet, refl)
  insert_others_total id ((k, none) ∷ rest) packet a = absurd a
  insert_others_total id ((k, some p) ∷ rest) packet a =
      insert_others_total id rest (if k == id then packet else insert_player p packet) a.1

  pub spawn_packet_total :
      (id : ℕ) (players : PlayerMap D)
      → AllPresent players
      → (result : NetPacket) × (spawn_packet id players ≡ some result)
  unfolding spawn_packet
  spawn_packet_total id players a =
      insert_others_total id players
        (insert 8 (sub64 (length players) 1)
          (set_head_opcode (to_uint16 spawn_players) empty_packet))
        a
