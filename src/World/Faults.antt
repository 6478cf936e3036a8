-- ===== src/World/Faults.antt =====
-- The input that a tick does not survive: `players_[id]` inserts a null pointer for a player that is
-- not there, and nothing tests it.
use endless_peak_server.Shared.{
  ℕ, ◌≡◌, ◌≢◌, refl, sym, ap, ◌∙◌, inl, inr, false, List, [], ◌∷◌, Option, none, some, ◌>>=◌,
  length, arith, Option-cases,
}
use endless_peak_server.Double.{Double}
use endless_peak_server.Queue.{new_queue, push, size, ts_swap}
use endless_peak_server.Queue.Fifo.{try_pop_cases}
use endless_peak_server.Packet.{Opcodes, create_player, move_left, move_right, jump, remove_player}
use endless_peak_server.World.{ServerPacket, PlayerMap, World, update, assign}
use endless_peak_server.World.Loop.{
  update_all, process_input, process_inputs, tick, change, dispatch, swap_in, flush_out,
}
use endless_peak_server.World.Players.{AllPresent, has, find-has, subscript_unknown}
use endless_peak_server.World.Inputs.{opcode_of, still_all_total}

bind_some : {A : Type 0} (m : Option A) → (m >>= some) ≡ m
bind_some none = refl
bind_some (some a) = refl

pub nil-ne-cons : {A : Type 0} (a : A) {xs : List A} → [] ≡ a ∷ xs → ⊥
nil-ne-cons a e = cc

pub head_of : {A : Type 0} {a b : A} {xs ys : List A} → a ∷ xs ≡ b ∷ ys → a ≡ b
head_of e = cc

pub tail_of : {A : Type 0} {a b : A} {xs ys : List A} → a ∷ xs ≡ b ∷ ys → xs ≡ ys
tail_of e = cc

module _ {D : Type 0} where
  abbrev HasNull : PlayerMap D → Type 0
  HasNull [] = ⊥
  HasNull ((k, none) ∷ rest) = Unit {0}
  HasNull ((k, some p) ∷ rest) = HasNull rest

  assign-HasNull : (id : ℕ) (players : PlayerMap D) → HasNull (assign id none players)
  unfolding assign
  assign-HasNull id [] = tt
  assign-HasNull id ((k, none) ∷ rest) = ground arith
  assign-HasNull id ((k, some p) ∷ rest) = ground (arith, assign-HasNull id rest)

module _ {D : Type 0} ⦃d : Double D⦄ where
  update_all_null :
      (dt : D) (players : PlayerMap D) (w : World D)
      → HasNull players
      → update_all dt players w ≡ none
  unfolding update_all
  update_all_null dt [] w h = absurd h
  update_all_null dt ((k, none) ∷ rest) w h = refl
  update_all_null dt ((k, some p) ∷ rest) w h = elim (Option-cases (update w.config w.tiles dt p)) [
    | inl e ↦ rw e
    | inr (r, e) ↦ rw (e, update_all_null dt rest (record w { game_out = push r.1 w.game_out }) h)
  ]

  -- The rest of a tick behind its one input.
  abbrev finish : D → World D → Option (World D)
  finish dt w = update_all dt w.players w >>= λ r.
      some (flush_out (record w { players = r.0; game_out = r.1 }))

  dispatch_null :
      (o : Option Opcodes) (id : ℕ) (dt : D) (w : World D)
      → o ≢ some create_player
      → o ≢ some remove_player
      → HasNull w.players
      → (dispatch o id none dt w >>= finish dt) ≡ none
  unfolding dispatch change
  dispatch_null (some create_player) id dt w c r h = absurd (c refl)
  dispatch_null (some remove_player) id dt w c r h = absurd (r refl)
  dispatch_null (some move_left) id dt w c r h = refl
  dispatch_null (some move_right) id dt w c r h = refl
  dispatch_null (some jump) id dt w c r h = refl
  dispatch_null _ id dt w c r h = rw (update_all_null dt w.players w h)

  pub input_null :
      (packet : ServerPacket) (dt : D) (w : World D)
      → has packet.id w.players ≡ false
      → opcode_of packet ≢ some create_player
      → opcode_of packet ≢ some remove_player
      → (process_input packet dt w >>= finish dt) ≡ none
  unfolding process_input
  input_null packet dt w missing c r =
      rw (subscript_unknown packet.id w.players (find-has packet.id w.players missing)) (
        dispatch_null (opcode_of packet) packet.id dt
          (record w { players = assign packet.id none w.players }) c r
          (assign-HasNull packet.id w.players))

  pub one_input :
      (packet : ServerPacket) (dt : D) (w : World D)
      → w.game_in.items ≡ packet ∷ []
      → process_inputs 1 dt w ≡ process_input packet dt (record w { game_in = new_queue })
  unfolding process_inputs
  one_input packet dt w e = elim (try_pop_cases w.game_in) [
    | inl (nothing, t) ↦ absurd (nil-ne-cons packet (sym nothing ∙ e))
    | inr (x, rest, items, t) ↦
        let front = ap (λ r. r.0) t in
        let back = ap (λ r. r.1) t in
        let same : x ∷ rest ≡ packet ∷ [] = sym items ∙ e in
        rw (front, process_inputs, back, head_of same, tail_of same)
          (bind_some (process_input packet dt (record w { game_in = new_queue })))
  ]

  -- A tick whose one input has an opcode other than `CreatePlayer` and `RemovePlayer` and comes from
  -- an identifier with no player does not return: it dereferences the null pointer that the lookup
  -- inserted, at the input or at the update of the players.
  pub unknown_input_faults :
      (packet : ServerPacket) (dt : D) (w : World D)
      → AllPresent w.players
      → w.net_in.items ≡ packet ∷ []
      → has packet.id w.players ≡ false
      → opcode_of packet ≢ some create_player
      → opcode_of packet ≢ some remove_player
      → tick dt w ≡ none
  unfolding tick swap_in ts_swap size
  unknown_input_faults packet dt w a one missing c r =
      let (still, e, present, same) = still_all_total w.players a in
      let stilled : World D = record (swap_in w) { players = still } in
      let count : length w.net_in.items ≡ 1 = ap length one in
      rw (e, count, one_input packet dt stilled one)
        (input_null packet dt (record stilled { game_in = new_queue }) (same packet.id ∙ missing) c
          r)
