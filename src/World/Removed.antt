-- ===== src/World/Removed.antt =====
-- What a client does to the world by sending `RemovePlayer` itself.
use endless_peak_server.Shared.{
  ℕ, suc, ◌≡◌, ◌≢◌, refl, sym, ap, ◌∙◌, inl, inr, false, Bool-cases, ◌==◌, List, [], ◌∷◌, none,
  some, ◌>>=◌, length,
}
use endless_peak_server.Double.{Double}
use endless_peak_server.Queue.{new_queue, size, ts_swap}
use endless_peak_server.Queue.Fifo.{try_pop_cases}
use endless_peak_server.Packet.{create_player, remove_player}
use endless_peak_server.World.{
  ServerPacket, PlayerMap, World, find, erase, subscript, remove_player_from,
}
use endless_peak_server.World.Loop.{process_input, process_inputs, tick, dispatch, swap_in}
use endless_peak_server.World.Players.{AllPresent, has}
use endless_peak_server.World.Inputs.{opcode_of, still_all_total}
use endless_peak_server.World.Faults.{input_null, one_input, nil-ne-cons, head_of, tail_of}

module _ {D : Type 0} where
  pub find-erase : (id : ℕ) (players : PlayerMap D) → find id (erase id players) ≡ none
  unfolding find erase
  find-erase id [] = refl
  find-erase id ((k, p) ∷ rest) = elim (Bool-cases (k == id)) [
    | inl own ↦ rw own (find-erase id rest)
    | inr other ↦ rw (other, find, other) (find-erase id rest)
  ]

  pub has-erase : (id : ℕ) (players : PlayerMap D) → has id (erase id players) ≡ false
  unfolding has
  has-erase id players = rw (find-erase id players)

module _ {D : Type 0} ⦃d : Double D⦄ where
  first_input :
      (n : ℕ) (packet : ServerPacket) (rest : List ServerPacket) (dt : D) (w : World D)
      → w.game_in.items ≡ packet ∷ rest
      → process_inputs (suc n) dt w ≡ (
          process_input packet dt (record w { game_in = record { items = rest } })
          >>= process_inputs n dt)
  unfolding process_inputs
  first_input n packet rest dt w e = elim (try_pop_cases w.game_in) [
    | inl (nothing, t) ↦ absurd (nil-ne-cons packet (sym nothing ∙ e))
    | inr (x, left, items, t) ↦
        let front = ap (λ r. r.0) t in
        let back = ap (λ r. r.1) t in
        let same : x ∷ left ≡ packet ∷ rest = sym items ∙ e in
        rw (front, process_inputs, back, head_of same, tail_of same)
  ]

  pub removal :
      (packet : ServerPacket) (dt : D) (w : World D)
      → opcode_of packet ≡ some remove_player
      → process_input packet dt w
        ≡ some (
            remove_player_from packet.id (record w { players = (subscript packet.id w.players).1 }))
  unfolding process_input dispatch remove_player_from
  removal packet dt w e = rw (e, dispatch)

  -- When no entry of the players is null and exactly two inputs wait, a client's `RemovePlayer` and
  -- then an input of the same client that is neither `CreatePlayer` nor `RemovePlayer`, the tick does
  -- not return: it dereferences a null pointer.
  pub removed_input_faults :
      (leaving packet : ServerPacket) (dt : D) (w : World D)
      → AllPresent w.players
      → w.net_in.items ≡ leaving ∷ packet ∷ []
      → packet.id ≡ leaving.id
      → opcode_of leaving ≡ some remove_player
      → opcode_of packet ≢ some create_player
      → opcode_of packet ≢ some remove_player
      → tick dt w ≡ none
  unfolding tick swap_in ts_swap size remove_player_from
  removed_input_faults leaving packet dt w a two same o c r =
      let (still, e, present, _) = still_all_total w.players a in
      let stilled : World D = record (swap_in w) { players = still } in
      let count : length w.net_in.items ≡ 2 = ap length two in
      let popped : World D = record stilled { game_in = record { items = packet ∷ [] } } in
      let left : World D =
        remove_player_from leaving.id
          (record popped { players = (subscript leaving.id still).1 }) in
      let gone : has packet.id left.players ≡ false =
        ap (λ i. has i left.players) same ∙ has-erase leaving.id (subscript leaving.id still).1 in
      rw
        (
          e,
          count,
          first_input 1 leaving (packet ∷ []) dt stilled two,
          removal leaving dt popped o,
          one_input packet dt left refl,
        )
        (input_null packet dt (record left { game_in = new_queue }) gone c r)
