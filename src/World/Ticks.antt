-- ===== src/World/Ticks.antt =====
-- What a tick does with the queues and the players.
use mathlib.Core.Option.{some-injective}
use endless_peak_server.Shared.{
  ℕ, zero, suc, ◌≤◌, ◌≡◌, refl, sym, ap, ◌∙◌, List, [], ◌∷◌, ◌++◌, map, none, some, length, arith,
  append_assoc, append-nil, inl, inr, nil_of_length, >>=-eq-some, some-ne-none, subst,
}
use endless_peak_server.Double.{Double}
use endless_peak_server.Packet.{move_player_packet}
use endless_peak_server.Packet.RoundTrip.{insert_all}
use endless_peak_server.Queue.{TsQueue, push, size, ts_swap}
use endless_peak_server.Queue.Fifo.{try_pop_cases}
use endless_peak_server.Player.{Player, GameConfig}
use endless_peak_server.World.{ServerPacket, PlayerMap, World, update, move_player_by}
use endless_peak_server.Swept.{Tile}
use endless_peak_server.World.Loop.{
  flush, update_all, still_all, process_inputs, tick, flush_out, swap_in,
}
use endless_peak_server.World.Frames.{process_inputs-Frame}
use endless_peak_server.World.Answers.{Answers, moved, move_packets}

-- With fuel for every packet the loop moves the whole queue, in order, behind what is there.
pub flush_lem :
    (fuel : ℕ) (from to : TsQueue ServerPacket)
    → length from.items ≤ fuel
    → ((flush fuel from to).0.items ≡ []) × ((flush fuel from to).1.items ≡ to.items ++ from.items)
unfolding flush
flush_lem zero from to h =
    let e : from.items ≡ [] = nil_of_length from.items h in (e, rw e (sym (append-nil to.items)))
flush_lem (suc fuel) from to h = elim (try_pop_cases from) [
  | inl (e, r) ↦ rw (r, flush) (e, rw e (sym (append-nil to.items)))
  | inr (x, rest, e, r) ↦
      let left : TsQueue ServerPacket = record { items = rest } in
      let (done, moved) = flush_lem fuel left (push x to) (omega (arith, ap length e)) in
      let front = ap (λ t. t.0) r in
      let back = ap (λ t. t.1) r in
      rw (front, flush, back)
        (
          done,
          moved
              ∙ unfold push in
                append_assoc to.items (x ∷ []) rest ∙ ap (λ xs. to.items ++ xs) (sym e),
        )
]

module _ {D : Type 0} ⦃d : Double D⦄ where
  abbrev pub keys : PlayerMap D → List ℕ
  keys = map λ e. e.0

  update-packet :
      (config : GameConfig) (tiles : List (Tile D)) (dt : D) (p : Player D)
      (r : Player D × ServerPacket)
      → update config tiles dt p ≡ some r
      → r.1 ≡ moved r.0
  unfolding update move_player_packet insert_all
  update-packet config tiles dt p r e =
      let (p', _, e') = >>=-eq-some (move_player_by config tiles _) _ e in
      let same = some-injective _ _ e' in
      ap (λ x. x.1) (sym same) ∙ ap (λ (x : Player D × ServerPacket). moved x.0) same

  abbrev pub Updated : World D → PlayerMap D → PlayerMap D × TsQueue ServerPacket → Type 0
  Updated w ps (ps', queue) =
      (queue.items ≡ w.game_out.items ++ move_packets ps') × (keys ps' ≡ keys ps)

  -- The updates queue one packet for each player, in the order of the map, and keep the keys.
  pub update_all_lem :
      (dt : D) (ps : PlayerMap D) (w : World D) (res : PlayerMap D × TsQueue ServerPacket)
      → update_all dt ps w ≡ some res
      → Updated w ps res
  unfolding update_all
  update_all_lem dt [] w res e =
      subst (Updated w []) (some-injective _ _ e) (sym (append-nil w.game_out.items), refl)
  update_all_lem dt ((k, none) ∷ rest) w res e = absurd (some-ne-none res (sym e))
  update_all_lem dt ((k, some p) ∷ rest) w res e =
      let (r, e1, e2) = >>=-eq-some (update w.config w.tiles dt p) _ e in
      let w' = record w { game_out = push r.1 w.game_out } in
      let (rest', e3, e4) = >>=-eq-some (update_all dt rest w') _ e2 in
      let (out, same) = update_all_lem dt rest w' rest' e3 in
      subst (Updated w ((k, some p) ∷ rest)) (some-injective _ _ e4) (
        out
            ∙ unfold push in
              append_assoc w.game_out.items (r.1 ∷ []) (move_packets rest'.0)
              ∙ ap (λ x. w.game_out.items ++ (x ∷ move_packets rest'.0))
                  (update-packet w.config w.tiles dt p r e1),
        ap (λ xs. k ∷ xs) same,
      )

  -- The answers to the inputs that waited, and the players before and after the inputs: those of the
  -- world with their velocities along x reset, and those whom the movements are then for.
  abbrev pub Answering :
      D → World D → PlayerMap D → List ServerPacket → PlayerMap D → World D → Type 0
  Answering dt w before sent after w' =
      (still_all w.players ≡ some before)
      × Answers dt w.config w.net_in.items before sent after
      × (keys w'.players ≡ keys after)

  abbrev pub Ticked : D → World D → PlayerMap D → List ServerPacket → PlayerMap D → World D → Type 0
  Ticked dt w before sent after w' =
      (w'.net_out.items
        ≡ w.net_out.items ++ ((w.game_out.items ++ sent) ++ move_packets w'.players))
      × Answering dt w before sent after w'
      × (w'.game_in.items ≡ [])
      × (w'.net_in.items ≡ w.game_in.items)
      × (w'.game_out.items ≡ [])

  -- After a tick that returns, the world has taken what clients had sent, whatever arrives now starts
  -- from an empty queue, and the network's queue has got, in order: what it had, what the world had
  -- queued, the answers to each input, in the order of the inputs, and one position packet for each
  -- player, with the player's position. The answers are, byte for byte, for `CreatePlayer` the
  -- player's own packet with its identifier, start and size, to it, then `SpawnPlayers` with the
  -- count and the other players as the inputs up to this one have left them, to it, and `AddPlayer`
  -- with its identifier, start and size to the others; for `RemovePlayer` the player's identifier to
  -- everyone; and for any other input nothing. A position packet is `MovePlayer` with the
  -- identifier and the coordinates, for everyone.
  pub tick_lem :
      (dt : D) (w w' : World D)
      → tick dt w ≡ some w'
      → (before : PlayerMap D) × (sent : List ServerPacket) × (after : PlayerMap D) × Ticked dt w
          before sent after w'
  unfolding tick swap_in flush_out ts_swap size
  tick_lem dt w w' e =
      let swapped = swap_in w in
      let (still, e1, e2) = >>=-eq-some (still_all swapped.players) _ e in
      let stilled = record swapped { players = still } in
      let (v, e3, e4) = >>=-eq-some (process_inputs (size swapped.game_in) dt stilled) _ e2 in
      let (r, e5, e6) = >>=-eq-some (update_all dt v.players v) _ e4 in
      let (done, sent, all_answers, f) =
        process_inputs-Frame (size swapped.game_in) dt stilled v (omega arith) e3 in
      let (queued, same_keys) = update_all_lem dt v.players v r e5 in
      let (emptied, all) = flush_lem (length r.1.items) r.1 v.net_out (omega arith) in
      (
        still,
        sent,
        v.players,
        subst (Ticked dt w still sent v.players) (some-injective _ _ e6) (
          all
              ∙ ap (λ (q : TsQueue ServerPacket). q.items ++ r.1.items) f.net_out
              ∙ ap (λ xs. w.net_out.items ++ xs) (queued ∙ ap (λ xs. xs ++ move_packets r.0) f.out),
          (e1, all_answers, same_keys),
          done,
          ap (λ (q : TsQueue ServerPacket). q.items) f.net_in,
          emptied,
        ),
      )
