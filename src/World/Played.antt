-- ===== src/World/Played.antt =====
-- `World::GameLoop` on inputs that keep to the protocol.
use endless_peak_server.Shared.{
  ℕ, zero, suc, ◌≡◌, refl, sym, ap, ◌∙◌, subst, inl, inr, List, [], ◌∷◌, ◌++◌, some, length, arith,
  nil_of_length, ◌≤◌,
}
use endless_peak_server.Double.{Double}
use endless_peak_server.Queue.{TsQueue, size, ts_swap}
use endless_peak_server.Queue.Fifo.{try_pop_cases}
use endless_peak_server.World.{ServerPacket, World}
use endless_peak_server.World.Loop.{process_inputs, tick, swap_in, flush_out}
use endless_peak_server.World.Inputs.{opcode_of, IsReady, still_all_total, update_all_total}
use endless_peak_server.World.Frames.{process_input-Frame}
use endless_peak_server.World.Ticks.{update_all_lem, tick_lem}
use endless_peak_server.World.Protocol.{
  Ids, Knows, Follows, Follows-append, next_ids, ids_after, arrivals, next_input, has-keys,
}
use endless_peak_server.World.Rounds.{Round, receive, game_loop}

module _ {D : Type 0} ⦃d : Double D⦄ where
  process_inputs-Follows :
      (fuel : ℕ) (dt : D) (w : World D) (known : Ids)
      → length w.game_in.items ≤ fuel
      → IsReady w
      → Knows known w.players
      → Follows known w.game_in.items
      → (w' : World D) × (process_inputs fuel dt w ≡ some w')
        × IsReady w'
        × Knows (ids_after known w.game_in.items) w'.players
  unfolding process_inputs
  process_inputs-Follows zero dt w known n r k f =
      let e : w.game_in.items ≡ [] = nil_of_length w.game_in.items n in (w, refl, r, rw e k)
  process_inputs-Follows (suc fuel) dt w known n r k f = elim (try_pop_cases w.game_in) [
    | inl (nothing, t) ↦
        let front = ap (λ x. x.0) t in (w, rw (front, process_inputs), r, rw nothing k)
    | inr (x, rest, items, t) ↦
        let front = ap (λ x. x.0) t in
        let back = ap (λ x. x.1) t in
        let popped : World D = record w { game_in = record { items = rest } } in
        let (fine, others) : Follows known (x ∷ rest) = rw items at f in
        let (v, e, (present, knows)) =
          next_input (opcode_of x) x dt popped known refl fine r.present k in
        let g = process_input-Frame x dt popped v e in
        let ready : IsReady v = record {
          present = present;
          covered = rw (g.config, g.tiles) r.covered;
        } in
        let queue : v.game_in.items ≡ rest = ap (λ (q : TsQueue ServerPacket). q.items) g.game_in in
        let all : length w.game_in.items ≡ length (x ∷ rest) = ap length items in
        let left : length v.game_in.items ≡ length rest = ap length queue in
        let later = next_ids (opcode_of x) x.id known in
        let (w', e', ready', knows') =
          process_inputs-Follows fuel dt v later (omega (arith, n, all, left)) ready knows
            (rw queue others) in
        let ended : Knows (ids_after known w.game_in.items) w'.players =
          subst (λ q. Knows (ids_after known q) w'.players) (sym items)
            (subst (λ q. Knows (ids_after later q) w'.players) queue knows') in
        (w', rw (front, process_inputs, back, e) e', ready', ended)
  ]

  pub tick-Follows :
      (dt : D) (w : World D) (known : Ids)
      → IsReady w
      → Knows known w.players
      → Follows known w.net_in.items
      → (w' : World D) × (tick dt w ≡ some w')
        × IsReady w'
        × Knows (ids_after known w.net_in.items) w'.players
  unfolding tick swap_in flush_out ts_swap size
  tick-Follows dt w known r k f =
      let (still, e1, present, same) = still_all_total w.players r.present in
      let stilled : World D = record (swap_in w) { players = still } in
      let (v, e2, ready, knows) =
        process_inputs-Follows (length w.net_in.items) dt stilled known (omega arith)
          (record { present = present; covered = r.covered }) (λ j h. same j ∙ k j h) f in
      let (u, e3, a) = update_all_total dt v.players v ready.present ready.covered in
      let (_, kept) = update_all_lem dt v.players v u e3 in
      (
        flush_out (record v { players = u.0; game_out = u.1 }),
        rw (e1, e2, e3),
        record { present = a; covered = ready.covered },
        λ j h. has-keys j u.0 v.players kept ∙ knows j h,
      )

  -- While every input creates its player or comes from a player that is in the map (was created and
  -- not removed since), a game loop that starts from a ready world with empty queues returns after
  -- any number of rounds, without dereferencing a null pointer, and leaves a ready world.
  pub game_loop_total :
      (rounds : List (Round D)) (w : World D) (known : Ids)
      → IsReady w
      → w.game_in.items ≡ []
      → w.net_in.items ≡ []
      → Knows known w.players
      → Follows known (arrivals rounds)
      → (w' : World D) × (game_loop rounds w ≡ some w') × IsReady w'
  unfolding game_loop receive
  game_loop_total [] w known r g n k f = (w, refl, r)
  game_loop_total (round ∷ rounds) w known r g n k f =
      let arrived = receive round.arrived w in
      let (now, later) = Follows-append known round.arrived (arrivals rounds) f in
      let queued : arrived.net_in.items ≡ round.arrived = ap (λ xs. xs ++ round.arrived) n in
      let (v, e, ready, knows) =
        tick-Follows round.delta arrived known (record { present = r.present; covered = r.covered })
          k (rw queued now) in
      let (_, _, _, (_, _, empty, swapped, _)) = tick_lem round.delta arrived v e in
      let (w', e', ready') =
        game_loop_total rounds v (ids_after known round.arrived) ready empty (swapped ∙ g)
          (subst (λ q. Knows (ids_after known q) v.players) queued knows) later in
      (w', rw e e', ready')
