-- ===== src/World/Census.antt =====
-- The map of players after the inputs of a whole tick of game/world/world.cpp.
use mathlib.Core.Path.{fun_ext}
use mathlib.Core.Option.{some-injective}
use endless_peak_server.Shared.{
  ℕ, zero, suc, ◌≡◌, ◌≢◌, ◌≤◌, refl, sym, ap, ◌∙◌, ◌⊎◌, subst, inl, inr, Bool, true, [], ◌∷◌,
  Option, some, arith, >>=-eq-some, length, nil_of_length,
}
use endless_peak_server.Double.{Double}
use endless_peak_server.Queue.{TsQueue, size, ts_swap}
use endless_peak_server.Queue.Fifo.{try_pop_cases}
use endless_peak_server.Packet.{Opcodes, create_player, remove_player}
use endless_peak_server.World.{ServerPacket, World}
use endless_peak_server.World.Loop.{
  process_input, process_inputs, update_all, tick, swap_in, flush_out,
}
use endless_peak_server.World.Players.{AllPresent, has}
use endless_peak_server.World.Inputs.{opcode_of, still_all_total}
use endless_peak_server.World.Frames.{process_input-Frame}
use endless_peak_server.World.Ticks.{update_all_lem}
use endless_peak_server.World.Protocol.{Follows, next_ids, ids_after, next_input, has-keys}
use endless_peak_server.World.Roster.{ids_of, created-ids, removed-ids, other-ids}

opcode_cases :
    (o : Option Opcodes)
    → (o ≡ some create_player)
      ⊎ ((o ≡ some remove_player) ⊎ ((o ≢ some create_player) × (o ≢ some remove_player)))
opcode_cases (some create_player) = inl refl
opcode_cases (some remove_player) = inr (inl refl)
opcode_cases _ = inr (inr ((λ e. cc), (λ e. cc)))

known_or :
    (o : Option Opcodes) (known : Bool)
    → (o ≡ some create_player) ⊎ (known ≡ true)
    → o ≢ some create_player
    → known ≡ true
known_or o known (inl created) n = absurd (n created)
known_or o known (inr here) n = here

module _ {D : Type 0} ⦃d : Double D⦄ where
  input-ids :
      (packet : ServerPacket) (dt : D) (w w' : World D)
      → AllPresent w.players
      → (opcode_of packet ≡ some create_player) ⊎ (has packet.id w.players ≡ true)
      → process_input packet dt w ≡ some w'
      → ids_of w'.players ≡ next_ids (opcode_of packet) packet.id (ids_of w.players)
  input-ids packet dt w w' a fine e = elim (opcode_cases (opcode_of packet)) [
    | inl o ↦ rw o (created-ids packet dt w w' o e)
    | inr (inl o) ↦ rw o (removed-ids packet dt w w' o e)
    | inr (inr (c, r)) ↦
        other-ids packet dt w w' a c r
          (known_or (opcode_of packet) (has packet.id w.players) fine c) e
  ]

  process_inputs-ids :
      (fuel : ℕ) (dt : D) (w w' : World D)
      → length w.game_in.items ≤ fuel
      → AllPresent w.players
      → Follows (ids_of w.players) w.game_in.items
      → process_inputs fuel dt w ≡ some w'
      → ids_of w'.players ≡ ids_after (ids_of w.players) w.game_in.items
  unfolding process_inputs
  process_inputs-ids zero dt w w' n a f e =
      let nothing : w.game_in.items ≡ [] = nil_of_length w.game_in.items n in
      rw nothing (ap (λ (v : World D). ids_of v.players) (sym (some-injective _ _ e)))
  process_inputs-ids (suc fuel) dt w w' n a f e = elim (try_pop_cases w.game_in) [
    | inl (nothing, t) ↦
        let front = ap (λ x. x.0) t in
        rw nothing (
          ap (λ (v : World D). ids_of v.players)
            (sym (some-injective _ _ (rw (front, process_inputs) at e))))
    | inr (x, rest, items, t) ↦
        let front = ap (λ x. x.0) t in
        let back = ap (λ x. x.1) t in
        let popped : World D = record w { game_in = record { items = rest } } in
        let (fine, others) : Follows (ids_of w.players) (x ∷ rest) = rw items at f in
        let (v, e1, e2) =
          >>=-eq-some (process_input x dt popped) (process_inputs fuel dt)
            (rw (front, process_inputs, back) at e) in
        let (u, made, (present, _)) =
          next_input (opcode_of x) x dt popped (ids_of w.players) refl fine a (λ j h. h) in
        let same : u ≡ v = some-injective _ _ (sym made ∙ e1) in
        let now : ids_of v.players ≡ next_ids (opcode_of x) x.id (ids_of w.players) =
          input-ids x dt popped v a fine e1 in
        let g = process_input-Frame x dt popped v e1 in
        let queue : v.game_in.items ≡ rest = ap (λ (q : TsQueue ServerPacket). q.items) g.game_in in
        let all : length w.game_in.items ≡ length (x ∷ rest) = ap length items in
        let left : length v.game_in.items ≡ length rest = ap length queue in
        let later : Follows (ids_of v.players) v.game_in.items =
          subst (λ k. Follows k v.game_in.items) (sym now) (rw queue others) in
        process_inputs-ids fuel dt v w' (omega (arith, n, all, left))
          (subst (λ (z : World D). AllPresent z.players) same present) later e2
        ∙ ap (λ k. ids_after k v.game_in.items) now
        ∙ ap (λ q. ids_after (next_ids (opcode_of x) x.id (ids_of w.players)) q) queue
        ∙ ap (λ q. ids_after (ids_of w.players) q) (sym items)
  ]

  -- After a tick the players are those that its inputs leave, one after the other.
  pub tick-ids :
      (dt : D) (w w' : World D)
      → AllPresent w.players
      → Follows (ids_of w.players) w.net_in.items
      → tick dt w ≡ some w'
      → ids_of w'.players ≡ ids_after (ids_of w.players) w.net_in.items
  unfolding tick swap_in flush_out ts_swap size
  tick-ids dt w w' a f e =
      let (still, made, present, same) = still_all_total w.players a in
      let stilled : World D = record (swap_in w) { players = still } in
      let kept : ids_of still ≡ ids_of w.players = fun_ext same in
      let (v, e1, e2) =
        >>=-eq-some (process_inputs (length w.net_in.items) dt stilled) _ (rw made at e) in
      let (u, e3, e4) = >>=-eq-some (update_all dt v.players v) _ e2 in
      let (_, keys) = update_all_lem dt v.players v u e3 in
      ap (λ (z : World D). ids_of z.players) (sym (some-injective _ _ e4))
      ∙ fun_ext (λ j. has-keys j u.0 v.players keys)
      ∙ process_inputs-ids (length w.net_in.items) dt stilled v (omega arith) present
          (subst (λ k. Follows k w.net_in.items) (sym kept) f) e1
      ∙ ap (λ k. ids_after k w.net_in.items) kept
