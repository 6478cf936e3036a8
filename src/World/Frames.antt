-- ===== src/World/Frames.antt =====
-- What processing the inputs of a tick adds to the queue of packets, and what it leaves alone.
use mathlib.Core.Option.{some-injective}
use endless_peak_server.Shared.{
  ℕ, zero, suc, ◌≤◌, ◌≡◌, refl, sym, ap, ◌∙◌, List, [], ◌∷◌, ◌++◌, Option, none, some, length,
  arith, append_assoc, append-nil, inl, inr, nil_of_length, >>=-eq-some, some-ne-none, subst,
}
use endless_peak_server.Double.{Double}
use endless_peak_server.Queue.{TsQueue, push}
use endless_peak_server.Queue.Fifo.{try_pop_cases}
use endless_peak_server.Packet.{
  NetPacket, Opcodes, create_player, move_left, move_right, jump, remove_player,
  create_player_packet, add_player_packet, remove_player_packet, to_opcode, get_head_opcode,
  box_packet,
}
use endless_peak_server.Packet.RoundTrip.{insert_all}
use endless_peak_server.Player.{Player, new_player}
use endless_peak_server.World.{
  rpc, rpc_others, ServerPacket, PlayerMap, World, add_player_to, announce, spawn_packet, assign,
  remove_player_from, subscript,
}
use endless_peak_server.World.Loop.{process_input, process_inputs, change, dispatch, start_player}
use endless_peak_server.World.Spawn.{player_fields, spawn_packet-eq}
use endless_peak_server.World.Answers.{answers, answers_to, announced, Answers}

three :
    {A : Type 0} (xs : List A) (a b c : A)
    → ((xs ++ (a ∷ [])) ++ (b ∷ [])) ++ (c ∷ []) ≡ xs ++ (a ∷ b ∷ c ∷ [])
three xs a b c =
    append_assoc (xs ++ (a ∷ [])) (b ∷ []) (c ∷ []) ∙ append_assoc xs (a ∷ []) (b ∷ c ∷ [])

module _ {D : Type 0} ⦃d : Double D⦄ where
  -- What processing inputs leaves alone, and that the given packets are added behind the queued ones.
  pub record Frame (sent : List ServerPacket) (w w' : World D) : Type 0 where
    pub game_in : w'.game_in ≡ w.game_in
    pub net_in : w'.net_in ≡ w.net_in
    pub net_out : w'.net_out ≡ w.net_out
    pub config : w'.config ≡ w.config
    pub tiles : w'.tiles ≡ w.tiles
    pub out : w'.game_out.items ≡ w.game_out.items ++ sent

  Frame-refl :
      (w w' : World D) (players : PlayerMap D) → record w { players = players } ≡ w' → Frame [] w w'
  Frame-refl w w' players e = subst (Frame [] w) e (record {
    game_in = refl;
    net_in = refl;
    net_out = refl;
    config = refl;
    tiles = refl;
    out = sym (append-nil w.game_out.items);
  })

  change-Frame :
      (id : ℕ) (f : Player D → Player D) (p : Option (Player D)) (w : World D)
      (players : PlayerMap D) (w' : World D)
      → change id f p (record w { players = players }) ≡ some w'
      → Frame [] w w'
  unfolding change
  change-Frame id f none w players w' e = absurd (some-ne-none w' (sym e))
  change-Frame id f (some p) w players w' e = Frame-refl w w' _ (some-injective _ _ e)

  -- What the three `Push` calls of `AddPlayer` queue.
  announce-out :
      (p : Player D) (spawn : NetPacket) (w : World D)
      → (announce p spawn w).game_out.items
        ≡ w.game_out.items
          ++ (record {
            packet = create_player_packet p.id (d.bits p.x) (d.bits p.y) p.width p.height;
            id = p.id;
            type = rpc;
          }
              ∷ record { packet = spawn; id = p.id; type = rpc }
              ∷ record {
                packet = add_player_packet p.id (d.bits p.x) (d.bits p.y) p.width p.height;
                id = p.id;
                type = rpc_others;
              }
              ∷ [])
  unfolding announce push
  announce-out p spawn w = three w.game_out.items _ _ _

  add-Frame :
      (p : Player D) (w : World D) (players : PlayerMap D) (w' : World D)
      → add_player_to p (record w { players = players }) ≡ some w'
      → Frame (announced (player_fields p) p.id w'.players) w w'
  unfolding add_player_to announce create_player_packet add_player_packet box_packet insert_all
  add-Frame p w players w' e =
      let map = assign p.id (some p) players in
      let (spawn, made, e') = >>=-eq-some (spawn_packet p.id map) _ e in
      let same = spawn_packet-eq p.id map spawn made in
      subst (λ (v : World D). Frame (announced (player_fields p) p.id v.players) w v)
        (some-injective _ _ e')
        (record {
          game_in = refl;
          net_in = refl;
          net_out = refl;
          config = refl;
          tiles = refl;
          out =
              subst
                (λ (x : NetPacket).
                  (announce p x (record w { players = map })).game_out.items
                  ≡ w.game_out.items ++ announced (player_fields p) p.id map)
                (sym same) (announce-out p _ (record w { players = map }));
        })

  dispatch-Frame :
      (o : Option Opcodes) (id : ℕ) (p : Option (Player D)) (dt : D) (w : World D)
      (players : PlayerMap D) (w' : World D)
      → dispatch o id p dt (record w { players = players }) ≡ some w'
      → Frame (answers w.config o id w'.players) w w'
  unfolding dispatch remove_player_from push start_player new_player remove_player_packet insert_all
  dispatch-Frame (some create_player) id p dt w players w' e =
      add-Frame (start_player id w.config) w players w' e
  dispatch-Frame (some remove_player) id p dt w players w' e =
      subst (λ (v : World D). Frame (answers w.config (some remove_player) id v.players) w v)
        (some-injective _ _ e)
        (record {
          game_in = refl;
          net_in = refl;
          net_out = refl;
          config = refl;
          tiles = refl;
          out = refl;
        })
  dispatch-Frame (some move_left) id p dt w players w' e = change-Frame id _ p w players w' e
  dispatch-Frame (some move_right) id p dt w players w' e = change-Frame id _ p w players w' e
  dispatch-Frame (some jump) id p dt w players w' e = change-Frame id _ p w players w' e
  dispatch-Frame _ id p dt w players w' e = Frame-refl w w' players (some-injective _ _ e)

  pub process_input-Frame :
      (packet : ServerPacket) (dt : D) (w w' : World D)
      → process_input packet dt w ≡ some w'
      → Frame (answers_to w.config packet w'.players) w w'
  unfolding process_input
  process_input-Frame packet dt w w' e =
      dispatch-Frame (to_opcode (get_head_opcode packet.packet)) packet.id _ dt w
        (subscript packet.id w.players).1 w' e

  Frame-trans :
      (es es' : List ServerPacket) (w w' w'' : World D)
      → Frame es w w'
      → Frame es' w' w''
      → Frame (es ++ es') w w''
  Frame-trans es es' w w' w'' f g = record {
    game_in = g.game_in ∙ f.game_in;
    net_in = g.net_in ∙ f.net_in;
    net_out = g.net_out ∙ f.net_out;
    config = g.config ∙ f.config;
    tiles = g.tiles ∙ f.tiles;
    out = g.out ∙ ap (λ xs. xs ++ es') f.out ∙ append_assoc w.game_out.items es es';
  }

  Frame-with :
      (es : List ServerPacket) (w w' : World D) (queue : TsQueue ServerPacket)
      → Frame es w w'
      → Frame es (record w { game_in = queue }) (record w' { game_in = queue })
  Frame-with es w w' queue f = record {
    game_in = refl;
    net_in = f.net_in;
    net_out = f.net_out;
    config = f.config;
    tiles = f.tiles;
    out = f.out;
  }

  -- The inputs are gone, and their answers are queued.
  abbrev pub Drained : D → World D → World D → Type 0
  Drained dt w w' =
      (w'.game_in.items ≡ [])
      × (sent : List ServerPacket) × Answers dt w.config w.game_in.items w.players sent w'.players
      × Frame sent (record w { game_in = w'.game_in }) w'

  nothing-Drained : (dt : D) (w w' : World D) → w.game_in.items ≡ [] → w ≡ w' → Drained dt w w'
  nothing-Drained dt w w' e same = subst (Drained dt w) same (
    e,
    [],
    subst (λ xs. Answers dt w.config xs w.players [] w.players) (sym e) (refl, refl),
    Frame-refl w w w.players refl,
  )

  -- With fuel for every packet the loop empties the queue.
  pub process_inputs-Frame :
      (fuel : ℕ) (dt : D) (w w' : World D)
      → length w.game_in.items ≤ fuel
      → process_inputs fuel dt w ≡ some w'
      → Drained dt w w'
  unfolding process_inputs
  process_inputs-Frame zero dt w w' h e =
      nothing-Drained dt w w' (nil_of_length w.game_in.items h) (some-injective _ _ e)
  process_inputs-Frame (suc fuel) dt w w' h e = elim (try_pop_cases w.game_in) [
    | inl (nothing, r) ↦
        let front = ap (λ t. t.0) r in
        nothing-Drained dt w w' nothing (some-injective _ _ (rw (front, process_inputs) at e))
    | inr (x, rest, items, r) ↦
        let front = ap (λ t. t.0) r in
        let back = ap (λ t. t.1) r in
        let left : TsQueue ServerPacket = record { items = rest } in
        let start : World D = record w { game_in = left } in
        let (v, e1, e2) =
          >>=-eq-some (process_input x dt start) (process_inputs fuel dt)
            (rw (front, process_inputs, back) at e) in
        let f : Frame (answers_to w.config x v.players) start v =
          process_input-Frame x dt start v e1 in
        let short : length v.game_in.items ≤ fuel =
          omega
            (arith, ap length items, ap (λ (q : TsQueue ServerPacket). length q.items) f.game_in) in
        let (done, sent, all, g) = process_inputs-Frame fuel dt v w' short e2 in
        let queued : v.game_in.items ≡ rest =
          ap (λ (q : TsQueue ServerPacket). q.items) f.game_in in
        let later : Answers dt w.config rest v.players sent w'.players =
          subst (λ xs. Answers dt w.config xs v.players sent w'.players) queued
            (subst (λ c. Answers dt c v.game_in.items v.players sent w'.players) f.config all) in
        let mine = answers_to w.config x v.players in
        (
          done,
          mine ++ sent,
          subst (λ xs. Answers dt w.config xs w.players (mine ++ sent) w'.players) (sym items)
              (v.players, sent, (start, v, refl, refl, e1, refl), refl, later),
          Frame-trans mine sent (record w { game_in = w'.game_in })
              (record v { game_in = w'.game_in }) w' (Frame-with mine start v w'.game_in f) g,
        )
  ]
