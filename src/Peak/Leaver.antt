-- ===== src/Peak/Leaver.antt =====
-- A client that is gone before the world hears of it, in net/server/server.cpp.
use Prim.Native.String.{String}
use endless_peak_server.Shared.{
  ℕ, ◌<◌, ◌≡◌, refl, ap, ◌∙◌, subst, true, List, [], ◌∷◌, ◌++◌, none, some,
}
use endless_peak_server.Double.{Double}
use endless_peak_server.Bytes.{swap_endian, to_bytes, of_bytes}
use endless_peak_server.Packet.{to_opcode, get_head_opcode, opcode_packet, to_uint16}
use endless_peak_server.Queue.{push}
use endless_peak_server.Config.Load.{Json}
use endless_peak_server.Main.{Asio, runs, main}
use endless_peak_server.Main.Started.{main-queues}
use endless_peak_server.Session.{disconnected, new_session}
use endless_peak_server.Player.{GameConfig}
use endless_peak_server.World.{ServerPacket, PlayerMap, World, rpc}
use endless_peak_server.World.Loop.{tick}
use endless_peak_server.World.Answers.{Answers, move_packets}
use endless_peak_server.World.Ticks.{tick_lem}
use endless_peak_server.Server.{
  find, assign, erase, accept, on_accepted, on_error, process_state, add_session, close_session,
  push_packet, new_server,
}
use endless_peak_server.Server.Sessions.{created, removed}
use endless_peak_server.Server.Delivery.{sender_round-none}
use endless_peak_server.Peak.{
  Peak, connects, accepted, fails, sends, ticks, opened, step, run, handle, holds, settle,
  queues_in, queues_out, is_connecting,
}
use endless_peak_server.Peak.Polite.{Reach, start, next, polite}
use endless_peak_server.Peak.Tracks.{tick-Tracks}
use endless_peak_server.Peak.Visits.{behind}
use endless_peak_server.Peak.Safe.{main-Tracks}

module _ {D : Type 0} ⦃d : Double D⦄ where
  -- The session was entered and erased, and both inputs for the world wait.
  abbrev pub gone : World D → Peak D
  gone w = record {
    server = record {
      new_session_id = 1;
      sessions = [];
      in_queue = record { items = (w.net_in.items ++ (created 0 ∷ [])) ++ (removed 0 ∷ []) };
      out_queue = w.net_out;
    };
    detached = (0, record (new_session 0) { state = disconnected; closed = true }) ∷ [];
    world = w;
  }

  pub visit_lem :
      (w w' : World D) (dt : D)
      → tick dt (queues_in (gone w)) ≡ some w'
      → run (connects ∷ accepted 0 ∷ fails 0 ∷ ticks dt ∷ []) (opened w)
        ≡ some (queues_out w' (gone w))
  unfolding run step opened new_server settle accept handle holds is_connecting on_accepted on_error
      process_state add_session close_session push_packet find assign erase push new_session
  visit_lem w w' dt e = rw e refl

  pub gone-Reach : (w : World D) → Reach w (gone w)
  unfolding run step opened new_server settle accept handle holds is_connecting on_accepted on_error
      process_state add_session close_session push_packet find assign erase push new_session polite
  gone-Reach w =
      next (fails 0) (next (accepted 0) (next connects start refl refl) refl refl) refl refl

  -- The first answer is for the new player's client alone.
  first_answer :
      (dt : D) (config : GameConfig) (rest sent : List ServerPacket) (before after : PlayerMap D)
      → Answers dt config (created 0 ∷ rest) before sent after
      → (packet : ServerPacket) × (others : List ServerPacket) × (sent ≡ packet ∷ others)
        × (packet.type ≡ rpc)
        × (packet.id ≡ 0)
  unfolding to_opcode get_head_opcode opcode_packet to_uint16 swap_endian of_bytes to_bytes
  first_answer dt config rest sent before after (mid, later, _, all, _) = (_, _, all, refl, refl)

  misdelivered :
      (w w' : World D) (packet : ServerPacket) (others sent moves : List ServerPacket)
      → sent ≡ packet ∷ others
      → packet.type ≡ rpc
      → packet.id ≡ 0
      → w'.net_out.items ≡ sent ++ moves
      → step sends (queues_out w' (gone w)) ≡ none
  unfolding step queues_out find
  misdelivered w w' packet others sent moves front type id net =
      let (_, faults) = sender_round-none (queues_out w' (gone w)).server in
      let queued : w'.net_out.items ≡ packet ∷ (others ++ moves) =
        net ∙ ap (λ xs. xs ++ moves) front in
      rw (faults (packet, others ++ moves, queued, type, refl)) refl

  -- However `main` was configured, with a grid of less than 256 rows, if the first client leaves
  -- after its handshake and before the world's first tick, then that tick returns, and the next
  -- round of the sender dereferences a null pointer.
  pub leaver_faults :
      {J A : Type 0} (json : Json J) (asio : Asio A) (argc : ℕ) (filename : String) (io net : ℕ)
      (w : World D) (dt : D)
      → main json asio argc filename ≡ some (runs io net w)
      → w.config.grid_y < 256
      → (s : Peak D) × (run (connects ∷ accepted 0 ∷ fails 0 ∷ ticks dt ∷ []) (opened w) ≡ some s)
        × (step sends s ≡ none)
  unfolding run step queues_in queues_out
  leaver_faults json asio argc filename io net w dt started small =
      let t = main-Tracks json asio argc filename io net w (gone w) started small (gone-Reach w) in
      let (_, quiet, silent, unsent) = main-queues json asio argc filename io net w started in
      let (w', ticked, _) = tick-Tracks dt (gone w) t in
      let (before, sent, after, (net, (_, all, _), _, _, _)) =
        tick_lem dt (queues_in (gone w)) w' ticked in
      let inputs : (w.net_in.items ++ (created 0 ∷ [])) ++ (removed 0 ∷ [])
          ≡ created 0 ∷ removed 0 ∷ [] =
        ap (λ xs. (xs ++ (created 0 ∷ [])) ++ (removed 0 ∷ [])) quiet in
      let (packet, others, front, type, id) =
        first_answer dt w.config (removed 0 ∷ []) sent before after
          (subst (λ xs. Answers dt w.config xs before sent after) inputs all) in
      (
        queues_out w' (gone w),
        visit_lem w w' dt ticked,
        misdelivered w w' packet others sent (move_packets w'.players) front type id (
            behind w'.net_out.items w.net_out.items [] w.game_out.items sent
              (move_packets w'.players) net unsent silent),
      )
