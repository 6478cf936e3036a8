-- ===== src/Tests/System.antt =====
-- The start of the program, its sockets and its sender threads, as in main.cpp and net.
use Prim.Native.String.{String}
use endless_peak_server.Shared.{
  ℕ, ◌+◌, ◌*◌, ◌≤◌, ◌<◌, ◌≡◌, refl, true, false, List, [], ◌∷◌, ◌++◌, Option, none, some, replicate,
  option_list, arith,
}
use endless_peak_server.Double.Coarse.{Coarse, fin, coarse_double}
use endless_peak_server.Queue.{new_queue, wait_and_pop}
use endless_peak_server.Packet.{
  NetPacket, Opcodes, opcode_packet, jump, make_buffer, to_opcode, get_head_opcode, to_uint16,
  head_data, write_head, get_body_size, get_head_size, is_valid_header, move_packet, resize_body,
  resize,
}
use endless_peak_server.Reader.{on_read, on_read_head}
use endless_peak_server.Handler.{
  fill_head, splice, update_head_size, body_size_left, extract_packet,
}
use endless_peak_server.Bytes.{swap_endian, of_bytes, to_bytes}
use endless_peak_server.Session.{connected, Session, new_session}
use endless_peak_server.World.{World, ServerPacket, broadcast, init_tiles, tiles_from}
use endless_peak_server.World.Loop.{tick}
use endless_peak_server.World.Inputs.{IsReady}
use endless_peak_server.World.Startup.{new_world}
use endless_peak_server.Server.{Server, send_all, deliver, find as find_session}
use endless_peak_server.Server.Late.{fail_then_receive, late_input_faults}
use endless_peak_server.Server.Senders.{Senders, net_threads, start_senders, run, step, turn}
use endless_peak_server.Server.Senders.Order.{single_sender_in_order, senders_swap}
use endless_peak_server.Socket.{Event, new_socket, wss_run, accept, close, close_completed, read}
use endless_peak_server.Socket.Closing.{
  cancel_count, close_count, shut_count, total, number, asked, wss_closes_once,
}
use endless_peak_server.Config.Load.{
  Json, get_instance, load_config, init_net_config, init_game_config, init_grid, init_player_config,
  init_accounts_db_config,
}
use endless_peak_server.Config.{copy_map, copy_from, print_map, print_from}
use endless_peak_server.Config.Fits.{FitsTypes}
use endless_peak_server.Main.{Asio, Outcome, runs, main, start, start_listen, io_threads, context}
use endless_peak_server.Main.Started.{main-IsReady}
use endless_peak_server.Tests.Game.{world, one_present}

-- A configuration in which every number is 26.
abbrev pub json : Json Unit
json = record {
  file = λ name. some tt;
  config_file = λ name. some tt;
  at = λ section key. some tt;
  number = λ value. some 26;
  numbers = λ value. some (replicate 676 1);
  text = λ value. some "0.0.0.0";
}

abbrev pub asio : Asio String
asio = record {
  certificates = true;
  make_address = some;
  open_fails = λ address port. false;
  set_option_fails = false;
  bind_fails = λ address port. false;
  listen_fails = false;
}

abbrev world_of : Option (Outcome Coarse) → World Coarse
world_of (some (runs io net w)) = w
world_of _ = world []

abbrev pub started : World Coarse
started = world_of (main json asio 2 "config.json")

pub started_lem : main json asio 2 "config.json" ≡ some (runs 26 26 started)
unfolding main start start_listen io_threads context get_instance load_config init_net_config
    init_game_config init_grid init_player_config init_accounts_db_config copy_map copy_from
    print_map print_from new_world init_tiles tiles_from net_threads
started_lem = refl

pub main_grid : 26 < 256 → started.config.grid_y < 256
unfolding main start start_listen io_threads context get_instance load_config init_net_config
    init_game_config init_grid init_player_config init_accounts_db_config copy_map copy_from
    print_map print_from new_world init_tiles tiles_from net_threads
main_grid small = small

main-IsReady_example :
    IsReady started × (started.players ≡ []) × FitsTypes started.config × (1 ≤ 26) × (1 ≤ 26)
main-IsReady_example =
    main-IsReady json asio 2 "config.json" 26 26 started started_lem (main_grid (omega arith))

abbrev input : Opcodes → ServerPacket
input opcode = record { packet = opcode_packet opcode; id = 1; type = broadcast }

abbrev twice : List Event
twice = accept ∷ close ∷ close ∷ read 8 ∷ close_completed ∷ []

wss_closes_once_example :
    let s = wss_run twice new_socket in
    (total close_count s.calls ≡ number (asked twice))
    × (total cancel_count s.calls ≤ number (asked twice))
    × (total shut_count s.calls + number s.closing ≡ 2 * number (asked twice))
wss_closes_once_example = wss_closes_once twice

abbrev pub message : ℕ → ServerPacket
message id = record { packet = opcode_packet jump; id = id; type = broadcast }

abbrev pub sending : Server
sending = record {
  new_session_id = 3;
  sessions = (1, record (new_session 1) { state = connected }) ∷ [];
  in_queue = new_queue;
  out_queue = record { items = message 1 ∷ message 2 ∷ [] };
}

senders_swap_example :
    (s : Senders) × (run (0 ∷ 1 ∷ 1 ∷ 0 ∷ []) (start_senders 26 sending) ≡ some s)
    × (s.server.sessions
        ≡ send_all
            (make_buffer (message 1).packet)
            (send_all (make_buffer (message 2).packet) sending.sessions))
    × (s.server.out_queue.items ≡ [])
senders_swap_example =
    senders_swap 26 sending (message 1) (message 2) [] (omega arith) refl refl refl

-- One thread takes the first packet and hands it out.
abbrev one_sent : Senders
one_sent = record {
  server = record sending {
    sessions = send_all (make_buffer (message 1).packet) sending.sessions;
    out_queue = record { items = message 2 ∷ [] };
  };
  threads = none ∷ [];
  delivered = message 1 ∷ [];
}

one_sent_lem : run (0 ∷ 0 ∷ []) (start_senders 1 sending) ≡ some one_sent
unfolding run step turn start_senders net_threads deliver wait_and_pop
one_sent_lem = refl

single_sender_in_order_example :
    (held : Option ServerPacket) × (one_sent.threads ≡ held ∷ [])
    × (one_sent.delivered ++ (option_list held ++ one_sent.server.out_queue.items)
        ≡ sending.out_queue.items)
single_sender_in_order_example =
    single_sender_in_order 1 (0 ∷ 0 ∷ []) sending one_sent (omega arith) one_sent_lem

-- The six bytes of a jump without a body, as a client sends them.
abbrev pub jump_bytes : List ℕ
jump_bytes = 0 ∷ 0x14 ∷ 0 ∷ 0 ∷ 0 ∷ 0 ∷ []

abbrev jump_packet : NetPacket
jump_packet = record { head = record { opcode = 0x1400; size = 0 }; body = some [] }

abbrev quiet : Server
quiet = record sending { out_queue = new_queue }

abbrev session : Session
session = record (new_session 1) { state = connected }

jump_lem : (on_read jump_bytes session.reader.reading session.reader.handler).0 ≡ some jump_packet
unfolding new_session on_read on_read_head fill_head splice head_data write_head update_head_size
    body_size_left get_body_size get_head_size get_head_opcode is_valid_header extract_packet
    swap_endian of_bytes to_bytes move_packet resize_body resize
jump_lem = refl

jump_opcode : to_opcode (get_head_opcode jump_packet) ≡ some jump
unfolding to_opcode get_head_opcode to_uint16 swap_endian of_bytes to_bytes
jump_opcode = refl

late_input_faults_example :
    tick
      (fin 1 0)
      (record (world []) { net_in = (fail_then_receive jump_bytes session quiet).in_queue })
    ≡ none
unfolding find_session new_session
late_input_faults_example =
    late_input_faults jump_bytes session session quiet jump_packet (fin 1 0) (world []) refl refl
      jump_lem (λ e. cc (jump_opcode, e)) (λ e. cc (jump_opcode, e)) (one_present [])
