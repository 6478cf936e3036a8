-- ===== src/Tests/Running.antt =====
-- The running program and the threads of its server, as in main.cpp and net.
use endless_peak_server.Shared.{
  if◌then◌else◌, ◌==◌, true, ◌≡◌, ◌↔◌, refl, false, [], ◌∷◌, ◌++◌, none, some, get_elem?, arith,
}
use endless_peak_server.Double.Coarse.{Coarse, fin, coarse_double}
use endless_peak_server.Queue.{push}
use endless_peak_server.Session.{new_session, set_connected}
use endless_peak_server.World.Protocol.{ids_after}
use endless_peak_server.World.Roster.{ids_of}
use endless_peak_server.Server.{
  new_server, accept, on_accepted, process_state, add_session, push_packet, find, assign, erase,
}
use endless_peak_server.Server.Sessions.{created, removed}
use endless_peak_server.Server.Kept.{registered}
use endless_peak_server.Server.Delivery.{Misdelivers}
use endless_peak_server.Server.Race.{
  Threads, at_lock_add, at_insert, in_loop, adds, sends as begins, runs, run as run_threads,
  start as start_threads, step as step_thread, advance,
}
use endless_peak_server.Server.Race.Locked.{holding}
use endless_peak_server.Server.Race.Exclusion.{lock_exclusive, sender_races}
use endless_peak_server.Peak.{
  Peak, Event, connects, accepted, fails, sends, ticks, step, run, opened, settle, handle, holds,
  is_connecting,
}
use endless_peak_server.Peak.Polite.{Reach, start, next, polite}
use endless_peak_server.Peak.Places.{IsPlaced}
use endless_peak_server.Peak.Sessions.{sessions_in_place}
use endless_peak_server.Peak.Safe.{main_faults_iff, players_are_sessions}
use endless_peak_server.Peak.Visits.{Told, farewell, newcomer_joins, leaver_leaves}
use endless_peak_server.World.Answers.{announced, start_fields}
use endless_peak_server.World.Players.{has}
use endless_peak_server.Peak.Leaver.{gone, gone-Reach, leaver_faults}
use endless_peak_server.Tests.System.{json, asio, started, started_lem, main_grid, sending, message}

abbrev round : Event Coarse
round = sends

main_faults_iff_example :
    (step round (gone started) ≡ none) ↔ ((round ≡ sends) × Misdelivers (gone started).server)
main_faults_iff_example =
    main_faults_iff json asio 2 "config.json" 26 26 started (gone started) round started_lem
      (main_grid (omega arith)) (gone-Reach started)

-- Two clients connect, and the handshake of the second has ended.
abbrev playing : Peak Coarse
playing = record {
  server = record new_server {
    new_session_id = 2;
    sessions = (1, set_connected (new_session 1)) ∷ [];
    in_queue = record { items = started.net_in.items ++ (created 1 ∷ []) };
    out_queue = started.net_out;
  };
  detached = (0, new_session 0) ∷ [];
  world = started;
}

playing_lem : run (connects ∷ connects ∷ accepted 1 ∷ []) (opened started) ≡ some playing
unfolding run step opened new_server settle accept handle holds is_connecting on_accepted
    process_state add_session push_packet find assign erase push new_session
playing_lem = refl

playing-Reach : Reach started playing
unfolding run step opened new_server settle accept handle holds is_connecting on_accepted
    process_state add_session push_packet find assign erase push new_session polite
playing-Reach =
    next (accepted 1) (next connects (next connects start refl refl) refl refl) refl refl

players_are_sessions_example :
    ids_after (ids_of playing.world.players) playing.server.in_queue.items 1
    ≡ registered 1 playing.server
players_are_sessions_example =
    players_are_sessions json asio 2 "config.json" 26 26 started playing 1 started_lem
      (main_grid (omega arith)) playing-Reach

sessions_in_place_example : IsPlaced 2 playing
sessions_in_place_example =
    sessions_in_place started (connects ∷ connects ∷ accepted 1 ∷ []) playing (omega arith)
      playing_lem

newcomer_joins_example :
    (s' : Peak Coarse) × (run (accepted 0 ∷ ticks (fin 1 0) ∷ []) playing ≡ some s')
    × Told (fin 1 0) playing (created 0) (announced (start_fields Coarse started.config 0) 0) s'
    × (has 1 s'.world.players ≡ (if 0 == 1 then true else registered 1 playing.server))
unfolding holds find new_session is_connecting
newcomer_joins_example =
    newcomer_joins json asio 2 "config.json" 26 26 started playing (new_session 0) (fin 1 0) 1
      started_lem (main_grid (omega arith)) playing-Reach refl refl

leaver_leaves_example :
    (s' : Peak Coarse) × (run (fails 1 ∷ ticks (fin 1 0) ∷ []) playing ≡ some s')
    × Told (fin 1 0) playing (removed 1) (λ players. farewell 1) s'
    × (has 0 s'.world.players ≡ (if 1 == 0 then false else registered 0 playing.server))
unfolding find new_session is_connecting
leaver_leaves_example =
    leaver_leaves json asio 2 "config.json" 26 26 started playing (set_connected (new_session 1))
      (fin 1 0) 0 started_lem (main_grid (omega arith)) playing-Reach refl refl

leaver_faults_example :
    (s : Peak Coarse) × (run
        (connects ∷ accepted 0 ∷ fails 0 ∷ ticks (fin 1 0) ∷ [])
        (opened started)
      ≡ some s)
    × (step sends s ≡ none)
leaver_faults_example =
    leaver_faults json asio 2 "config.json" 26 26 started (fin 1 0) started_lem
      (main_grid (omega arith))

sender_races_example :
    (s : Threads) × (run_threads
        ((0, begins) ∷ (0, runs) ∷ (1, adds (new_session 3)) ∷ (1, runs) ∷ [])
        (start_threads 2 sending)
      ≡ some s)
    × (get_elem? s.threads 0 ≡ some (in_loop (message 1)))
    × (get_elem? s.threads 1 ≡ some (at_insert (new_session 3)))
sender_races_example = sender_races 0 sending (message 1) (message 2 ∷ []) (new_session 3) refl

-- One thread has the mutex, and another one waits for it.
abbrev entering : Threads
entering = record {
  memory = record { server = sending; owner = some 1 };
  threads = at_lock_add (new_session 4) ∷ at_insert (new_session 3) ∷ [];
}

entering_lem :
    run_threads
      ((1, adds (new_session 3)) ∷ (0, adds (new_session 4)) ∷ (1, runs) ∷ (0, runs) ∷ [])
      (start_threads 2 sending)
    ≡ some entering
unfolding run_threads step_thread start_threads advance
entering_lem = refl

lock_exclusive_example : holding (at_lock_add (new_session 4)) ≡ false
lock_exclusive_example =
    lock_exclusive 2
      ((1, adds (new_session 3)) ∷ (0, adds (new_session 4)) ∷ (1, runs) ∷ (0, runs) ∷ []) sending
      entering 1 0 (at_insert (new_session 3)) (at_lock_add (new_session 4)) entering_lem refl refl
      (λ e. cc e) refl
