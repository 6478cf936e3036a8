-- ===== src/Server/Race.antt =====
-- `sessions_mutex_` of net/server/server.cpp: `Server::AddSession` and `Server::CloseSession` hold
-- it while they write to `sessions_`, and `Server::Sender` reads the map without it. Threads take one
-- step at a time, in any order.
use endless_peak_server.Shared.{
  ℕ, List, [], ◌∷◌, Option, none, some, ◌>>=◌, get_elem?, set, replicate,
}
use endless_peak_server.Queue.{TsQueue, wait_and_pop}
use endless_peak_server.Packet.{opcode_packet, create_player, remove_player, make_buffer}
use endless_peak_server.Session.{Session}
use endless_peak_server.World.{ServerPacket, broadcast}
use endless_peak_server.Server.{Server, find, assign, erase, push_packet, deliver}
pub mod Locked
pub mod Exclusion

-- Where a thread stands: before the lock, with it and before the write or the push, without it, or
-- in a sender's loop over the map.
pub data Pc : Type 0 where
  idle : Pc
  at_lock_add at_insert : Session → Pc
  at_created at_lock_close at_erase at_removed : ℕ → Pc
  at_read in_loop : ServerPacket → Pc

pub data Action : Type 0 where
  adds : Session → Action
  closes : ℕ → Action
  sends runs : Action

-- `owner` is the thread that holds the mutex.
pub record Memory : Type 0 where
  pub server : Server
  pub owner : Option ℕ

-- A thread waits while another one holds the mutex.
locked : ℕ → Pc → Pc → Memory → Option ℕ → Pc × Memory
locked i before after m none = (after, record m { owner = some i })
locked i before after m (some j) = (before, m)

sent : Memory → Option (ServerPacket × TsQueue ServerPacket) → Pc × Memory
sent m none = (idle, m)
sent m (some (packet, queue)) =
    (at_read packet, record m { server = record (m.server) { out_queue = queue } })

erased : ℕ → Memory → Option Session → Pc × Memory
erased id m none = (idle, record m { owner = none })
erased id m (some session) = (
  at_removed id,
  record m { server = record (m.server) { sessions = erase id m.server.sessions } },
)

-- One step of thread `i`; one that is not enabled changes nothing. `none` is a null pointer that is
-- dereferenced.
unfoldable pub advance : ℕ → Action → Pc → Memory → Option (Pc × Memory)
unfolding locked sent erased
advance i (adds session) idle m = some (at_lock_add session, m)
advance i (adds session) pc m = some (pc, m)
advance i (closes id) idle m = some (at_lock_close id, m)
advance i (closes id) pc m = some (pc, m)
advance i sends idle m = some (sent m (wait_and_pop m.server.out_queue))
advance i sends pc m = some (pc, m)
advance i runs idle m = some (idle, m)
advance i runs (at_lock_add session) m =
    some (locked i (at_lock_add session) (at_insert session) m m.owner)
advance i runs (at_insert session) m = some (
  at_created session.id,
  record m {
    server = record (m.server) { sessions = assign session.id session m.server.sessions };
    owner = none;
  },
)
advance i runs (at_created id) m = some (
  idle,
  record m {
    server =
        push_packet (record { packet = opcode_packet create_player; id = id; type = broadcast })
          m.server;
  },
)
advance i runs (at_lock_close id) m = some (locked i (at_lock_close id) (at_erase id) m m.owner)
advance i runs (at_erase id) m = some (erased id m (find id m.server.sessions))
advance i runs (at_removed id) m = some (
  idle,
  record m {
    server =
        push_packet (record { packet = opcode_packet remove_player; id = id; type = broadcast })
          m.server;
    owner = none;
  },
)
advance i runs (at_read packet) m = some (in_loop packet, m)
advance i runs (in_loop packet) m =
    deliver packet (make_buffer packet.packet) m.server.sessions >>= λ sessions.
    some (idle, record m { server = record (m.server) { sessions = sessions } })

pub record Threads : Type 0 where
  pub memory : Memory
  pub threads : List Pc

moved : ℕ → Threads → Pc × Memory → Threads
moved i s (pc, memory) = record { memory = memory; threads = set s.threads i pc }

chosen : ℕ → Action → Threads → Option Pc → Option Threads
unfolding moved
chosen i a s none = some s
chosen i a s (some pc) = advance i a pc s.memory >>= λ r. some (moved i s r)

unfoldable pub step : ℕ × Action → Threads → Option Threads
unfolding chosen
step (i, a) s = chosen i a s (get_elem? s.threads i)

unfoldable pub run : List (ℕ × Action) → Threads → Option Threads
run [] s = some s
run (c ∷ cs) s = step c s >>= run cs

unfoldable pub start : ℕ → Server → Threads
start n server = record {
  memory = record { server = server; owner = none };
  threads = replicate n idle;
}
