-- ===== src/Server/Senders.antt =====
-- The threads of src/main.cpp that run `Server::Sender`: each takes a packet off the queue in one
-- step and hands it to the sessions in another, while other threads go on.
use Prim.Native.Nat.{max}
use endless_peak_server.Shared.{
  ℕ, zero, suc, List, [], ◌∷◌, ◌++◌, Option, none, some, ◌>>=◌, get_elem?, set, replicate,
}
use endless_peak_server.Queue.{TsQueue, wait_and_pop}
use endless_peak_server.Packet.{make_buffer}
use endless_peak_server.World.{ServerPacket}
use endless_peak_server.Server.{Server, deliver}
pub mod Order

-- `threads` holds, for each thread, the packet that it has popped and not yet handed out;
-- `delivered` is history.
pub record Senders : Type 0 where
  pub server : Server
  pub threads : List (Option ServerPacket)
  pub delivered : List ServerPacket

-- The number of threads that `main` starts for the configured one.
unfoldable pub net_threads : ℕ → ℕ
net_threads configured = max 1 configured

unfoldable pub start_senders : ℕ → Server → Senders
start_senders configured server = record {
  server = server;
  threads = replicate (net_threads configured) none;
  delivered = [];
}

popped : ℕ → Senders → Option (ServerPacket × TsQueue ServerPacket) → Senders
popped i s none = s
popped i s (some (packet, queue)) = record s {
  server = record (s.server) { out_queue = queue };
  threads = set s.threads i (some packet);
}

unfoldable pub turn : ℕ → Senders → Option ServerPacket → Option Senders
unfolding popped
turn i s none = some (popped i s (wait_and_pop s.server.out_queue))
turn i s (some packet) =
    deliver packet (make_buffer packet.packet) s.server.sessions >>= λ sessions. some (record s {
      server = record (s.server) { sessions = sessions };
      threads = set s.threads i none;
      delivered = s.delivered ++ (packet ∷ []);
    })

-- Thread `i` goes on; at an empty queue it waits.
unfoldable pub step : ℕ → Senders → Option Senders
step i s = elim (get_elem? s.threads i) [ none ↦ some s | some held ↦ turn i s held ]

unfoldable pub run : List ℕ → Senders → Option Senders
run [] s = some s
run (i ∷ is) s = step i s >>= run is
