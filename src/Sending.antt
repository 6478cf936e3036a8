-- ===== src/Sending.antt =====
-- `Session::PushToSend`, `Session::Send` and the completion handler of its `async_write` in
-- net/session/session.cpp, interleaved: the threads of `Server::Sender` and the I/O threads take one
-- atomic operation (a queue call, an atomic load, a `test_and_set`, a `clear`) at a time.
use endless_peak_server.Shared.{
  ℕ, ◌+◌, Bool, true, false, if◌then◌else◌, List, [], ◌∷◌, ◌++◌, Option, none, some, get_elem?, set,
}
use endless_peak_server.Queue.{TsQueue, new_queue, push, try_pop, empty}
use endless_peak_server.Session.{
  SendBuffer, State, connected, disconnecting, disconnected, is_connected,
}
pub mod Threads
pub mod Exclusive
pub mod Order
pub mod Stall

-- What the threads share. `pushed` and `written` are history: the buffers given to `Push`, and those
-- given to `async_write`, in order.
pub record Memory : Type 0 where
  pub state : State
  pub sending : Bool
  pub out_queue : TsQueue SendBuffer
  pub in_flight : Option SendBuffer
  pub pushed : List SendBuffer
  pub written : List SendBuffer

-- Where a thread stands.
pub data Pc : Type 0 where
  idle : Pc
  at_push : SendBuffer → Pc
  at_connected at_empty at_flag at_pop : Pc
  at_write : SendBuffer → Pc
  at_clear at_more at_close : Pc

-- What the environment chooses: a thread calls `PushToSend`, the write completes on some thread
-- with or without an error, a read completes on some thread with an error, or a thread goes on.
pub data Action : Type 0 where
  calls : SendBuffer → Action
  completes fails read_fails runs : Action

popped : Memory → Option SendBuffer × TsQueue SendBuffer → Pc × Memory
popped m (none, queue) = (idle, record m { out_queue = queue })
popped m (some buf, queue) = (at_write buf, record m { out_queue = queue })

completed : Memory → Option SendBuffer → Pc × Memory
completed m none = (idle, m)
completed m (some buf) = (at_clear, record m { in_flight = none })

-- The error branches set the state, and `ProcessState` then leaves the session disconnected.
failed : Memory → Option SendBuffer → Pc × Memory
failed m none = (idle, m)
failed m (some buf) = (at_close, record m { in_flight = none; state = disconnecting })

-- One step of a thread; a step that is not enabled changes nothing.
unfoldable pub advance : Action → Pc → Memory → Pc × Memory
unfolding popped completed failed
advance (calls buf) idle m = (at_push buf, m)
advance (calls buf) pc m = (pc, m)
advance completes idle m = completed m m.in_flight
advance completes pc m = (pc, m)
advance fails idle m = failed m m.in_flight
advance fails pc m = (pc, m)
advance read_fails idle m = (at_close, record m { state = disconnecting })
advance read_fails pc m = (pc, m)
advance runs idle m = (idle, m)
advance runs (at_push buf) m =
    (at_connected, record m { out_queue = push buf m.out_queue; pushed = m.pushed ++ (buf ∷ []) })
advance runs at_connected m = (if is_connected m.state then at_empty else idle, m)
advance runs at_empty m = (if empty m.out_queue then idle else at_flag, m)
advance runs at_flag m = if m.sending then (idle, m) else (at_pop, record m { sending = true })
advance runs at_pop m = popped m (try_pop m.out_queue)
advance runs (at_write buf) m =
    (idle, record m { in_flight = some buf; written = m.written ++ (buf ∷ []) })
advance runs at_clear m = (at_more, record m { sending = false })
advance runs at_close m = (idle, record m { state = disconnected })
advance runs at_more m = (if empty m.out_queue then idle else at_connected, m)

pub record System : Type 0 where
  pub memory : Memory
  pub threads : List Pc

-- A schedule says which thread moves, and how.
unfoldable pub step : ℕ × Action → System → System
step (i, a) s = elim (get_elem? s.threads i) [
  | none ↦ s
  | some pc ↦
      let (pc', m') = advance a pc s.memory in record { memory = m'; threads = set s.threads i pc' }
]

unfoldable pub run : List (ℕ × Action) → System → System
run [] s = s
run (c ∷ cs) s = run cs (step c s)

unfoldable pub all_idle : ℕ → List Pc
all_idle ℕ.zero = []
all_idle (ℕ.suc n) = idle ∷ all_idle n

-- A connected session with nothing queued, and `n` threads that may use it.
unfoldable pub start : ℕ → System
unfolding all_idle
start n = record {
  memory = record {
    state = connected;
    sending = false;
    out_queue = new_queue;
    in_flight = none;
    pushed = [];
    written = [];
  };
  threads = all_idle n;
}
