-- ===== src/Sending/Stall.antt =====
-- The lost flag: a thread that tested `Empty` before the queue was drained sets `sending_` and then
-- finds nothing to pop, and `Send` returns without clearing it.
use endless_peak_server.Shared.{
  ℕ, ◌≡◌, refl, ◌∙◌, true, List, [], ◌∷◌, none, get_elem?, arith, Option-cases, inl, inr,
}
use endless_peak_server.Queue.{push, try_pop, empty}
use endless_peak_server.Session.{SendBuffer, connected, is_connected}
use endless_peak_server.Sending.{
  Memory, Pc, idle, at_pop, at_write, at_clear, Action, calls, completes, fails, read_fails, runs,
  advance, System, step, run, start,
}
use endless_peak_server.Sending.Threads.{owns, owners, owners-set, owns-le-owners}

-- The flag is set, and neither a thread nor the socket will clear it.
pub record IsStalled (s : System) : Type 0 where
  pub flag : s.memory.sending ≡ true
  pub quiet : s.memory.in_flight ≡ none
  pub nobody : owners s.threads ≡ 0

-- A thread that owns nothing, at a set flag with no write outstanding.
advance_stalled :
    (a : Action) (pc : Pc) (m : Memory)
    → m.sending ≡ true
    → m.in_flight ≡ none
    → owns pc ≡ 0
    → ((advance a pc m).1.sending ≡ true)
      × ((advance a pc m).1.in_flight ≡ none)
      × (owns (advance a pc m).0 ≡ 0)
      × ((advance a pc m).1.written ≡ m.written)
unfolding advance
advance_stalled (calls buf) idle m f q o = (f, q, refl, refl)
advance_stalled (calls buf) _ m f q o = (f, q, o, refl)
advance_stalled completes idle m f q o = ground arith
advance_stalled completes _ m f q o = (f, q, o, refl)
advance_stalled fails idle m f q o = ground arith
advance_stalled fails _ m f q o = (f, q, o, refl)
advance_stalled read_fails idle m f q o = (f, q, refl, refl)
advance_stalled read_fails _ m f q o = (f, q, o, refl)
advance_stalled runs idle m f q o = (f, q, refl, refl)
advance_stalled runs at_pop m f q o = absurd (omega arith)
advance_stalled runs (at_write buf) m f q o = absurd (omega arith)
advance_stalled runs at_clear m f q o = absurd (omega arith)
advance_stalled runs _ m f q o = ground arith

step-IsStalled :
    (c : ℕ × Action) (s : System)
    → IsStalled s
    → IsStalled (step c s) × ((step c s).memory.written ≡ s.memory.written)
unfolding step
step-IsStalled (i, a) s h = elim (Option-cases (get_elem? s.threads i)) [
  | inl e ↦ rw (e, step) (h, refl)
  | inr (pc, e) ↦
      let free : owns pc ≡ 0 = omega (arith, owns-le-owners s.threads i pc e, h.nobody) in
      let (f, q, o, w) = advance_stalled a pc s.memory h.flag h.quiet free in
      rw (e, step)
        (
          record {
            flag = f;
            quiet = q;
            nobody =
                omega
                  (arith, o, h.nobody, free, owners-set s.threads i pc (advance a pc s.memory).0 e);
          },
          w,
        )
]

-- Once stalled, a session hands nothing more to its socket, whatever is pushed and however the
-- threads go on.
pub IsStalled-forever :
    (cs : List (ℕ × Action)) (s : System)
    → IsStalled s
    → IsStalled (run cs s) × ((run cs s).memory.written ≡ s.memory.written)
unfolding run
IsStalled-forever [] s h = (h, refl)
IsStalled-forever (c ∷ cs) s h =
    let (h', w) = step-IsStalled c s h in
    let (h'', w') = IsStalled-forever cs (step c s) h' in (h'', w' ∙ w)

abbrev pub sender : Action → ℕ × Action
sender a = (0, a)

abbrev pub handler : Action → ℕ × Action
handler a = (1, a)

-- Thread 0 is a `Sender`, thread 1 runs the completion handlers one after the other. The sender
-- pushes `b` and tests `Empty` while `a` is being written, and goes on after both are written.
abbrev pub stall_schedule : SendBuffer → SendBuffer → List (ℕ × Action)
stall_schedule a b =
    sender (calls a)
    ∷ sender runs
    ∷ sender runs
    ∷ sender runs
    ∷ sender runs
    ∷ sender runs
    ∷ sender runs
    ∷ sender (calls b)
    ∷ sender runs
    ∷ sender runs
    ∷ sender runs
    ∷ handler completes
    ∷ handler runs
    ∷ handler runs
    ∷ handler runs
    ∷ handler runs
    ∷ handler runs
    ∷ handler runs
    ∷ handler runs
    ∷ handler completes
    ∷ handler runs
    ∷ handler runs
    ∷ sender runs
    ∷ sender runs
    ∷ []

-- For any two buffers a schedule of one sender and one handler thread, with no error on the socket,
-- writes both of them and leaves a connected session stalled, with both threads back outside `Send`.
pub stall_reachable :
    (a b : SendBuffer)
    → let s = run (stall_schedule a b) (start 2) in
      IsStalled s
      × (s.memory.state ≡ connected)
      × (s.threads ≡ idle ∷ idle ∷ [])
      × (s.memory.written ≡ a ∷ b ∷ [])
unfolding run step advance start push try_pop empty is_connected
stall_reachable a b = (record { flag = refl; quiet = refl; nobody = refl }, refl, refl, refl)
