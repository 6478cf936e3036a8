-- ===== src/Sending/Order.antt =====
-- In which order buffers reach the socket, over every schedule.
use endless_peak_server.Shared.{
  ℕ, ◌≡◌, refl, sym, ap, ◌∙◌, List, [], ◌∷◌, ◌++◌, some, get_elem?, set, arith, Option-cases, inl,
  inr, append_assoc,
}
use endless_peak_server.Queue.{push}
use endless_peak_server.Queue.Fifo.{try_pop_cases}
use endless_peak_server.Session.{SendBuffer}
use endless_peak_server.Sending.{
  Memory, Pc, idle, at_push, at_pop, at_write, Action, calls, completes, fails, read_fails, runs,
  advance, popped, System, step, run, start, all_idle,
}
use endless_peak_server.Sending.Threads.{
  owns, owners, owns-le-owners, carried, all_carried, all_carried-set_same, all_carried-set_owner,
  all_carried_none,
}
use endless_peak_server.Sending.Exclusive.{
  IsExclusive, step-IsExclusive, start-IsExclusive, owners-all_idle,
}

-- What was written, what a thread carries and what is queued are what was pushed.
abbrev pub Ordered : List SendBuffer → Memory → Type 0
Ordered held m = m.written ++ (held ++ m.out_queue.items) ≡ m.pushed

abbrev pub IsOrdered : System → Type 0
IsOrdered s = Ordered (all_carried s.threads) s.memory

-- A step that neither pops nor writes.
abbrev Keeps : Action → Pc → Memory → Type 0
Keeps a pc m =
    (carried pc ≡ carried (advance a pc m).0)
    × ((held : List SendBuffer) → Ordered held m → Ordered held (advance a pc m).1)

push-Ordered :
    (held : List SendBuffer) (m : Memory) (buf : SendBuffer)
    → Ordered held m
    → m.written ++ (held ++ (m.out_queue.items ++ (buf ∷ []))) ≡ m.pushed ++ (buf ∷ [])
push-Ordered held m buf o =
    ap (λ bs. m.written ++ bs) (sym (append_assoc held m.out_queue.items (buf ∷ [])))
    ∙ sym (append_assoc m.written (held ++ m.out_queue.items) (buf ∷ []))
    ∙ ap (λ bs. bs ++ (buf ∷ [])) o

pop-Ordered :
    (m : Memory)
    → Ordered [] m
    → Ordered (carried (advance runs at_pop m).0) (advance runs at_pop m).1
unfolding advance
pop-Ordered m o = elim (try_pop_cases m.out_queue) [
  | inl (e, r) ↦ rw (r, popped) o
  | inr (b, bs, e, r) ↦ rw (r, popped) (ap (λ items. m.written ++ items) (sym e) ∙ o)
]

write-Ordered :
    (m : Memory) (buf : SendBuffer)
    → Ordered (buf ∷ []) m
    → Ordered [] (advance runs (at_write buf) m).1
unfolding advance
write-Ordered m buf o = append_assoc m.written (buf ∷ []) m.out_queue.items ∙ o

carried-after_write :
    (buf : SendBuffer) (m : Memory) → carried (advance runs (at_write buf) m).0 ≡ []
unfolding advance
carried-after_write buf m = refl

advance-Keeps :
    (a : Action) (pc : Pc) (m : Memory)
    → (pc ≡ at_pop → a ≡ runs → ⊥)
    → ((buf : SendBuffer) → pc ≡ at_write buf → a ≡ runs → ⊥)
    → Keeps a pc m
unfolding advance
advance-Keeps (calls buf) idle m p w = (refl, λ held o. o)
advance-Keeps (calls buf) _ m p w = (refl, λ held o. o)
advance-Keeps completes idle m p w = ground arith
advance-Keeps completes _ m p w = (refl, λ held o. o)
advance-Keeps fails idle m p w = ground arith
advance-Keeps fails _ m p w = (refl, λ held o. o)
advance-Keeps read_fails idle m p w = (refl, λ held o. o)
advance-Keeps read_fails _ m p w = (refl, λ held o. o)
advance-Keeps runs idle m p w = (refl, λ held o. o)
advance-Keeps runs (at_push buf) m p w = (refl, λ held o. unfold push in push-Ordered held m buf o)
advance-Keeps runs at_pop m p w = absurd (p refl refl)
advance-Keeps runs (at_write buf) m p w = absurd (w buf refl refl)
advance-Keeps runs _ m p w = ground arith

module _ (s : System) (i : ℕ) (o : IsExclusive s) (held : IsOrdered s) where
  only : (pc : Pc) → get_elem? s.threads i ≡ some pc → owns pc ≡ 1 → owners s.threads ≡ owns pc
  only pc e one = omega (arith, owns-le-owners s.threads i pc e, o.single)

  kept :
      (a : Action) (pc : Pc)
      → get_elem? s.threads i ≡ some pc
      → Keeps a pc s.memory
      → Ordered (all_carried (set s.threads i (advance a pc s.memory).0)) (advance a pc s.memory).1
  kept a pc e (same, keep) =
      rw (all_carried-set_same s.threads i pc (advance a pc s.memory).0 e same)
        (keep (all_carried s.threads) held)

  moved :
      (a : Action) (pc : Pc)
      → get_elem? s.threads i ≡ some pc
      → Ordered (all_carried (set s.threads i (advance a pc s.memory).0)) (advance a pc s.memory).1
  moved runs at_pop e =
      let pc' = (advance runs at_pop s.memory).0 in
      let (before, after) = all_carried-set_owner s.threads i at_pop pc' e (only at_pop e refl) in
      rw after (pop-Ordered s.memory (rw before at held))
  moved runs (at_write buf) e =
      let pc' = (advance runs (at_write buf) s.memory).0 in
      let (before, after) =
        all_carried-set_owner s.threads i (at_write buf) pc' e (only (at_write buf) e refl) in
      rw after
        (rw (carried-after_write buf s.memory) (write-Ordered s.memory buf (rw before at held)))
  moved a pc e = kept a pc e (advance-Keeps a pc s.memory (λ p r. cc) (λ buf p r. cc))

step-IsOrdered : (c : ℕ × Action) (s : System) → IsExclusive s → IsOrdered s → IsOrdered (step c s)
unfolding step
step-IsOrdered (i, a) s o held = elim (Option-cases (get_elem? s.threads i)) [
  | inl e ↦ rw (e, step) held
  | inr (pc, e) ↦ rw (e, step) (moved s i o held a pc e)
]

run-IsOrdered :
    (cs : List (ℕ × Action)) (s : System) → IsExclusive s → IsOrdered s → IsOrdered (run cs s)
unfolding run
run-IsOrdered [] s o held = held
run-IsOrdered (c ∷ cs) s o held =
    run-IsOrdered cs (step c s) (step-IsExclusive c s o) (step-IsOrdered c s o held)

start-IsOrdered : (n : ℕ) → IsOrdered (start n)
unfolding start
start-IsOrdered n = rw (all_carried_none (all_idle n) (owners-all_idle n))

-- Over every schedule of any number of threads, the buffers given to `async_write`, then the one
-- that a thread has popped and not yet written, then those queued, are exactly the buffers that were
-- pushed, in the order of their pushes.
pub written_in_order :
    (n : ℕ) (cs : List (ℕ × Action))
    → let s = run cs (start n) in
      s.memory.written ++ (all_carried s.threads ++ s.memory.out_queue.items) ≡ s.memory.pushed
written_in_order n cs = run-IsOrdered cs (start n) (start-IsExclusive n) (start-IsOrdered n)
