-- ===== src/Sending/Exclusive.antt =====
-- How many calls of `async_write` are outstanding, over every schedule.
use endless_peak_server.Shared.{
  ℕ, zero, suc, ◌+◌, ◌-◌, ◌≤◌, ◌≡◌, refl, sym, subst, Bool, true, false, List, [], ◌∷◌, Option,
  none, some, get_elem?, set, arith, Option-cases, inl, inr,
}
use endless_peak_server.Session.{SendBuffer}
use endless_peak_server.Sending.{
  Memory, Pc, idle, at_pop, at_write, Action, calls, completes, fails, read_fails, runs, advance,
  System, step, run, start, all_idle,
}
use endless_peak_server.Sending.Threads.{owns, owners, owners-set, owns-le-owners}

abbrev pub outstanding : Option SendBuffer → ℕ
outstanding none = 0
outstanding (some buf) = 1

-- With `held` threads that own the write: one owner at most, the socket included, and none while the
-- flag is clear.
pub record Owned (held : ℕ) (m : Memory) : Type 0 where
  pub single : held + outstanding m.in_flight ≤ 1
  pub clear : m.sending ≡ false → held + outstanding m.in_flight ≡ 0

abbrev pub IsExclusive : System → Type 0
IsExclusive s = Owned (owners s.threads) s.memory

advance-Owned :
    (a : Action) (pc : Pc) (m : Memory) (others : ℕ)
    → Owned (others + owns pc) m
    → Owned (others + owns (advance a pc m).0) (advance a pc m).1
unfolding advance
advance-Owned (calls buf) idle m others o = o
advance-Owned (calls buf) _ m others o = o
advance-Owned completes idle m others o = ground arith
advance-Owned completes _ m others o = o
advance-Owned fails idle m others o = ground arith
advance-Owned fails _ m others o = o
advance-Owned read_fails idle m others o = record { single = o.single; clear = o.clear }
advance-Owned read_fails _ m others o = o
advance-Owned runs idle m others o = o
advance-Owned runs at_pop m others o = ground arith
advance-Owned runs _ m others o = ground arith

pub step-IsExclusive : (c : ℕ × Action) (s : System) → IsExclusive s → IsExclusive (step c s)
unfolding step
step-IsExclusive (i, a) s o = elim (Option-cases (get_elem? s.threads i)) [
  | inl e ↦ rw (e, step) o
  | inr (pc, e) ↦
      let others = owners s.threads - owns pc in
      let before : others + owns pc ≡ owners s.threads =
        omega (arith, owns-le-owners s.threads i pc e) in
      let pc' = (advance a pc s.memory).0 in
      let after : others + owns pc' ≡ owners (set s.threads i pc') =
        omega (arith, owners-set s.threads i pc pc' e, owns-le-owners s.threads i pc e) in
      rw (e, step)
        (subst (λ n. Owned n (advance a pc s.memory).1) after
          (advance-Owned a pc s.memory others (subst (λ n. Owned n s.memory) (sym before) o)))
]

-- Every schedule keeps it.
pub run-IsExclusive : (cs : List (ℕ × Action)) (s : System) → IsExclusive s → IsExclusive (run cs s)
unfolding run
run-IsExclusive [] s o = o
run-IsExclusive (c ∷ cs) s o = run-IsExclusive cs (step c s) (step-IsExclusive c s o)

pub owners-all_idle : (n : ℕ) → owners (all_idle n) ≡ 0
unfolding all_idle
owners-all_idle zero = refl
owners-all_idle (suc n) = omega (arith, owners-all_idle n)

pub start-IsExclusive : (n : ℕ) → IsExclusive (start n)
unfolding start
start-IsExclusive n = record {
  single = omega (arith, owners-all_idle n);
  clear = λ e. omega (arith, owners-all_idle n);
}

-- From the start of a connection with any number of threads, whenever some thread is about to call
-- `async_write`, no write is outstanding and no other thread is between `test_and_set` and `clear`.
pub write_exclusive :
    (n : ℕ) (cs : List (ℕ × Action)) (i : ℕ) (buf : SendBuffer)
    → get_elem? (run cs (start n)).threads i ≡ some (at_write buf)
    → ((run cs (start n)).memory.in_flight ≡ none)
      × (owners (run cs (start n)).threads ≡ 1)
      × ((run cs (start n)).memory.sending ≡ true)
write_exclusive n cs i buf e =
    let s = run cs (start n) in
    let o : IsExclusive s = run-IsExclusive cs (start n) (start-IsExclusive n) in
    let one : 1 ≤ owners s.threads = owns-le-owners s.threads i (at_write buf) e in
    (
      none_of (s.memory.in_flight) (omega (arith, one, o.single)),
      omega (arith, one, o.single),
      true_of (s.memory.sending) (λ f. omega (arith, one, o.clear f)),
    )
  where
    none_of : (b : Option SendBuffer) → outstanding b ≡ 0 → b ≡ none
    none_of none h = refl
    none_of (some b) h = absurd (omega arith)

    true_of : (b : Bool) → (b ≡ false → ⊥) → b ≡ true
    true_of true h = refl
    true_of false h = absurd (h refl)
