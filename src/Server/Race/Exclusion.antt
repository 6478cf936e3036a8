-- ===== src/Server/Race/Exclusion.antt =====
-- Who may write to `sessions_` in net/server/server.cpp, and who reads it meanwhile.
use mathlib.Core.Option.{some-injective}
use endless_peak_server.Shared.{
  ℕ, zero, suc, ◌≡◌, ◌≢◌, refl, sym, ap, ◌∙◌, subst, inl, inr, true, false, ◌==◌, Bool-cases, List,
  [], ◌∷◌, some, get_elem?, set, replicate, arith, >>=-eq-some, Option-cases, get_elem?-set,
  get_elem?-set_ne,
}
use endless_peak_server.Queue.Fifo.{wait_and_pop_cons}
use endless_peak_server.Session.{Session}
use endless_peak_server.World.{ServerPacket}
use endless_peak_server.Server.{Server}
use endless_peak_server.Server.Race.{
  Pc, idle, at_insert, in_loop, Action, adds, sends, runs, Memory, advance, locked, sent, Threads,
  moved, chosen, step, run, start,
}
use endless_peak_server.Server.Race.Locked.{holding, Owned, advance-Owned}

-- The mutex belongs to every thread that is within its scope.
abbrev pub IsHeld : Threads → Type 0
IsHeld s =
    (i : ℕ) (pc : Pc)
    → get_elem? s.threads i ≡ some pc
    → holding pc ≡ true
    → s.memory.owner ≡ some i

-- Another thread that holds the mutex keeps it.
others_keep :
    (i j : ℕ) (m : Memory) (r : Pc × Memory)
    → Owned i m r
    → (i ≡ j → ⊥)
    → m.owner ≡ some j
    → r.1.owner ≡ some j
others_keep i j m r (_, inl same) n e = same ∙ e
others_keep i j m r (_, inr (inl free)) n e = absurd (cc (sym free ∙ e))
others_keep i j m r (_, inr (inr own)) n e = absurd (n (some-injective _ _ (sym own ∙ e)))

moved-IsHeld :
    (i : ℕ) (pc : Pc) (s : Threads) (r : Pc × Memory)
    → get_elem? s.threads i ≡ some pc
    → Owned i s.memory r
    → IsHeld s
    → IsHeld (moved i s r)
unfolding moved
moved-IsHeld i pc s (pc', m') at_pc owned held j pc'' found inside = elim (Bool-cases (i == j)) [
  | inl own ↦
      let same : i ≡ j = ground (arith, own) in
      let now : get_elem? (set s.threads i pc') i ≡ some pc' =
        get_elem?-set s.threads i pc' pc at_pc in
      let equal : pc'' ≡ pc' =
        some-injective _ _ (sym found ∙ ap (get_elem? (set s.threads i pc')) (sym same) ∙ now) in
      owned.0 (ap holding (sym equal) ∙ inside) ∙ ap some same
  | inr other ↦
      let n : i ≡ j → ⊥ = λ e. ground (arith, other, e) in
      others_keep i j s.memory (pc', m') owned n
        (held j pc'' (sym (get_elem?-set_ne s.threads i j pc' n) ∙ found) inside)
]

step-IsHeld : (c : ℕ × Action) (s s' : Threads) → step c s ≡ some s' → IsHeld s → IsHeld s'
unfolding step
step-IsHeld (i, a) s s' e held = elim (Option-cases (get_elem? s.threads i)) [
  | inl missing ↦ subst IsHeld (some-injective _ _ (rw (missing, chosen) at e)) held
  | inr (pc, at_pc) ↦
      let (r, advanced, e') = >>=-eq-some (advance i a pc s.memory) _ (rw (at_pc, chosen) at e) in
      subst IsHeld (some-injective _ _ e') (
        moved-IsHeld i pc s r at_pc (advance-Owned i a pc s.memory r advanced (held i pc at_pc))
          held)
]

run-IsHeld : (cs : List (ℕ × Action)) (s s' : Threads) → run cs s ≡ some s' → IsHeld s → IsHeld s'
unfolding run
run-IsHeld [] s s' e held = subst IsHeld (some-injective _ _ e) held
run-IsHeld (c ∷ cs) s s' e held =
    let (between, stepped, rest) = >>=-eq-some (step c s) (run cs) e in
    run-IsHeld cs between s' rest (step-IsHeld c s between stepped held)

get_elem?-replicate : (n i : ℕ) (pc : Pc) → get_elem? (replicate n idle) i ≡ some pc → pc ≡ idle
get_elem?-replicate zero i pc e = absurd (cc e)
get_elem?-replicate (suc n) zero pc e = sym (some-injective _ _ e)
get_elem?-replicate (suc n) (suc i) pc e = get_elem?-replicate n i pc e

start-IsHeld : (n : ℕ) (server : Server) → IsHeld (start n server)
unfolding start
start-IsHeld n server i pc found inside =
    absurd (cc (ap holding (sym (get_elem?-replicate n i pc found)) ∙ inside))

-- From the start of any number of threads, after any steps that do not fault: while one thread is in
-- the scope of the mutex, in `AddSession` or in `CloseSession`, no other thread is.
pub lock_exclusive :
    (n : ℕ) (cs : List (ℕ × Action)) (server : Server) (s : Threads) (i j : ℕ) (pc pc' : Pc)
    → run cs (start n server) ≡ some s
    → get_elem? s.threads i ≡ some pc
    → get_elem? s.threads j ≡ some pc'
    → i ≢ j
    → holding pc ≡ true
    → holding pc' ≡ false
lock_exclusive n cs server s i j pc pc' e at_i at_j apart inside =
    let held = run-IsHeld cs (start n server) s e (start-IsHeld n server) in
    elim (Bool-cases (holding pc')) [
      | inl both ↦
          absurd (apart (some-injective _ _ (sym (held i pc at_i inside) ∙ held j pc' at_j both)))
      | inr outside ↦ outside
    ]

-- With two threads or more and a packet to send, one thread can be in the sender's loop over the map
-- while another one has the mutex and is about to write a new session to the map.
pub sender_races :
    (n : ℕ) (server : Server) (packet : ServerPacket) (rest : List ServerPacket) (session : Session)
    → server.out_queue.items ≡ packet ∷ rest
    → (s : Threads) × (run
          ((0, sends) ∷ (0, runs) ∷ (1, adds session) ∷ (1, runs) ∷ [])
          (start (suc (suc n)) server)
        ≡ some s)
      × (get_elem? s.threads 0 ≡ some (in_loop packet))
      × (get_elem? s.threads 1 ≡ some (at_insert session))
unfolding run step start advance moved chosen
sender_races n server packet rest session e =
    let popped = wait_and_pop_cons server.out_queue packet rest e in
    (
      record {
        memory = record {
          server = record server { out_queue = record { items = rest } };
          owner = some 1;
        };
        threads = in_loop packet ∷ at_insert session ∷ replicate n idle;
      },
      rw (popped, sent, locked) refl,
      refl,
      refl,
    )
