-- ===== src/Sending/Threads.antt =====
-- Which thread owns the session's write, and which buffer it carries.
use endless_peak_server.Shared.{
  ℕ, zero, suc, ◌+◌, ◌≤◌, ◌≡◌, refl, sym, ap, ◌∙◌, List, [], ◌∷◌, ◌++◌, some, get_elem?, set, arith,
  append-nil,
}
use endless_peak_server.Session.{SendBuffer}
use endless_peak_server.Sending.{Pc, idle, at_pop, at_write, at_clear}

-- 1 between the `test_and_set` that found the flag clear and the `clear`, but for the time in which
-- the socket has the buffer.
abbrev pub owns : Pc → ℕ
owns at_pop = 1
owns (at_write buf) = 1
owns at_clear = 1
owns _ = 0

abbrev pub owners : List Pc → ℕ
owners [] = 0
owners (pc ∷ pcs) = owns pc + owners pcs

abbrev pub carried : Pc → List SendBuffer
carried (at_write buf) = buf ∷ []
carried _ = []

abbrev pub all_carried : List Pc → List SendBuffer
all_carried [] = []
all_carried (pc ∷ pcs) = carried pc ++ all_carried pcs

pub owners-set :
    (pcs : List Pc) (i : ℕ) (pc pc' : Pc)
    → get_elem? pcs i ≡ some pc
    → owners (set pcs i pc') + owns pc ≡ owners pcs + owns pc'
owners-set [] i pc pc' e = cc
owners-set (x ∷ pcs) zero pc pc' e =
    let same : owns x ≡ owns pc = ground arith in omega (arith, same)
owners-set (x ∷ pcs) (suc i) pc pc' e = omega (arith, owners-set pcs i pc pc' e)

pub owns-le-owners :
    (pcs : List Pc) (i : ℕ) (pc : Pc) → get_elem? pcs i ≡ some pc → owns pc ≤ owners pcs
owns-le-owners [] i pc e = cc
owns-le-owners (x ∷ pcs) zero pc e =
    let same : owns x ≡ owns pc = ground arith in omega (arith, same)
owns-le-owners (x ∷ pcs) (suc i) pc e = omega (arith, owns-le-owners pcs i pc e)

carried-le : (pc : Pc) → owns pc ≡ 0 → carried pc ≡ []
carried-le idle e = refl
carried-le (at_write buf) e = absurd (omega arith)
carried-le _ e = refl

pub all_carried_none : (pcs : List Pc) → owners pcs ≡ 0 → all_carried pcs ≡ []
all_carried_none [] e = refl
all_carried_none (pc ∷ pcs) e =
    rw (carried-le pc (omega arith)) (all_carried_none pcs (omega arith))

-- A thread that keeps what it carries.
pub all_carried-set_same :
    (pcs : List Pc) (i : ℕ) (pc pc' : Pc)
    → get_elem? pcs i ≡ some pc
    → carried pc ≡ carried pc'
    → all_carried (set pcs i pc') ≡ all_carried pcs
all_carried-set_same [] i pc pc' e c = cc
all_carried-set_same (x ∷ pcs) zero pc pc' e c =
    let same : carried x ≡ carried pc = ground arith in
    ap (λ bs. bs ++ all_carried pcs) (sym c ∙ sym same)
all_carried-set_same (x ∷ pcs) (suc i) pc pc' e c =
    ap (λ bs. carried x ++ bs) (all_carried-set_same pcs i pc pc' e c)

-- The only owner.
pub all_carried-set_owner :
    (pcs : List Pc) (i : ℕ) (pc pc' : Pc)
    → get_elem? pcs i ≡ some pc
    → owners pcs ≡ owns pc
    → (all_carried pcs ≡ carried pc) × (all_carried (set pcs i pc') ≡ carried pc')
all_carried-set_owner [] i pc pc' e o = cc
all_carried-set_owner (x ∷ pcs) zero pc pc' e o =
    let same : owns x ≡ owns pc = ground arith in
    let same_carried : carried x ≡ carried pc = ground arith in
    let rest : all_carried pcs ≡ [] = all_carried_none pcs (omega (arith, same)) in
    (
      ap (λ bs. carried x ++ bs) rest ∙ append-nil (carried x) ∙ same_carried,
      ap (λ bs. carried pc' ++ bs) rest ∙ append-nil (carried pc'),
    )
all_carried-set_owner (x ∷ pcs) (suc i) pc pc' e o =
    let none_here : owns x ≡ 0 = omega (arith, owns-le-owners pcs i pc e) in
    let (before, after) = all_carried-set_owner pcs i pc pc' e (omega arith) in
    (rw (carried-le x none_here) before, rw (carried-le x none_here) after)
