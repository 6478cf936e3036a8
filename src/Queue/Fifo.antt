-- ===== src/Queue/Fifo.antt =====
-- A history of calls on one queue of shared/utils/ts_queue.hpp.
use endless_peak_server.Shared.{
  ◌≡◌, refl, sym, ap, ◌∙◌, ◌⊎◌, inl, inr, List, [], ◌∷◌, ◌++◌, none, some, append-nil, append_assoc,
  option_list, arith,
}
use endless_peak_server.Queue.{TsQueue, push, pop_front, wait_front, try_pop, wait_and_pop}

-- A call by some thread. A `wait_pops` at an empty queue is a thread that goes on waiting.
pub data Call {ℓ} (A : Type ℓ) : Type ℓ where
  pushes : A → Call A
  try_pops : Call A
  wait_pops : Call A

module _ {ℓ} {A : Type ℓ} where
  -- The values that a call takes out, and the queue after it.
  unfoldable pub step : Call A → TsQueue A → List A × TsQueue A
  step (pushes a) q = ([], push a q)
  step try_pops q = let (a, q') = try_pop q in (option_list a, q')
  step wait_pops q = elim (wait_and_pop q) [ none ↦ ([], q) | some (a, q') ↦ (a ∷ [], q') ]

  unfoldable pub run : List (Call A) → TsQueue A → List A × TsQueue A
  run [] q = ([], q)
  run (c ∷ cs) q = let (out, q') = step c q in let (outs, q'') = run cs q' in (out ++ outs, q'')

  abbrev pub pushed : List (Call A) → List A
  pushed [] = []
  pushed (pushes a ∷ cs) = a ∷ pushed cs
  pushed (try_pops ∷ cs) = pushed cs
  pushed (wait_pops ∷ cs) = pushed cs

  -- `TryPop` takes the front, and fails on the empty queue only.
  pub try_pop_cases :
      (q : TsQueue A)
      → ((q.items ≡ []) × (try_pop q ≡ (none, q)))
        ⊎ ((x : A) × (rest : List A) × (q.items ≡ x ∷ rest)
            × (try_pop q ≡ (some x, record { items = rest })))
  unfolding try_pop
  try_pop_cases q = go q.items refl
    where
      go :
          (items : List A)
          → q.items ≡ items
          → ((q.items ≡ []) × (try_pop q ≡ (none, q)))
            ⊎ ((x : A) × (rest : List A) × (q.items ≡ x ∷ rest)
                × (try_pop q ≡ (some x, record { items = rest })))
      go [] e = inl (e, ground arith)
      go (x ∷ rest) e = inr (x, rest, e, ground arith)

  pub wait_and_pop_nil : (q : TsQueue A) → q.items ≡ [] → wait_and_pop q ≡ none
  unfolding wait_and_pop
  wait_and_pop_nil q e = rw (e, wait_front)

  pub wait_and_pop_cons :
      (q : TsQueue A) (x : A) (rest : List A)
      → q.items ≡ x ∷ rest
      → wait_and_pop q ≡ some (x, record { items = rest })
  unfolding wait_and_pop
  wait_and_pop_cons q x rest e = rw (e, wait_front)

  try_pop_lem : (q : TsQueue A) → option_list (try_pop q).0 ++ (try_pop q).1.items ≡ q.items
  unfolding try_pop
  try_pop_lem q = go q.items
    where
      go : (xs : List A) → option_list (pop_front xs).0 ++ (pop_front xs).1.items ≡ xs
      go [] = refl
      go (x ∷ xs) = refl

  step_wait : (q : TsQueue A) → (step wait_pops q).0 ++ (step wait_pops q).1.items ≡ q.items
  unfolding step wait_and_pop
  step_wait q = go q.items refl
    where
      go :
          (xs : List A)
          → q.items ≡ xs
          → (step wait_pops q).0 ++ (step wait_pops q).1.items ≡ q.items
      go [] e = ground arith
      go (x ∷ xs) e = ground arith

  step_lem :
      (c : Call A) (q : TsQueue A) → (step c q).0 ++ (step c q).1.items ≡ q.items ++ pushed (c ∷ [])
  unfolding step
  step_lem (pushes a) q = unfold push in refl
  step_lem try_pops q = try_pop_lem q ∙ sym (append-nil q.items)
  step_lem wait_pops q = step_wait q ∙ sym (append-nil q.items)

  pushed-cons : (c : Call A) (cs : List (Call A)) → pushed (c ∷ cs) ≡ pushed (c ∷ []) ++ pushed cs
  pushed-cons (pushes a) cs = refl
  pushed-cons try_pops cs = refl
  pushed-cons wait_pops cs = refl

  -- Over any interleaving of calls, the values taken out and then those still queued are the
  -- initial content and then the pushed values, in order: none is lost, repeated or overtaken.
  pub run_fifo :
      (cs : List (Call A)) (q : TsQueue A)
      → (run cs q).0 ++ (run cs q).1.items ≡ q.items ++ pushed cs
  unfolding run
  run_fifo [] q = sym (append-nil q.items)
  run_fifo (c ∷ cs) q =
      let q' = (step c q).1 in
      append_assoc (step c q).0 (run cs q').0 (run cs q').1.items
      ∙ ap (λ xs. (step c q).0 ++ xs) (run_fifo cs q')
      ∙ sym (append_assoc (step c q).0 q'.items (pushed cs))
      ∙ ap (λ xs. xs ++ pushed cs) (step_lem c q)
      ∙ append_assoc q.items (pushed (c ∷ [])) (pushed cs)
      ∙ ap (λ xs. q.items ++ xs) (sym (pushed-cons c cs))
