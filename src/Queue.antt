-- ===== src/Queue.antt =====
-- `TSQueue` of shared/utils/ts_queue.hpp. Every member holds the queue's mutex for its whole body,
-- so a call is one atomic step, and a history of calls from any threads is a list of steps.
-- `TSQueue::Swap` is declared and never defined.
use endless_peak_server.Shared.{
  ℕ, Bool, true, false, if◌then◌else◌, List, [], ◌∷◌, ◌++◌, Option, none, some, length,
}
pub mod Fifo

-- `data_`, the front first.
pub record TsQueue {ℓ} (A : Type ℓ) : Type ℓ where
  pub items : List A

module _ {ℓ} {A : Type ℓ} where
  abbrev pub new_queue : TsQueue A
  new_queue = record { items = [] }

  unfoldable pub push : A → TsQueue A → TsQueue A
  push value q = record { items = q.items ++ (value ∷ []) }

  pop_front : List A → Option A × TsQueue A
  pop_front [] = (none, record { items = [] })
  pop_front (front ∷ rest) = (some front, record { items = rest })

  unfoldable pub try_pop : TsQueue A → Option A × TsQueue A
  unfolding pop_front
  try_pop q = pop_front q.items

  wait_front : List A → Option (A × TsQueue A)
  wait_front [] = none
  wait_front (front ∷ rest) = some (front, record { items = rest })

  -- `none`: the caller waits, and the queue stays as it is.
  unfoldable pub wait_and_pop : TsQueue A → Option (A × TsQueue A)
  unfolding wait_front
  wait_and_pop q = wait_front q.items

  is_nil : List A → Bool
  is_nil [] = true
  is_nil (x ∷ xs) = false

  unfoldable pub empty : TsQueue A → Bool
  unfolding is_nil
  empty q = is_nil q.items

  unfoldable pub size : TsQueue A → ℕ
  size q = length q.items

  -- `same` says whether the two references name one object.
  unfoldable pub ts_swap : Bool → TsQueue A → TsQueue A → TsQueue A × TsQueue A
  ts_swap same lhs rhs =
      if same then (lhs, rhs) else (record { items = rhs.items }, record { items = lhs.items })
