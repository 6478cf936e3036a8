-- ===== src/Database/Connections.antt =====
-- The connections that `SQLConnection::Load` opens.
use endless_peak_server.Shared.{
  ℕ, ◌+◌, ◌≡◌, sym, subst, inl, inr, Bool, true, false, if◌then◌else◌, ◌==◌, [], ◌∷◌, Option, none,
  some, arith, Option-cases, Bool-cases, some-ne-none,
}
use mathlib.Core.Option.{some-injective}
use Prim.Native.String.{String}
use endless_peak_server.Database.{
  Calls, init, close, real_connect, MySql, SqlConnection, null_connection, drop_connection,
  move_connection, init_connection, connect, finish_load, load,
}

-- How often a connection was opened, and closed.
unfoldable pub db_opened : ℕ → Calls → ℕ
db_opened h [] = 0
db_opened h (init (some k) ∷ calls) = (if h == k then 1 else 0) + db_opened h calls
db_opened h (_ ∷ calls) = db_opened h calls

unfoldable pub db_closed : ℕ → Calls → ℕ
db_closed h [] = 0
db_closed h (close k ∷ calls) = (if h == k then 1 else 0) + db_closed h calls
db_closed h (_ ∷ calls) = db_closed h calls

-- The destructor of what `Load` returned.
unfoldable pub drop_loaded : Option SqlConnection × Calls → Calls
drop_loaded (none, calls) = calls
drop_loaded (some c, calls) = drop_connection c calls

abbrev pub DbsClosed : ℕ → Calls → Type 0
DbsClosed h calls = db_opened h calls ≡ db_closed h calls

module _ (my : MySql) where
  finish_load_lem :
      (host user password db_name : String) (h k : ℕ) (ok : Bool) (calls : Calls)
      (result : Option SqlConnection × Calls)
      → DbsClosed h calls
      → finish_load
          (ok, real_connect (some k) host user password db_name ∷ init (some k) ∷ calls)
          (record { db = some k })
        ≡ some result
      → DbsClosed h (drop_loaded result)
  unfolding finish_load move_connection drop_connection drop_loaded db_opened db_closed
  finish_load_lem host user password db_name h k true calls result e r =
      subst (λ x. DbsClosed h (drop_loaded x)) (some-injective _ _ r) (omega (arith, e))
  finish_load_lem host user password db_name h k false calls result e r =
      subst (λ x. DbsClosed h (drop_loaded x)) (some-injective _ _ r) (omega (arith, e))

  -- When `Load` returns, with a connection or without, then once its result is destroyed each
  -- connection is closed as often as it was opened, if that was so before.
  pub load_closed :
      (host user password db_name : String) (h : ℕ) (calls : Calls)
      (result : Option SqlConnection × Calls)
      → db_opened h calls ≡ db_closed h calls
      → load my host user password db_name calls ≡ some result
      → db_opened h (drop_loaded result) ≡ db_closed h (drop_loaded result)
  unfolding load init_connection connect null_connection drop_connection drop_loaded db_opened
      db_closed
  load_closed host user password db_name h calls result e r =
      elim (Option-cases (my.new_handle calls)) [
        | inr (k, got) ↦
            finish_load_lem host user password db_name h k _ calls result e
              (rw (load, init_connection, got) at r)
        | inl null ↦ elim (Bool-cases my.accepts_null) [
          | inl accepts ↦
              subst (λ x. DbsClosed h (drop_loaded x))
                (some-injective _ _ (rw (load, init_connection, null, accepts) at r)) e
          | inr refuses ↦
              absurd (some-ne-none _ (sym (rw (load, init_connection, null, refuses) at r)))
        ]
      ]
