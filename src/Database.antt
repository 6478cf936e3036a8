-- ===== src/Database.antt =====
-- `SQLConnection` of db/connection/sql_connection.hpp and sql_connection.cpp. The client library of
-- MySQL is a parameter that answers by the calls made so far; `none` is a null pointer that it is
-- given where it takes none.
use Prim.Native.String.{String}
use endless_peak_server.Shared.{
  ℕ, Bool, true, false, if◌then◌else◌, List, ◌∷◌, Option, none, some, ◌>>=◌,
}
pub mod Login
pub mod Handles
pub mod Outcomes
pub mod Lifetime
pub mod Totals
pub mod Table
pub mod Accounts
pub mod Passwords
pub mod Connections
pub mod Texts
pub mod Found

-- `MYSQL_BIND`: a value, with its type, and a buffer for a column, with its type and length.
pub data Param : Type 0 where
  string_param blob_param : List ℕ → Param

pub data Column : Type 0 where
  long_long_column string_column blob_column : ℕ → Column

-- A call of the library, with the handle it was given, and for `mysql_init` and `mysql_stmt_init`
-- the handle they returned.
pub data Call : Type 0 where
  init : Option ℕ → Call
  real_connect : Option ℕ → (host user password db_name : String) → Call
  close : ℕ → Call
  stmt_init : Option ℕ → Option ℕ → Call
  stmt_prepare : ℕ → String → Call
  stmt_close : ℕ → Call
  bind_param : ℕ → List Param → Call
  execute : ℕ → Call
  bind_result : ℕ → List Column → Call
  store_result : ℕ → Call
  fetch : ℕ → Call

-- The latest call is the head.
abbrev pub Calls : Type 0
Calls = List Call

-- What `Get` finds in its buffers, and how much of each is filled.
pub record LoginData : Type 0 where
  pub id : ℕ
  pub login : List ℕ
  pub password_hash : List ℕ
  pub password_salt : List ℕ
  pub password_algo : List ℕ
  pub login_length : ℕ
  pub hash_length : ℕ
  pub salt_length : ℕ
  pub algo_length : ℕ

-- 0 with the buffers of a row, `MYSQL_NO_DATA`, `MYSQL_DATA_TRUNCATED`, or 1.
pub data Fetched : Type 0 where
  row : LoginData → Fetched
  no_data truncated failed : Fetched

-- The answers: the handle for `mysql_init` and `mysql_stmt_init` after the calls before, whether the
-- latest call succeeded, and what the latest call, a fetch, gave. `accepts_null`: whether
-- `mysql_error` and `mysql_stmt_error` take a null pointer.
pub record MySql : Type 0 where
  pub new_handle : Calls → Option ℕ
  pub new_stmt : Option ℕ → Calls → Option ℕ
  pub succeeds : Calls → Bool
  pub fetched : Calls → Fetched
  pub accepts_null : Bool

pub record SqlConnection : Type 0 where
  pub db : Option ℕ

unfoldable pub null_connection : SqlConnection
null_connection = record { db = none }

-- The destructor.
unfoldable pub drop_connection : SqlConnection → Calls → Calls
drop_connection c calls = elim c.db [ none ↦ calls | some h ↦ close h ∷ calls ]

-- The new object, and what is left in the other.
unfoldable pub move_connection : SqlConnection → SqlConnection × SqlConnection
move_connection other = (record { db = other.db }, record other { db = none })

-- `same`: both are one object.
unfoldable pub assign_connection :
    Bool → SqlConnection → SqlConnection → SqlConnection × SqlConnection
assign_connection same self other =
    if same then (self, other) else (record self { db = other.db }, record other { db = none })

-- `Load` behind `Connect`. The local object's destructor runs on each return, after the move on
-- the last.
unfoldable pub finish_load : Bool × Calls → SqlConnection → Option (Option SqlConnection × Calls)
finish_load (true, calls) c =
    let (moved, left) = move_connection c in some (some moved, drop_connection left calls)
finish_load (false, calls) c = some (none, drop_connection c calls)

module _ (my : MySql) where
  unfoldable pub init_connection : SqlConnection → Calls → Option (Bool × SqlConnection × Calls)
  init_connection c calls = elim (my.new_handle calls) [
    | none ↦
        if my.accepts_null then some (false, record c { db = none }, init none ∷ calls) else none
    | some h ↦ some (true, record c { db = some h }, init (some h) ∷ calls)
  ]

  unfoldable pub connect :
      (host user password db_name : String) → SqlConnection → Calls → Bool × Calls
  connect host user password db_name c calls =
      let calls = real_connect c.db host user password db_name ∷ calls in (my.succeeds calls, calls)

  unfoldable pub load :
      (host user password db_name : String) → Calls → Option (Option SqlConnection × Calls)
  load host user password db_name calls =
      init_connection null_connection calls >>= λ (ok, c, calls).
      if ok
      then finish_load (connect host user password db_name c calls) c
      else some (none, drop_connection c calls)
