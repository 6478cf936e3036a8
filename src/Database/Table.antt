-- ===== src/Database/Table.antt =====
-- The table `accounts` of db/accounts.sql, and what the documentation of the client library says of
-- prepared statements on it.
use Prim.Native.String.{String}
use endless_peak_server.Shared.{
  ℕ, ◌≤◌, ◌≡◌, true, if◌then◌else◌, ◌==◌, List, [], ◌∷◌, Option, none, some, length, take,
}
use endless_peak_server.Database.{
  Calls, Param, string_param, blob_param, stmt_prepare, stmt_close, bind_param, execute,
  bind_result, store_result, fetch, LoginData, Fetched, row, no_data, truncated, failed, MySql,
}
use endless_peak_server.Database.Login.{
  insert_sql, select_sql, delete_sql, result_columns, login_size, password_hash_size,
  password_salt_size, password_algo_size,
}

-- The text a statement is prepared with, by the latest call that set it.
unfoldable pub prepared : ℕ → Calls → Option String
prepared h [] = none
prepared h (stmt_prepare k sql ∷ calls) = if h == k then some sql else prepared h calls
prepared h (stmt_close k ∷ calls) = if h == k then none else prepared h calls
prepared h (_ ∷ calls) = prepared h calls

-- The parameters that were bound last.
unfoldable pub bound : ℕ → Calls → List Param
bound h [] = []
bound h (bind_param k params ∷ calls) = if h == k then params else bound h calls
bound h (_ ∷ calls) = bound h calls

-- A row of the table.
pub record Account : Type 0 where
  pub id : ℕ
  pub login : List ℕ
  pub hash : List ℕ
  pub salt : List ℕ
  pub algo : List ℕ

-- Each value fits the buffer that is bound for it.
pub record Fits (a : Account) : Type 0 where
  pub login : length a.login ≤ login_size
  pub hash : length a.hash ≤ password_hash_size
  pub salt : length a.salt ≤ password_salt_size
  pub algo : length a.algo ≤ password_algo_size

-- The buffers hold a row.
pub record Holds (a : Account) (res : LoginData) : Type 0 where
  pub id : res.id ≡ a.id
  pub login : take res.login_length res.login ≡ a.login
  pub hash : take res.hash_length res.password_hash ≡ a.hash
  pub salt : take res.salt_length res.password_salt ≡ a.salt
  pub algo : take res.algo_length res.password_algo ≡ a.algo

-- What a fetch can answer for an account that was looked up: an error, or the end of the result without an
-- account, or the row when it fits the buffers, or a report of truncation when it does not.
unfoldable pub IsAnswer : Option Account → Fetched → Type 0
IsAnswer account failed = Unit
IsAnswer none no_data = Unit
IsAnswer (some a) (row res) = Fits a × Holds a res
IsAnswer (some a) truncated = Fits a → ⊥
IsAnswer none (row res) = ⊥
IsAnswer none truncated = ⊥
IsAnswer (some a) no_data = ⊥

-- `accounts` is what a login finds in the table after the calls so far, when nothing else writes to
-- the table; the key on its login makes that at most one row.
pub record IsTable (my : MySql) (accounts : Calls → List ℕ → Option Account) : Type 0 where
  -- An insertion stores its values, a deletion leaves no row, and binding parameters changes nothing.
  pub inserted :
      (h : ℕ) (login hash salt algo : List ℕ) (calls : Calls)
      → prepared h calls ≡ some insert_sql
      → bound h calls
        ≡ string_param login ∷ blob_param hash ∷ blob_param salt ∷ string_param algo ∷ []
      → my.succeeds (execute h ∷ calls) ≡ true
      → (id : ℕ) × (accounts (execute h ∷ calls) login
          ≡ some (record { id = id; login = login; hash = hash; salt = salt; algo = algo }))
  pub deleted :
      (h : ℕ) (login : List ℕ) (calls : Calls)
      → prepared h calls ≡ some delete_sql
      → bound h calls ≡ string_param login ∷ []
      → my.succeeds (execute h ∷ calls) ≡ true
      → accounts (execute h ∷ calls) login ≡ none
  pub bound_only :
      (h : ℕ) (params : List Param) (login : List ℕ) (calls : Calls)
      → accounts (bind_param h params ∷ calls) login ≡ accounts calls login
  -- The result of a selection that was executed and stored is fetched.
  pub selected :
      (h : ℕ) (login : List ℕ) (calls : Calls)
      → prepared h calls ≡ some select_sql
      → bound h calls ≡ string_param login ∷ []
      → my.succeeds (execute h ∷ calls) ≡ true
      → my.succeeds (bind_result h result_columns ∷ execute h ∷ calls) ≡ true
      → my.succeeds (store_result h ∷ bind_result h result_columns ∷ execute h ∷ calls) ≡ true
      → IsAnswer
          (accounts calls login)
          (my.fetched (fetch h ∷ store_result h ∷ bind_result h result_columns ∷ execute h ∷ calls))
