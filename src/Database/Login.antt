-- ===== src/Database/Login.antt =====
-- `LoginDataBase` of db/database/login_database.hpp and login_database.cpp.
use Prim.Native.String.{String}
use endless_peak_server.Shared.{
  ℕ, zero, suc, Bool, false, if◌then◌else◌, List, [], ◌∷◌, Option, none, some, ◌>>=◌, get_elem?,
}
use endless_peak_server.Crypto.{OpenSsl, hash, generate_salt, salt_length}
use endless_peak_server.Database.{
  Param, string_param, blob_param, Column, long_long_column, string_column, blob_column, Calls,
  stmt_init, stmt_prepare, stmt_close, bind_param, execute, bind_result, store_result, fetch,
  LoginData, Fetched, row, no_data, truncated, failed, MySql, SqlConnection, move_connection,
  drop_connection,
}

-- The enumerators of `LoginSTMT`, and the slots they name.
pub data LoginStmt : Type 0 where
  add_user get_user_by_name get_user_by_id remove_user_by_name : LoginStmt

unfoldable pub slot : LoginStmt → ℕ
slot add_user = 1
slot get_user_by_name = 2
slot get_user_by_id = 3
slot remove_user_by_name = 4

abbrev pub num_stmts : ℕ
num_stmts = 255

abbrev pub login_size : ℕ
login_size = 64

abbrev pub password_hash_size : ℕ
password_hash_size = 255

abbrev pub password_salt_size : ℕ
password_salt_size = 64

abbrev pub password_algo_size : ℕ
password_algo_size = 16

abbrev pub Stmts : Type 0
Stmts = List (Option ℕ)

pub record LoginDataBase : Type 0 where
  pub connection : SqlConnection
  pub stmts : Stmts

unfoldable pub init_stmts : ℕ → Stmts
init_stmts zero = []
init_stmts (suc n) = none ∷ init_stmts n

-- `stmts_[i] = stmt`; `none` behind the end.
unfoldable pub set_stmt : ℕ → Option ℕ → Stmts → Option Stmts
set_stmt i stmt [] = none
set_stmt zero stmt (_ ∷ stmts) = some (stmt ∷ stmts)
set_stmt (suc i) stmt (e ∷ stmts) = set_stmt i stmt stmts >>= λ rest. some (e ∷ rest)

-- The statement of a code, where there is one; `none` behind the end.
unfoldable pub get_stmt : LoginStmt → Stmts → Option (Option ℕ)
get_stmt code stmts = get_elem? stmts (slot code)

abbrev pub insert_sql : String
insert_sql =
    "INSERT INTO  accounts (login, password_hash, password_salt, password_algo) VALUES (?, ?, ?, ?);"

abbrev pub select_sql : String
select_sql =
    "SELECT id, login, password_hash, password_salt, password_algo FROM accounts WHERE login = ? LIMIT 1;"

abbrev pub delete_sql : String
delete_sql = "DELETE FROM accounts WHERE login = ? LIMIT 1;"

-- The characters of `sha256`.
abbrev pub algo : List ℕ
algo = 115 ∷ 104 ∷ 97 ∷ 50 ∷ 53 ∷ 54 ∷ []

abbrev pub user_params : List ℕ → List ℕ → List ℕ → List Param
user_params login hash salt =
    string_param login ∷ blob_param hash ∷ blob_param salt ∷ string_param algo ∷ []

abbrev pub result_columns : List Column
result_columns =
    long_long_column 8
    ∷ string_column login_size
    ∷ blob_column password_hash_size
    ∷ blob_column password_salt_size
    ∷ string_column password_algo_size
    ∷ []

-- The destructor's loop.
unfoldable pub close_stmts : Stmts → Calls → Calls
close_stmts [] calls = calls
close_stmts (none ∷ stmts) calls = close_stmts stmts calls
close_stmts (some h ∷ stmts) calls = close_stmts stmts (stmt_close h ∷ calls)

-- The destructor: its body, then that of the connection.
unfoldable pub drop_database : LoginDataBase → Calls → Calls
drop_database db calls = drop_connection db.connection (close_stmts db.stmts calls)

-- `rc` and the buffers of a fetch.
unfoldable pub fetched_data : Fetched → Option LoginData
fetched_data (row res) = some res
fetched_data no_data = none
fetched_data truncated = none
fetched_data failed = none

module _ (my : MySql) where
  -- A null statement is stored, and given to `mysql_stmt_prepare` all the same.
  unfoldable pub prepare_stmt :
      Option ℕ → LoginStmt → String → Stmts × Calls → Option (Stmts × Calls)
  prepare_stmt db code sql (stmts, calls) = elim (my.new_stmt db calls) [
    | none ↦ none
    | some h ↦
        let calls = stmt_prepare h sql ∷ stmt_init db (some h) ∷ calls in
        if my.succeeds calls
        then (set_stmt (slot code) (some h) stmts >>= λ stmts. some (stmts, calls))
        else (set_stmt (slot code) none stmts >>= λ stmts. some (stmts, stmt_close h ∷ calls))
  ]

  unfoldable pub prepare_statements : Option ℕ → Stmts × Calls → Option (Stmts × Calls)
  prepare_statements db s = prepare_stmt db add_user insert_sql s >>= λ s.
      prepare_stmt db get_user_by_name select_sql s >>= λ s.
      prepare_stmt db remove_user_by_name delete_sql s

  -- The constructor, and what is left of the connection it is given.
  unfoldable pub new_database :
      SqlConnection → Calls → Option (LoginDataBase × SqlConnection × Calls)
  new_database connection calls =
      let (moved, left) = move_connection connection in
      prepare_statements moved.db (init_stmts num_stmts, calls) >>= λ (stmts, calls).
      some (record { connection = moved; stmts = stmts }, left, calls)

  -- Binds the parameters and executes: whether both calls succeeded. The second is not made when
  -- the first failed.
  unfoldable pub run_stmt : ℕ → List Param → Calls → Bool × Calls
  run_stmt h params calls =
      let bound = bind_param h params ∷ calls in
      let executed = execute h ∷ bound in
      if my.succeeds bound then (my.succeeds executed, executed) else (false, bound)

  unfoldable pub insert_login :
      (ssl : OpenSsl) (db : LoginDataBase) (login password : List ℕ) (calls : Calls)
      → Option (Bool × Calls)
  insert_login ssl db login password calls = get_stmt add_user db.stmts >>= λ stmt. elim stmt [
    | none ↦ if my.accepts_null then some (false, calls) else none
    | some h ↦ elim (generate_salt ssl salt_length) [
      | none ↦ some (false, calls)
      | some salt ↦ elim (hash ssl password salt) [
        | none ↦ some (false, calls)
        | some hash ↦ some (run_stmt h (user_params login hash salt) calls)
      ]
    ]
  ]

  -- The calls behind the execution, each made when those before succeeded.
  unfoldable pub read_result : ℕ → Calls → Option LoginData × Calls
  read_result h calls =
      let bound = bind_result h result_columns ∷ calls in
      let stored = store_result h ∷ bound in
      let read = fetch h ∷ stored in
      if my.succeeds bound
      then if my.succeeds stored then (fetched_data (my.fetched read), read) else (none, stored)
      else (none, bound)

  unfoldable pub get_login :
      (db : LoginDataBase) (login : List ℕ) (calls : Calls) → Option (Option LoginData × Calls)
  get_login db login calls = get_stmt get_user_by_name db.stmts >>= λ stmt. elim stmt [
    | none ↦ some (none, calls)
    | some h ↦
        let (ok, calls) = run_stmt h (string_param login ∷ []) calls in
        if ok then some (read_result h calls) else some (none, calls)
  ]

  unfoldable pub remove_login :
      (db : LoginDataBase) (login : List ℕ) (calls : Calls) → Option (Bool × Calls)
  remove_login db login calls = get_stmt remove_user_by_name db.stmts >>= λ stmt. elim stmt [
    | none ↦ some (false, calls)
    | some h ↦ some (run_stmt h (string_param login ∷ []) calls)
  ]

-- A call of one of the operations.
pub data Request : Type 0 where
  insert_request : List ℕ → List ℕ → Request
  get_request remove_request : List ℕ → Request

module _ (my : MySql) (ssl : OpenSsl) (db : LoginDataBase) where
  unfoldable pub serve : Request → Calls → Option Calls
  serve (insert_request login password) calls =
      insert_login my ssl db login password calls >>= λ (ok, calls). some calls
  serve (get_request login) calls = get_login my db login calls >>= λ (res, calls). some calls
  serve (remove_request login) calls = remove_login my db login calls >>= λ (ok, calls). some calls

  unfoldable pub serve_all : List Request → Calls → Option Calls
  serve_all [] calls = some calls
  serve_all (request ∷ requests) calls = serve request calls >>= serve_all requests
