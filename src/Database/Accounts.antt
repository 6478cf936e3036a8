-- ===== src/Database/Accounts.antt =====
-- The accounts as `Insert`, `Get` and `Remove` keep them.
use endless_peak_server.Shared.{
  ℕ, ◌≡◌, refl, sym, ap, ◌∙◌, subst, inl, inr, Bool, true, List, [], ◌∷◌, Option, some, arith,
  Bool-cases, some-ne-none,
}
use mathlib.Core.Option.{some-injective}
use endless_peak_server.Crypto.{OpenSsl, generate_salt, hash, salt_length}
use endless_peak_server.Database.{
  Calls, MySql, Param, string_param, LoginData, Fetched, row, no_data, truncated, failed,
  bind_param, execute, bind_result, store_result, fetch,
}
use endless_peak_server.Database.Login.{
  add_user, get_user_by_name, remove_user_by_name, LoginDataBase, get_stmt, run_stmt, read_result,
  fetched_data, insert_login, get_login, user_params, insert_sql, select_sql, delete_sql,
  result_columns, algo,
}
use endless_peak_server.Database.Outcomes.{insert_login_cases, get_login_cases}
use endless_peak_server.Database.Table.{prepared, bound, Account, IsAnswer, IsTable}

-- The stored statements are prepared with the texts of the constructor.
pub record IsPrepared (db : LoginDataBase) (calls : Calls) : Type 0 where
  pub insert_text :
      (h : ℕ) → get_stmt add_user db.stmts ≡ some (some h) → prepared h calls ≡ some insert_sql
  pub select_text :
      (h : ℕ)
      → get_stmt get_user_by_name db.stmts ≡ some (some h)
      → prepared h calls ≡ some select_sql
  pub delete_text :
      (h : ℕ)
      → get_stmt remove_user_by_name db.stmts ≡ some (some h)
      → prepared h calls ≡ some delete_sql

pub bound-bind_param :
    (h : ℕ) (params : List Param) (calls : Calls) → bound h (bind_param h params ∷ calls) ≡ params
unfolding bound
bound-bind_param h params calls = ground arith

module _ (my : MySql) where
  pub run_stmt-prepared :
      (h k : ℕ) (params : List Param) (calls : Calls)
      → prepared h (run_stmt my k params calls).1 ≡ prepared h calls
  unfolding run_stmt prepared
  run_stmt-prepared h k params calls = ground arith

  -- A statement that ran was bound and executed.
  pub run_stmt_ran :
      (k : ℕ) (params : List Param) (calls : Calls)
      → (run_stmt my k params calls).0 ≡ true
      → (my.succeeds (execute k ∷ bind_param k params ∷ calls) ≡ true)
        × ((run_stmt my k params calls).1 ≡ execute k ∷ bind_param k params ∷ calls)
  unfolding run_stmt
  run_stmt_ran k params calls e = elim (Bool-cases (my.succeeds (bind_param k params ∷ calls))) [
    | inl fine ↦ (rw (run_stmt, fine) at e, rw fine refl)
    | inr wrong ↦ absurd (cc (rw (run_stmt, wrong) at e))
  ]

  fetched_data-row : (f : Fetched) (res : LoginData) → fetched_data f ≡ some res → f ≡ row res
  unfolding fetched_data
  fetched_data-row (row r) res e = ap row (some-injective _ _ e)
  fetched_data-row no_data res e = absurd cc
  fetched_data-row truncated res e = absurd cc
  fetched_data-row failed res e = absurd cc

  -- A result that was read was bound, stored and fetched.
  read_result-row :
      (k : ℕ) (calls : Calls) (res : LoginData)
      → (read_result my k calls).0 ≡ some res
      → (let bound = bind_result k result_columns ∷ calls in
          (my.succeeds bound ≡ true)
          × (my.succeeds (store_result k ∷ bound) ≡ true)
          × (my.fetched (fetch k ∷ store_result k ∷ bound) ≡ row res))
  unfolding read_result
  read_result-row k calls res e =
      elim (Bool-cases (my.succeeds (bind_result k result_columns ∷ calls))) [
        | inr wrong ↦ absurd (some-ne-none _ (sym (rw (read_result, wrong) at e)))
        | inl fine ↦
            let e = rw (read_result, fine) at e in
            elim (Bool-cases
              (my.succeeds (store_result k ∷ bind_result k result_columns ∷ calls))) [
                | inr wrong ↦ absurd (some-ne-none _ (sym (rw wrong at e)))
                | inl stored ↦ (fine, stored, fetched_data-row _ res (rw stored at e))
              ]
      ]

module _ (my : MySql) (ssl : OpenSsl) (accounts : Calls → List ℕ → Option Account)
    (table : IsTable my accounts) (db : LoginDataBase) where
  -- An insertion that succeeded stored the hash of the password for the salt.
  pub insert_login-stores :
      (login password : List ℕ) (calls later : Calls)
      → IsPrepared db calls
      → insert_login my ssl db login password calls ≡ some (true, later)
      → (id : ℕ) × (salt bytes : List ℕ) × (generate_salt ssl salt_length ≡ some salt)
        × (hash ssl password salt ≡ some bytes)
        × (accounts later login
            ≡ some (record { id = id; login = login; hash = bytes; salt = salt; algo = algo }))
  unfolding prepared
  insert_login-stores login password calls later p e =
      elim (insert_login_cases my ssl db login password calls later true e) [
        | inl (wrong, _) ↦ absurd (cc wrong)
        | inr (k, salt, bytes, found, salted, hashed, ran) ↦
            let params = user_params login bytes salt in
            let (done, same) =
              run_stmt_ran my k params calls (ap (λ (x : Bool × Calls). x.0) ran) in
            let (id, stored) =
              table.inserted k login bytes salt algo (bind_param k params ∷ calls)
                (p.insert_text k found) (bound-bind_param k params calls) done in
            let last : later ≡ execute k ∷ bind_param k params ∷ calls =
              sym (ap (λ (x : Bool × Calls). x.1) ran) ∙ same in
            (id, salt, bytes, salted, hashed, rw last stored)
      ]

  -- A row that is returned is that of the login.
  pub get_login-IsAnswer :
      (login : List ℕ) (calls later : Calls) (res : LoginData)
      → IsPrepared db calls
      → get_login my db login calls ≡ some (some res, later)
      → IsAnswer (accounts calls login) (row res)
  unfolding prepared
  get_login-IsAnswer login calls later res p e =
      elim (get_login_cases my ssl db login calls later (some res) e) [
        | inl (wrong, _) ↦ absurd (some-ne-none res wrong)
        | inr (k, found, inl (_, wrong, _)) ↦ absurd (some-ne-none res wrong)
        | inr (k, found, inr (ran, read)) ↦
            let params = string_param login ∷ [] in
            let (done, same) = run_stmt_ran my k params calls ran in
            let reads =
              subst (λ c. (read_result my k c).0 ≡ some res) same
                (ap (λ (x : Option LoginData × Calls). x.0) read) in
            let (at, stored, answer) =
              read_result-row my k (execute k ∷ bind_param k params ∷ calls) res reads in
            let all =
              table.selected k login (bind_param k params ∷ calls) (p.select_text k found)
                (bound-bind_param k params calls) done at stored in
            subst (λ a. IsAnswer a (row res)) (table.bound_only k params login calls)
              (subst (IsAnswer (accounts (bind_param k params ∷ calls) login)) answer all)
      ]
