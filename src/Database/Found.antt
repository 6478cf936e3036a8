-- ===== src/Database/Found.antt =====
-- `Insert` and what `Get` finds of it.
use endless_peak_server.Shared.{
  ℕ, ◌≤◌, ◌≡◌, ◌≢◌, refl, sym, ap, ◌∙◌, subst, true, List, [], ◌∷◌, Option, some, length, arith,
}
use mathlib.Core.Option.{some-injective}
use endless_peak_server.Crypto.{
  OpenSsl, IsDocumented, generate_salt, salt_of, hash, salt_length, hash_length, num_iterations,
  RandResult, success, failure, unsupported,
}
use endless_peak_server.Database.{
  Calls, MySql, string_param, LoginData, Fetched, failed, bind_param, execute, bind_result,
  store_result, fetch,
}
use endless_peak_server.Database.Login.{
  get_user_by_name, LoginDataBase, get_stmt, run_stmt, fetched_data, read_result, insert_login,
  get_login, result_columns, login_size, algo,
}
use endless_peak_server.Database.Table.{prepared, Account, Fits, IsAnswer, IsTable}
use endless_peak_server.Database.Accounts.{IsPrepared, insert_login-stores, bound-bind_param}
use endless_peak_server.Database.Passwords.{
  Accepts, get_login-insert_login, fitting_answer, insert_login-IsPrepared,
}

-- The calls that a `Get` of a login makes with its statement succeed, and its fetch reports no
-- error.
pub record Answers (my : MySql) (k : ℕ) (login : List ℕ) (calls : Calls) : Type 0 where
  pub bound : my.succeeds (bind_param k (string_param login ∷ []) ∷ calls) ≡ true
  pub executed : my.succeeds (execute k ∷ bind_param k (string_param login ∷ []) ∷ calls) ≡ true
  pub bound_result :
      my.succeeds
        (bind_result k result_columns ∷ execute k ∷ bind_param k (string_param login ∷ []) ∷ calls)
      ≡ true
  pub stored :
      my.succeeds (
        store_result k
        ∷ bind_result k result_columns
        ∷ execute k
        ∷ bind_param k (string_param login ∷ [])
        ∷ calls)
      ≡ true
  pub fetched :
      my.fetched (
        fetch k
        ∷ store_result k
        ∷ bind_result k result_columns
        ∷ execute k
        ∷ bind_param k (string_param login ∷ [])
        ∷ calls)
      ≢ failed

module _ (my : MySql) (db : LoginDataBase) (k : ℕ) (login : List ℕ) (calls : Calls)
    (up : Answers my k login calls) where
  ran_calls : Calls
  ran_calls = execute k ∷ bind_param k (string_param login ∷ []) ∷ calls

  get_login-reads :
      get_stmt get_user_by_name db.stmts ≡ some (some k)
      → get_login my db login calls
        ≡ some (
          fetched_data
              (my.fetched (fetch k ∷ store_result k ∷ bind_result k result_columns ∷ ran_calls)),
          fetch k ∷ store_result k ∷ bind_result k result_columns ∷ ran_calls,
        )
  unfolding get_login run_stmt read_result ran_calls
  get_login-reads found = rw (found, up.bound, up.executed, up.bound_result, up.stored) refl

generated_salt :
    (ssl : OpenSsl) (r : RandResult × List ℕ) (salt : List ℕ)
    → salt_of ssl r ≡ some salt
    → salt ≡ r.1
unfolding salt_of
generated_salt ssl (success, bytes) salt e = sym (some-injective _ _ e)
generated_salt ssl (failure, bytes) salt e = sym (some-injective _ _ e)
generated_salt ssl (unsupported, bytes) salt e = absurd cc

module _ (my : MySql) (ssl : OpenSsl) (accounts : Calls → List ℕ → Option Account)
    (table : IsTable my accounts) (db : LoginDataBase) where
  -- An account that was inserted fits the buffers, when its login does.
  inserted-Fits :
      (login password salt bytes : List ℕ) (id : ℕ)
      → IsDocumented ssl
      → length login ≤ login_size
      → length (ssl.rand_bytes salt_length).1 ≡ salt_length
      → generate_salt ssl salt_length ≡ some salt
      → hash ssl password salt ≡ some bytes
      → Fits (record { id = id; login = login; hash = bytes; salt = salt; algo = algo })
  unfolding generate_salt
  inserted-Fits login password salt bytes id doc short filled salted hashed =
      let size =
        doc.filled password salt num_iterations hash_length bytes (unfold hash in hashed) in
      let same = generated_salt ssl (ssl.rand_bytes salt_length) salt salted in
      record {
        login = short;
        hash = omega (arith, size);
        salt = rw same (omega (arith, filled));
        algo = omega arith;
      }

  -- After an insertion that returned true, with a login of at most 64 bytes and OpenSSL and the table
  -- as documented, `Get` returns a row that holds the login and for which `VerifyHash` accepts the
  -- password, when its statement is stored, the stored statements have the constructor's texts, and
  -- each of the calls that this `Get` makes succeeds.
  pub login_found :
      (login password : List ℕ) (calls mid : Calls) (k : ℕ)
      → IsDocumented ssl
      → length (ssl.rand_bytes salt_length).1 ≡ salt_length
      → Answers my k login mid
      → IsPrepared db calls
      → get_stmt get_user_by_name db.stmts ≡ some (some k)
      → length login ≤ login_size
      → insert_login my ssl db login password calls ≡ some (true, mid)
      → (res : LoginData) × (later : Calls) × (get_login my db login mid ≡ some (some res, later))
        × Accepts ssl login password res
  unfolding prepared fetched_data
  login_found login password calls mid k doc filled up p found short e =
      let (id, salt, bytes, salted, hashed, stored) =
        insert_login-stores my ssl accounts table db login password calls mid p e in
      let fits = inserted-Fits login password salt bytes id doc short filled salted hashed in
      let texts =
        insert_login-IsPrepared my ssl accounts table db login password calls mid true e p in
      let params = string_param login ∷ [] in
      let answer =
        table.selected k login (bind_param k params ∷ mid) (texts.select_text k found)
          (bound-bind_param k params mid) up.executed up.bound_result up.stored in
      let last =
        fetch k
        ∷ store_result k
        ∷ bind_result k result_columns
        ∷ execute k
        ∷ bind_param k params
        ∷ mid in
      let (res, got) = fitting_answer _ (my.fetched last) fits up.fetched (
        subst (λ a. IsAnswer a (my.fetched last)) (table.bound_only k params login mid ∙ stored)
          answer) in
      let all : get_login my db login mid ≡ some (some res, last) =
        unfold ran_calls in
        get_login-reads my db k login mid up found
        ∙ ap (λ (f : Fetched). some (fetched_data f, last)) got in
      (
        res,
        last,
        all,
        get_login-insert_login my ssl accounts table db login password calls mid _ res doc p e all,
      )
