-- ===== src/Database/Passwords.antt =====
-- What `Get` returns after `Insert` and `Remove`.
use endless_peak_server.Shared.{
  ℕ, ◌<◌, ◌≡◌, ◌≢◌, refl, sym, ap, ◌∙◌, subst, inl, inr, Bool, true, List, [], ◌∷◌, Option, none,
  some, length, take, arith, Option-cases,
}
use endless_peak_server.Crypto.{OpenSsl, IsDocumented, verify_hash}
use endless_peak_server.Crypto.Passwords.{verify_hash-hash}
use endless_peak_server.Database.{
  Calls, MySql, string_param, LoginData, Fetched, row, no_data, truncated, failed, bind_param,
  execute,
}
use endless_peak_server.Database.Login.{
  LoginDataBase, insert_login, get_login, remove_login, user_params, login_size,
}
use endless_peak_server.Database.Outcomes.{insert_login_cases, remove_login_cases}
use endless_peak_server.Database.Table.{prepared, Account, Fits, Holds, IsAnswer, IsTable}
use endless_peak_server.Database.Accounts.{
  IsPrepared, insert_login-stores, get_login-IsAnswer, run_stmt_ran, run_stmt-prepared,
  bound-bind_param,
}

-- The row of a login is whole, and the password is accepted for it.
pub record Accepts (ssl : OpenSsl) (key password : List ℕ) (res : LoginData) : Type 0 where
  pub login : take res.login_length res.login ≡ key
  pub accepted :
      verify_hash ssl password
        (take res.hash_length res.password_hash)
        (take res.salt_length res.password_salt)
      ≡ some true

IsPrepared-kept :
    (db : LoginDataBase) (calls later : Calls)
    → ((h : ℕ) → prepared h later ≡ prepared h calls)
    → IsPrepared db calls
    → IsPrepared db later
IsPrepared-kept db calls later same p = record {
  insert_text = λ h found. same h ∙ p.insert_text h found;
  select_text = λ h found. same h ∙ p.select_text h found;
  delete_text = λ h found. same h ∙ p.delete_text h found;
}

-- An answer with a row, and the answers for an account that fits.
row_answer :
    (o : Option Account) (a : Account) (res : LoginData)
    → o ≡ some a
    → IsAnswer o (row res)
    → Fits a × Holds a res
unfolding IsAnswer
row_answer o a res e answer = subst (λ x. IsAnswer x (row res)) e answer

pub fitting_answer :
    (a : Account) (f : Fetched)
    → Fits a
    → f ≢ failed
    → IsAnswer (some a) f
    → (res : LoginData) × (f ≡ row res)
unfolding IsAnswer
fitting_answer a (row res) fits fine answer = (res, refl)
fitting_answer a no_data fits fine answer = absurd answer
fitting_answer a truncated fits fine answer = absurd (answer fits)
fitting_answer a failed fits fine answer = absurd (fine refl)

no_answer : (o : Option Account) (res : LoginData) → o ≡ none → IsAnswer o (row res) → ⊥
unfolding IsAnswer
no_answer o res e answer = subst (λ x. IsAnswer x (row res)) e answer

module _ (my : MySql) (ssl : OpenSsl) (accounts : Calls → List ℕ → Option Account)
    (table : IsTable my accounts) (db : LoginDataBase) where
  pub insert_login-IsPrepared :
      (login password : List ℕ) (calls later : Calls) (ok : Bool)
      → insert_login my ssl db login password calls ≡ some (ok, later)
      → IsPrepared db calls
      → IsPrepared db later
  insert_login-IsPrepared login password calls later ok e p =
      elim (insert_login_cases my ssl db login password calls later ok e) [
        | inl (_, unchanged) ↦ rw unchanged p
        | inr (k, salt, bytes, _, _, _, ran) ↦
            subst (λ (x : Bool × Calls). IsPrepared db x.1) ran
              (IsPrepared-kept db calls _
                (λ h. run_stmt-prepared my h k (user_params login bytes salt) calls) p)
      ]

  remove_login-IsPrepared :
      (login : List ℕ) (calls later : Calls) (ok : Bool)
      → remove_login my db login calls ≡ some (ok, later)
      → IsPrepared db calls
      → IsPrepared db later
  remove_login-IsPrepared login calls later ok e p =
      elim (remove_login_cases my ssl db login calls later ok e) [
        | inl (_, unchanged) ↦ rw unchanged p
        | inr (k, _, ran) ↦
            subst (λ (x : Bool × Calls). IsPrepared db x.1) ran
              (IsPrepared-kept db calls _
                (λ h. run_stmt-prepared my h k (string_param login ∷ []) calls) p)
      ]

  -- After an insertion that returned true, a row that `Get` returns for the login holds the login,
  -- and `VerifyHash` accepts the password for the hash and the salt in it, when OpenSSL and the
  -- table are as documented and the stored statements have the constructor's texts.
  pub get_login-insert_login :
      (login password : List ℕ) (calls mid later : Calls) (res : LoginData)
      → IsDocumented ssl
      → IsPrepared db calls
      → insert_login my ssl db login password calls ≡ some (true, mid)
      → get_login my db login mid ≡ some (some res, later)
      → Accepts ssl login password res
  get_login-insert_login login password calls mid later res doc p e1 e2 =
      let (id, salt, bytes, _, hashed, stored) =
        insert_login-stores my ssl accounts table db login password calls mid p e1 in
      let answer =
        get_login-IsAnswer my ssl accounts table db login mid later res
          (insert_login-IsPrepared login password calls mid true e1 p) e2 in
      let (fits, holds) = row_answer (accounts mid login) _ res stored answer in
      record {
        login = holds.login;
        accepted =
            rw (holds.hash, holds.salt) (verify_hash-hash ssl doc password salt bytes hashed);
      }

  -- After a removal that returned true, `Get` finds nothing for the login, when the table is as
  -- documented and the stored statements have the constructor's texts.
  pub get_login-remove_login :
      (login : List ℕ) (calls mid later : Calls) (res : Option LoginData)
      → IsPrepared db calls
      → remove_login my db login calls ≡ some (true, mid)
      → get_login my db login mid ≡ some (res, later)
      → res ≡ none
  unfolding prepared
  get_login-remove_login login calls mid later res p e1 e2 =
      let gone : accounts mid login ≡ none =
        elim (remove_login_cases my ssl db login calls mid true e1) [
          | inl (wrong, _) ↦ absurd (cc wrong)
          | inr (k, found, ran) ↦
              let params = string_param login ∷ [] in
              let (done, same) =
                run_stmt_ran my k params calls (ap (λ (x : Bool × Calls). x.0) ran) in
              let last : mid ≡ execute k ∷ bind_param k params ∷ calls =
                sym (ap (λ (x : Bool × Calls). x.1) ran) ∙ same in
              rw last (
                table.deleted k login (bind_param k params ∷ calls) (p.delete_text k found)
                  (bound-bind_param k params calls) done)
        ] in
      elim (Option-cases res) [
        | inl empty ↦ empty
        | inr (found_row, is) ↦ absurd (
            no_answer (accounts mid login) found_row gone (
              get_login-IsAnswer my ssl accounts table db login mid later found_row
                (remove_login-IsPrepared login calls mid true e1 p) (rw is at e2)))
      ]

  -- When an insertion of a login of more than 64 bytes returned true, `Get` finds nothing for it,
  -- when the table is as documented and the stored statements have the constructor's texts.
  pub long_login_lost :
      (login password : List ℕ) (calls mid later : Calls) (res : Option LoginData)
      → login_size < length login
      → IsPrepared db calls
      → insert_login my ssl db login password calls ≡ some (true, mid)
      → get_login my db login mid ≡ some (res, later)
      → res ≡ none
  long_login_lost login password calls mid later res long p e1 e2 = elim (Option-cases res) [
    | inl empty ↦ empty
    | inr (found_row, is) ↦
        let (id, salt, bytes, _, _, stored) =
          insert_login-stores my ssl accounts table db login password calls mid p e1 in
        let answer =
          get_login-IsAnswer my ssl accounts table db login mid later found_row
            (insert_login-IsPrepared login password calls mid true e1 p) (rw is at e2) in
        let (fits, _) = row_answer (accounts mid login) _ found_row stored answer in
        absurd (omega (arith, fits.login, long))
  ]
