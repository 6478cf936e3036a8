-- ===== src/Database/Outcomes.antt =====
-- How the operations of `LoginDataBase` can return.
use endless_peak_server.Shared.{
  ℕ, ◌≡◌, ◌⊎◌, sym, ap, ◌∙◌, inl, inr, Bool, true, false, List, [], ◌∷◌, Option, none, some,
  >>=-eq-some, Option-cases, Bool-cases, some-ne-none,
}
use mathlib.Core.Option.{some-injective}
use endless_peak_server.Crypto.{OpenSsl, generate_salt, hash, salt_length}
use endless_peak_server.Database.{Calls, MySql, LoginData, string_param}
use endless_peak_server.Database.Login.{
  LoginDataBase, run_stmt, read_result, insert_login, get_login, remove_login, get_stmt, add_user,
  get_user_by_name, remove_user_by_name, user_params,
}

-- What an early return means for the result and the calls.
returned :
    {A B : Type 0} {a c : A} {b d : B}
    → ◌≡◌ {A = Option (A × B)} (some (a, b)) (some (c, d))
    → (c ≡ a) × (d ≡ b)
returned {A = A} {B = B} e =
    let both : ◌≡◌ {A = A × B} _ _ = some-injective _ _ e in
    (sym (ap (λ (x : A × B). x.0) both), sym (ap (λ (x : A × B). x.1) both))

module _ (my : MySql) (ssl : OpenSsl) (db : LoginDataBase) where
  pub insert_login_cases :
      (login password : List ℕ) (calls later : Calls) (ok : Bool)
      → insert_login my ssl db login password calls ≡ some (ok, later)
      → ((ok ≡ false) × (later ≡ calls))
        ⊎ ((k : ℕ) × (salt bytes : List ℕ) × (get_stmt add_user db.stmts ≡ some (some k))
            × (generate_salt ssl salt_length ≡ some salt)
            × (hash ssl password salt ≡ some bytes)
            × (run_stmt my k (user_params login bytes salt) calls ≡ (ok, later)))
  unfolding insert_login
  insert_login_cases login password calls later ok e =
      let (stmt, got, e) = >>=-eq-some (get_stmt add_user db.stmts) _ e in
      elim (Option-cases stmt) [
        | inl null ↦ elim (Bool-cases my.accepts_null) [
          | inl accepts ↦ inl (returned (rw (null, accepts) at e))
          | inr refuses ↦ absurd (some-ne-none _ (sym (rw (null, refuses) at e)))
        ]
        | inr (k, is) ↦ elim (Option-cases (generate_salt ssl salt_length)) [
          | inl unsalted ↦ inl (returned (rw (is, unsalted) at e))
          | inr (salt, salted) ↦ elim (Option-cases (hash ssl password salt)) [
            | inl unhashed ↦ inl (returned (rw (is, salted, unhashed) at e))
            | inr (bytes, hashed) ↦ inr (
              k,
              salt,
              bytes,
              got ∙ ap some is,
              salted,
              hashed,
              some-injective _ _ (rw (is, salted, hashed) at e),
            )
          ]
        ]
      ]

  pub remove_login_cases :
      (login : List ℕ) (calls later : Calls) (ok : Bool)
      → remove_login my db login calls ≡ some (ok, later)
      → ((ok ≡ false) × (later ≡ calls))
        ⊎ ((k : ℕ) × (get_stmt remove_user_by_name db.stmts ≡ some (some k))
            × (run_stmt my k (string_param login ∷ []) calls ≡ (ok, later)))
  unfolding remove_login
  remove_login_cases login calls later ok e =
      let (stmt, got, e) = >>=-eq-some (get_stmt remove_user_by_name db.stmts) _ e in
      elim (Option-cases stmt) [
        | inl null ↦ inl (returned (rw null at e))
        | inr (k, is) ↦ inr (k, got ∙ ap some is, some-injective _ _ (rw is at e))
      ]

  pub get_login_cases :
      (login : List ℕ) (calls later : Calls) (res : Option LoginData)
      → get_login my db login calls ≡ some (res, later)
      → ((res ≡ none) × (later ≡ calls))
        ⊎ ((k : ℕ) × (get_stmt get_user_by_name db.stmts ≡ some (some k))
            × (let (ok, ran) = run_stmt my k (string_param login ∷ []) calls in
                ((ok ≡ false) × (res ≡ none) × (later ≡ ran))
                ⊎ ((ok ≡ true) × (read_result my k ran ≡ (res, later)))))
  unfolding get_login
  get_login_cases login calls later res e =
      let (stmt, got, e) = >>=-eq-some (get_stmt get_user_by_name db.stmts) _ e in
      elim (Option-cases stmt) [
        | inl null ↦ inl (returned (rw null at e))
        | inr (k, is) ↦
            let e = rw is at e in
            inr (
              k,
              got ∙ ap some is,
              elim (Bool-cases (run_stmt my k (string_param login ∷ []) calls).0) [
                | inl ran ↦ inr (ran, some-injective _ _ (rw ran at e))
                | inr broken ↦
                    (let (empty, unchanged) = returned (rw broken at e) in
                      inl (broken, empty, unchanged))
              ],
            )
      ]
