-- ===== src/Database/Lifetime.antt =====
-- The statements of `LoginDataBase` from its constructor to its destructor.
use endless_peak_server.Shared.{
  ℕ, ◌≡◌, refl, ◌∙◌, subst, inl, inr, Bool, List, [], ◌∷◌, Option, some, arith, >>=-eq-some,
  Option-cases,
}
use mathlib.Core.Option.{some-injective}
use endless_peak_server.Crypto.{OpenSsl}
use endless_peak_server.Database.{
  Calls, MySql, SqlConnection, Param, LoginData, drop_connection, move_connection, string_param,
}
use endless_peak_server.Database.Login.{
  LoginDataBase, init_stmts, num_stmts, drop_database, close_stmts, prepare_statements,
  new_database, run_stmt, read_result, insert_login, get_login, remove_login, Request,
  insert_request, get_request, remove_request, serve, serve_all, user_params,
}
use endless_peak_server.Database.Outcomes.{insert_login_cases, get_login_cases, remove_login_cases}
use endless_peak_server.Database.Handles.{
  opened, closed, held, opens, closes, Balanced, prepare_statements_lem, close_stmts_lem,
}

-- No statement was opened or closed between two points.
abbrev Kept : ℕ → Calls → Calls → Type 0
Kept h calls later = (opened h later ≡ opened h calls) × (closed h later ≡ closed h calls)

drop_connection-Kept :
    (h : ℕ) (c : SqlConnection) (calls : Calls) → Kept h calls (drop_connection c calls)
unfolding drop_connection opened closed opens closes
drop_connection-Kept h c calls = elim (Option-cases c.db) [
  | inl null ↦ rw null (refl, refl)
  | inr (k, e) ↦ rw e (omega arith, omega arith)
]

module _ (my : MySql) where
  run_stmt-Kept :
      (h k : ℕ) (params : List Param) (calls : Calls) → Kept h calls (run_stmt my k params calls).1
  unfolding run_stmt opened closed opens closes
  run_stmt-Kept h k params calls = ground arith

  read_result-Kept : (h k : ℕ) (calls : Calls) → Kept h calls (read_result my k calls).1
  unfolding read_result opened closed opens closes
  read_result-Kept h k calls = ground arith

  serve-Kept :
      (ssl : OpenSsl) (db : LoginDataBase) (request : Request) (h : ℕ) (calls later : Calls)
      → serve my ssl db request calls ≡ some later
      → Kept h calls later
  unfolding serve
  serve-Kept ssl db (insert_request login password) h calls later e =
      let ((ok, after), r, same) = >>=-eq-some (insert_login my ssl db login password calls) _ e in
      subst (Kept h calls) (some-injective _ _ same)
        (elim (insert_login_cases my ssl db login password calls after ok r) [
          | inl (_, unchanged) ↦ rw unchanged (refl, refl)
          | inr (k, salt, bytes, _, _, _, ran) ↦
              subst (λ (x : Bool × Calls). Kept h calls x.1) ran
                (run_stmt-Kept h k (user_params login bytes salt) calls)
        ])
  serve-Kept ssl db (get_request login) h calls later e =
      let ((res, after), r, same) = >>=-eq-some (get_login my db login calls) _ e in
      subst (Kept h calls) (some-injective _ _ same)
        (elim (get_login_cases my ssl db login calls after res r) [
          | inl (_, unchanged) ↦ rw unchanged (refl, refl)
          | inr (k, _, inl (_, _, ran)) ↦ rw ran (run_stmt-Kept h k (string_param login ∷ []) calls)
          | inr (k, _, inr (_, done)) ↦
              let ran = (run_stmt my k (string_param login ∷ []) calls).1 in
              let (o1, c1) = run_stmt-Kept h k (string_param login ∷ []) calls in
              let (o2, c2) =
                subst (λ (x : Option LoginData × Calls). Kept h ran x.1) done
                  (read_result-Kept h k ran) in
              (o2 ∙ o1, c2 ∙ c1)
        ])
  serve-Kept ssl db (remove_request login) h calls later e =
      let ((ok, after), r, same) = >>=-eq-some (remove_login my db login calls) _ e in
      subst (Kept h calls) (some-injective _ _ same)
        (elim (remove_login_cases my ssl db login calls after ok r) [
          | inl (_, unchanged) ↦ rw unchanged (refl, refl)
          | inr (k, _, ran) ↦
              subst (λ (x : Bool × Calls). Kept h calls x.1) ran
                (run_stmt-Kept h k (string_param login ∷ []) calls)
        ])

  serve_all-Kept :
      (ssl : OpenSsl) (db : LoginDataBase) (requests : List Request) (h : ℕ) (calls later : Calls)
      → serve_all my ssl db requests calls ≡ some later
      → Kept h calls later
  unfolding serve_all
  serve_all-Kept ssl db [] h calls later e = rw (some-injective _ _ e) (refl, refl)
  serve_all-Kept ssl db (request ∷ requests) h calls later e =
      let (mid, first, rest) = >>=-eq-some (serve my ssl db request calls) _ e in
      let (o1, c1) = serve-Kept ssl db request h calls mid first in
      let (o2, c2) = serve_all-Kept ssl db requests h mid later rest in (o2 ∙ o1, c2 ∙ c1)

  new_database-Balanced :
      (connection left : SqlConnection) (db : LoginDataBase) (h : ℕ) (calls later : Calls)
      → opened h calls ≡ closed h calls
      → new_database my connection calls ≡ some (db, left, later)
      → Balanced h db.stmts later
  unfolding new_database
  new_database-Balanced connection left db h calls later e r =
      let (moved, _) = move_connection connection in
      let ((stmts, after), prepared, same) =
        >>=-eq-some
          (prepare_statements my (move_connection connection).0.db (init_stmts num_stmts, calls)) _
          r in
      let balanced =
        prepare_statements_lem my h (move_connection connection).0.db stmts calls after e
          prepared in
      subst (λ (x : LoginDataBase × SqlConnection × Calls). Balanced h x.0.stmts x.2)
        (some-injective _ _ same) balanced

  -- From the constructor of `LoginDataBase` over any sequence of `Insert`, `Get` and `Remove` to its
  -- destructor, when the constructor and the requests return, each statement is closed as often as
  -- it was opened, also where preparing one failed.
  pub statements_closed :
      (ssl : OpenSsl) (connection left : SqlConnection) (db : LoginDataBase)
      (requests : List Request) (h : ℕ) (calls built served : Calls)
      → opened h calls ≡ closed h calls
      → new_database my connection calls ≡ some (db, left, built)
      → serve_all my ssl db requests built ≡ some served
      → opened h (drop_database db served) ≡ closed h (drop_database db served)
  unfolding drop_database held
  statements_closed ssl connection left db requests h calls built served e made ran =
      let balanced = new_database-Balanced connection left db h calls built e made in
      let (o1, c1) = serve_all-Kept ssl db requests h built served ran in
      let all = close_stmts_lem h db.stmts served (omega (arith, balanced, o1, c1)) in
      let (o2, c2) = drop_connection-Kept h db.connection (close_stmts db.stmts served) in
      omega (arith, all, o2, c2)
