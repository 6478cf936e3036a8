-- ===== src/Database/Totals.antt =====
-- `LoginDataBase` when statements can be allocated.
use Prim.Native.String.{String}
use mathlib.Core.Option.{some-injective}
use endless_peak_server.Shared.{
  ℕ, zero, suc, ◌<◌, ◌≡◌, refl, ap, sym, ◌∙◌, inl, inr, Bool, false, List, [], ◌∷◌, Option, none,
  some, length, arith, Option-cases, Bool-cases,
}
use endless_peak_server.Collision.Bounds.{get_elem?-some}
use endless_peak_server.Crypto.{OpenSsl, generate_salt, hash, salt_length}
use endless_peak_server.Database.{
  Calls, MySql, SqlConnection, LoginData, stmt_init, stmt_prepare, stmt_close, move_connection,
  string_param,
}
use endless_peak_server.Database.Login.{
  LoginStmt, slot, add_user, get_user_by_name, get_user_by_id, remove_user_by_name, Stmts,
  LoginDataBase, init_stmts, num_stmts, set_stmt, get_stmt, prepare_stmt, prepare_statements,
  new_database, drop_database, run_stmt, read_result, insert_login, get_login, remove_login,
  insert_sql, select_sql, delete_sql, user_params, Request, insert_request, get_request,
  remove_request, serve, serve_all,
}
use endless_peak_server.Database.Handles.{opened, closed}
use endless_peak_server.Database.Lifetime.{statements_closed}

slot-lt : (code : LoginStmt) → slot code < num_stmts
unfolding slot
slot-lt add_user = omega arith
slot-lt get_user_by_name = omega arith
slot-lt get_user_by_id = omega arith
slot-lt remove_user_by_name = omega arith

init_stmts-length : (n : ℕ) → length (init_stmts n) ≡ n
unfolding init_stmts
init_stmts-length zero = refl
init_stmts-length (suc n) = ap suc (init_stmts-length n)

set_stmt_total :
    (i : ℕ) (k : Option ℕ) (stmts : Stmts)
    → i < length stmts
    → (after : Stmts) × (set_stmt i k stmts ≡ some after) × (length after ≡ length stmts)
unfolding set_stmt
set_stmt_total i k [] h = absurd (omega arith)
set_stmt_total zero k (c ∷ stmts) h = (k ∷ stmts, refl, refl)
set_stmt_total (suc i) k (c ∷ stmts) h =
    let (after, e, same) = set_stmt_total i k stmts (omega arith) in
    (c ∷ after, rw e refl, ap suc same)

-- `mysql_stmt_init` returns no null pointer.
abbrev pub Allocates : MySql → Type 0
Allocates my = (db : Option ℕ) (calls : Calls) → (h : ℕ) × (my.new_stmt db calls ≡ some h)

-- A step that returns early where a value is missing.
abbrev chain :
    Option (List ℕ) → Bool × Calls → (List ℕ → Option (Bool × Calls)) → Option (Bool × Calls)
chain m early go = elim m [ none ↦ some early | some x ↦ go x ]

chain_total :
    (m : Option (List ℕ)) (early : Bool × Calls) (go : List ℕ → Option (Bool × Calls))
    → ((x : List ℕ) → (r : Bool × Calls) × (go x ≡ some r))
    → (r : Bool × Calls) × (chain m early go ≡ some r)
chain_total none early go total = (early, refl)
chain_total (some x) early go total = total x

module _ (my : MySql) where
  prepare_stmt_total :
      (db : Option ℕ) (code : LoginStmt) (sql : String) (stmts : Stmts) (calls : Calls)
      → Allocates my
      → length stmts ≡ num_stmts
      → (after : Stmts) × (later : Calls) × (prepare_stmt my db code sql (stmts, calls)
          ≡ some (after, later))
        × (length after ≡ num_stmts)
  unfolding prepare_stmt
  prepare_stmt_total db code sql stmts calls alloc n =
      let (h, got) = alloc db calls in
      let fits : slot code < length stmts = omega (arith, n, slot-lt code) in
      let prepared = stmt_prepare h sql ∷ stmt_init db (some h) ∷ calls in
      elim (Bool-cases (my.succeeds prepared)) [
        | inl fine ↦
            let (after, e, same) = set_stmt_total (slot code) (some h) stmts fits in
            (after, prepared, rw (prepare_stmt, got, fine, e) refl, same ∙ n)
        | inr wrong ↦
            let (after, e, same) = set_stmt_total (slot code) none stmts fits in
            (after, stmt_close h ∷ prepared, rw (prepare_stmt, got, wrong, e) refl, same ∙ n)
      ]

  new_database_total :
      (connection : SqlConnection) (calls : Calls)
      → Allocates my
      → (db : LoginDataBase) × (left : SqlConnection) × (later : Calls) × (new_database my
            connection calls
          ≡ some (db, left, later))
        × (length db.stmts ≡ num_stmts)
  unfolding new_database prepare_statements
  new_database_total connection calls alloc =
      let handle = (move_connection connection).0.db in
      let (s1, c1, e1, n1) =
        prepare_stmt_total handle add_user insert_sql (init_stmts num_stmts) calls alloc
          (init_stmts-length num_stmts) in
      let (s2, c2, e2, n2) = prepare_stmt_total handle get_user_by_name select_sql s1 c1 alloc n1 in
      let (s3, c3, e3, n3) =
        prepare_stmt_total handle remove_user_by_name delete_sql s2 c2 alloc n2 in
      (
        record { connection = (move_connection connection).0; stmts = s3 },
        (move_connection connection).1,
        c3,
        rw (e1, e2, e3) refl,
        n3,
      )

  get_stmt_total :
      (code : LoginStmt) (stmts : Stmts)
      → length stmts ≡ num_stmts
      → (k : Option ℕ) × (get_stmt code stmts ≡ some k)
  unfolding get_stmt
  get_stmt_total code stmts n = get_elem?-some stmts (slot code) (omega (arith, n, slot-lt code))

  module _ (ssl : OpenSsl) (db : LoginDataBase) where
    insert_login_total :
        (login password : List ℕ) (calls : Calls) (k : ℕ)
        → get_stmt add_user db.stmts ≡ some (some k)
        → (r : Bool × Calls) × (insert_login my ssl db login password calls ≡ some r)
    unfolding insert_login
    insert_login_total login password calls k found =
        let store : List ℕ → List ℕ → Option (Bool × Calls) =
          λ salt bytes. some (run_stmt my k (user_params login bytes salt) calls) in
        let (r, e) =
          chain_total (generate_salt ssl salt_length) (false, calls)
            (λ salt. chain (hash ssl password salt) (false, calls) (store salt))
            (λ salt.
              chain_total (hash ssl password salt) (false, calls) (store salt)
                (λ bytes. (run_stmt my k (user_params login bytes salt) calls, refl))) in
        (r, rw found e)

    get_login_total :
        (login : List ℕ) (calls : Calls)
        → length db.stmts ≡ num_stmts
        → (r : Option LoginData × Calls) × (get_login my db login calls ≡ some r)
    unfolding get_login
    get_login_total login calls n =
        let (k, found) = get_stmt_total get_user_by_name db.stmts n in
        elim (Option-cases k) [
          | inl null ↦ ((none, calls), rw (get_login, found ∙ ap some null) refl)
          | inr (h, is) ↦
              let (ok, ran) = run_stmt my h (string_param login ∷ []) calls in
              elim (Bool-cases (run_stmt my h (string_param login ∷ []) calls).0) [
                | inl fine ↦ (read_result my h ran, rw (get_login, found ∙ ap some is, fine) refl)
                | inr wrong ↦ ((none, ran), rw (get_login, found ∙ ap some is, wrong) refl)
              ]
        ]

    remove_login_total :
        (login : List ℕ) (calls : Calls)
        → length db.stmts ≡ num_stmts
        → (r : Bool × Calls) × (remove_login my db login calls ≡ some r)
    unfolding remove_login
    remove_login_total login calls n =
        let (k, found) = get_stmt_total remove_user_by_name db.stmts n in
        elim (Option-cases k) [
          | inl null ↦ ((false, calls), rw (remove_login, found ∙ ap some null) refl)
          | inr (h, is) ↦ (
            run_stmt my h (string_param login ∷ []) calls,
            rw (remove_login, found ∙ ap some is) refl,
          )
        ]

    serve_total :
        (request : Request) (calls : Calls) (k : ℕ)
        → get_stmt add_user db.stmts ≡ some (some k)
        → length db.stmts ≡ num_stmts
        → (later : Calls) × (serve my ssl db request calls ≡ some later)
    unfolding serve
    serve_total (insert_request login password) calls k found n =
        let (r, e) = insert_login_total login password calls k found in (r.1, rw e refl)
    serve_total (get_request login) calls k found n =
        let (r, e) = get_login_total login calls n in (r.1, rw e refl)
    serve_total (remove_request login) calls k found n =
        let (r, e) = remove_login_total login calls n in (r.1, rw e refl)

    serve_all_total :
        (requests : List Request) (calls : Calls) (k : ℕ)
        → get_stmt add_user db.stmts ≡ some (some k)
        → length db.stmts ≡ num_stmts
        → (later : Calls) × (serve_all my ssl db requests calls ≡ some later)
    unfolding serve_all
    serve_all_total [] calls k found n = (calls, refl)
    serve_all_total (request ∷ requests) calls k found n =
        let (mid, e) = serve_total request calls k found n in
        let (later, e') = serve_all_total requests mid k found n in (later, rw e e')

  built-length :
      (connection left : SqlConnection) (db : LoginDataBase) (calls built : Calls)
      → Allocates my
      → new_database my connection calls ≡ some (db, left, built)
      → length db.stmts ≡ num_stmts
  built-length connection left db calls built alloc e =
      let (db', left', built', made, n) = new_database_total connection calls alloc in
      let same : (db', left', built') ≡ (db, left, built) = some-injective _ _ (sym made ∙ e) in
      ap (λ (x : LoginDataBase × SqlConnection × Calls). length x.0.stmts) (sym same) ∙ n

  -- When `mysql_stmt_init` returns no null pointer and `LoginDataBase` was built with the statement of
  -- `Insert` prepared, then it serves any sequence of `Insert`, `Get` and `Remove`, whatever the
  -- calls of the library answer, and from its constructor to the end of its destructor closes each
  -- statement as often as it opened it, if that was so before.
  pub serves_and_closes :
      (ssl : OpenSsl) (connection left : SqlConnection) (db : LoginDataBase)
      (requests : List Request) (h k : ℕ) (calls built : Calls)
      → Allocates my
      → opened h calls ≡ closed h calls
      → new_database my connection calls ≡ some (db, left, built)
      → get_stmt add_user db.stmts ≡ some (some k)
      → (served : Calls) × (serve_all my ssl db requests built ≡ some served)
        × (opened h (drop_database db served) ≡ closed h (drop_database db served))
  serves_and_closes ssl connection left db requests h k calls built alloc even made found =
      let n = built-length connection left db calls built alloc made in
      let (served, ran) = serve_all_total ssl db requests built k found n in
      (
        served,
        ran,
        statements_closed my ssl connection left db requests h calls built served even made ran,
      )
