-- ===== src/Database/Texts.antt =====
-- The statements that the constructor of `LoginDataBase` leaves.
use Prim.Native.String.{String}
use endless_peak_server.Shared.{
  ℕ, zero, suc, ◌≡◌, ◌≢◌, refl, sym, ap, ◌∙◌, subst, inl, inr, ◌==◌, [], ◌∷◌, Option, none, some,
  arith, Bool-cases, some-ne-none, >>=-eq-some, get_elem?,
}
use mathlib.Core.Option.{some-injective}
use endless_peak_server.Database.{
  Calls, MySql, SqlConnection, stmt_prepare, stmt_init, stmt_close, move_connection,
}
use endless_peak_server.Database.Login.{
  LoginStmt, slot, Stmts, add_user, get_user_by_name, remove_user_by_name, LoginDataBase, get_stmt,
  set_stmt, init_stmts, num_stmts, prepare_stmt, prepare_statements, new_database, insert_sql,
  select_sql, delete_sql,
}
use endless_peak_server.Database.Handles.{prepare_stmt_cases, set_stmt_other}
use endless_peak_server.Database.Table.{prepared}
use endless_peak_server.Database.Accounts.{IsPrepared}

set_stmt_at :
    (i : ℕ) (k : Option ℕ) (stmts after : Stmts)
    → set_stmt i k stmts ≡ some after
    → get_elem? after i ≡ some k
unfolding set_stmt
set_stmt_at i k [] after e = absurd cc
set_stmt_at zero k (c ∷ stmts) after e = rw (sym (some-injective _ _ e)) refl
set_stmt_at (suc i) k (c ∷ stmts) after e =
    let (rest, stored, same) = >>=-eq-some (set_stmt i k stmts) _ e in
    rw (sym (some-injective _ _ same)) (set_stmt_at i k stmts rest stored)

own_text :
    (k : ℕ) (db : Option ℕ) (sql : String) (calls : Calls)
    → prepared k (stmt_prepare k sql ∷ stmt_init db (some k) ∷ calls) ≡ some sql
unfolding prepared
own_text k db sql calls = ground arith

-- `mysql_stmt_init` returns no statement that is in use.
pub record IsFresh (my : MySql) : Type 0 where
  pub unused :
      (db : Option ℕ) (calls : Calls) (h : ℕ)
      → my.new_stmt db calls ≡ some h
      → prepared h calls ≡ none

-- What a call of `PrepareSTMT` leaves of the statements and their texts.
record Prepares (code : LoginStmt) (sql : String) (stmts after : Stmts) (calls later : Calls)
    : Type 0 where
  stored : (h : ℕ) → get_elem? after (slot code) ≡ some (some h) → prepared h later ≡ some sql
  others : (h : ℕ) (s : String) → prepared h calls ≡ some s → prepared h later ≡ some s
  slots : (j : ℕ) → slot code ≢ j → get_elem? after j ≡ get_elem? stmts j

module _ (my : MySql) (fresh : IsFresh my) where
  kept_text :
      (db : Option ℕ) (h k : ℕ) (s sql : String) (calls : Calls)
      → my.new_stmt db calls ≡ some k
      → prepared h calls ≡ some s
      → (prepared h (stmt_prepare k sql ∷ stmt_init db (some k) ∷ calls) ≡ some s)
        × (prepared h (stmt_close k ∷ stmt_prepare k sql ∷ stmt_init db (some k) ∷ calls) ≡ some s)
  unfolding prepared
  kept_text db h k s sql calls got e = elim (Bool-cases (h == k)) [
    | inl equal ↦
        let same : h ≡ k = ground arith in
        absurd
          (some-ne-none s (sym e ∙ ap (λ x. prepared x calls) same ∙ fresh.unused db calls k got))
    | inr differ ↦ (rw differ e, rw differ e)
  ]

  prepare_stmt-Prepares :
      (db : Option ℕ) (code : LoginStmt) (sql : String) (stmts after : Stmts) (calls later : Calls)
      → prepare_stmt my db code sql (stmts, calls) ≡ some (after, later)
      → Prepares code sql stmts after calls later
  prepare_stmt-Prepares db code sql stmts after calls later r =
      let (k, got, cases) = prepare_stmt_cases my db code sql stmts after calls later r in
      elim cases [
        | inl (set, _, same) ↦ record {
          stored = λ h found.
              let own : k ≡ h = some-injective _ _ (
                some-injective _ _
                  (sym (set_stmt_at (slot code) (some k) stmts after set) ∙ found)) in
              subst (λ x. prepared x later ≡ some sql) own (rw same (own_text k db sql calls));
          others = λ h s e. rw same (kept_text db h k s sql calls got e).0;
          slots = λ j d. set_stmt_other (slot code) j (some k) stmts after d set;
        }
        | inr (set, same) ↦ record {
          stored = λ h found. absurd (
              some-ne-none h (
                sym (
                  some-injective _ _
                    (sym (set_stmt_at (slot code) none stmts after set) ∙ found))));
          others = λ h s e. rw same (kept_text db h k s sql calls got e).1;
          slots = λ j d. set_stmt_other (slot code) j none stmts after d set;
        }
      ]

  -- Each statement that the constructor stored is prepared with its text, when `mysql_stmt_init`
  -- returns no statement that is in use.
  pub new_database-IsPrepared :
      (connection left : SqlConnection) (db : LoginDataBase) (calls later : Calls)
      → new_database my connection calls ≡ some (db, left, later)
      → IsPrepared db later
  unfolding new_database prepare_statements get_stmt slot
  new_database-IsPrepared connection left db calls later r =
      let handle = (move_connection connection).0.db in
      let ((s3, c3), r, built) =
        >>=-eq-some (prepare_statements my handle (init_stmts num_stmts, calls)) _ r in
      let ((s1, c1), r1, r) =
        >>=-eq-some (prepare_stmt my handle add_user insert_sql (init_stmts num_stmts, calls)) _
          r in
      let ((s2, c2), r2, r3) =
        >>=-eq-some (prepare_stmt my handle get_user_by_name select_sql (s1, c1)) _ r in
      let p1 =
        prepare_stmt-Prepares handle add_user insert_sql (init_stmts num_stmts) s1 calls c1 r1 in
      let p2 = prepare_stmt-Prepares handle get_user_by_name select_sql s1 s2 c1 c2 r2 in
      let p3 = prepare_stmt-Prepares handle remove_user_by_name delete_sql s2 s3 c2 c3 r3 in
      subst (λ (x : LoginDataBase × SqlConnection × Calls). IsPrepared x.0 x.2)
        (some-injective _ _ built)
        (record {
          insert_text = λ h found. p3.others h insert_sql (
              p2.others h insert_sql (
                p1.stored h (
                  sym (p2.slots 1 (λ x. omega (arith, x)))
                  ∙ sym (p3.slots 1 (λ x. omega (arith, x)))
                  ∙ found)));
          select_text = λ h found.
              p3.others h select_sql
                (p2.stored h (sym (p3.slots 2 (λ x. omega (arith, x))) ∙ found));
          delete_text = p3.stored;
        })
