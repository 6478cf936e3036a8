-- ===== src/Database/Handles.antt =====
-- The handles that `LoginDataBase` opens and closes.
use Prim.Native.String.{String}
use endless_peak_server.Shared.{
  ℕ, zero, suc, ◌+◌, ◌<◌, ◌≡◌, ◌≢◌, ◌⊎◌, some-ne-none, refl, sym, ap, ◌∙◌, inl, inr, true,
  if◌then◌else◌, ◌==◌, [], ◌∷◌, Option, none, some, get_elem?, arith, >>=-eq-some, Option-cases,
  Bool-cases,
}
use mathlib.Core.Option.{some-injective}
use endless_peak_server.Database.{Call, Calls, stmt_init, stmt_prepare, stmt_close, MySql}
use endless_peak_server.Database.Login.{
  LoginStmt, slot, Stmts, init_stmts, set_stmt, close_stmts, prepare_stmt, prepare_statements,
  num_stmts, add_user, get_user_by_name, remove_user_by_name, insert_sql, select_sql, delete_sql,
}

-- 1 for two equal handles, and 0 for others.
unfoldable pub same : ℕ → ℕ → ℕ
same h k = if h == k then 1 else 0

unfoldable pub opens : ℕ → Call → ℕ
opens h (stmt_init db (some k)) = same h k
opens h _ = 0

unfoldable pub closes : ℕ → Call → ℕ
closes h (stmt_close k) = same h k
closes h _ = 0

-- How often a statement was opened, closed, and is stored.
unfoldable pub opened : ℕ → Calls → ℕ
opened h [] = 0
opened h (c ∷ calls) = opens h c + opened h calls

unfoldable pub closed : ℕ → Calls → ℕ
closed h [] = 0
closed h (c ∷ calls) = closes h c + closed h calls

unfoldable pub held : ℕ → Stmts → ℕ
held h [] = 0
held h (none ∷ stmts) = held h stmts
held h (some k ∷ stmts) = same h k + held h stmts

abbrev pub Balanced : ℕ → Stmts → Calls → Type 0
Balanced h stmts calls = opened h calls ≡ closed h calls + held h stmts

pub close_stmts_lem :
    (h : ℕ) (stmts : Stmts) (calls : Calls)
    → Balanced h stmts calls
    → Balanced h [] (close_stmts stmts calls)
unfolding close_stmts held opened closed opens closes
close_stmts_lem h [] calls e = e
close_stmts_lem h (none ∷ stmts) calls e = close_stmts_lem h stmts calls e
close_stmts_lem h (some k ∷ stmts) calls e =
    close_stmts_lem h stmts (stmt_close k ∷ calls) (omega (arith, e))

held-cons :
    (h : ℕ) (k : Option ℕ) (stmts : Stmts) → held h (k ∷ stmts) ≡ held h (k ∷ []) + held h stmts
unfolding held
held-cons h none stmts = omega arith
held-cons h (some k) stmts = omega arith

-- What a store into an empty slot does.
held-set_stmt :
    (h i : ℕ) (k : Option ℕ) (stmts after : Stmts)
    → get_elem? stmts i ≡ some none
    → set_stmt i k stmts ≡ some after
    → held h after ≡ held h (k ∷ []) + held h stmts
unfolding set_stmt held
held-set_stmt h i k [] after free e = absurd cc
held-set_stmt h zero k (c ∷ stmts) after free e =
    let gone : c ≡ none = some-injective _ _ free in
    rw (gone, sym (some-injective _ _ e)) (held-cons h k stmts)
held-set_stmt h (suc i) k (none ∷ stmts) after free e =
    let (rest, stored, same) = >>=-eq-some (set_stmt i k stmts) _ e in
    rw (sym (some-injective _ _ same)) (held-set_stmt h i k stmts rest free stored)
held-set_stmt h (suc i) k (some c ∷ stmts) after free e =
    let (rest, stored, same) = >>=-eq-some (set_stmt i k stmts) _ e in
    let ih = held-set_stmt h i k stmts rest free stored in
    rw (sym (some-injective _ _ same)) (omega (arith, ih))

pub set_stmt_other :
    (i j : ℕ) (k : Option ℕ) (stmts after : Stmts)
    → i ≢ j
    → set_stmt i k stmts ≡ some after
    → get_elem? after j ≡ get_elem? stmts j
unfolding set_stmt
set_stmt_other i j k [] after d e = absurd cc
set_stmt_other zero zero k (c ∷ stmts) after d e = absurd (d refl)
set_stmt_other zero (suc j) k (c ∷ stmts) after d e = rw (sym (some-injective _ _ e)) refl
set_stmt_other (suc i) zero k (c ∷ stmts) after d e =
    let (rest, stored, same) = >>=-eq-some (set_stmt i k stmts) _ e in
    rw (sym (some-injective _ _ same)) refl
set_stmt_other (suc i) (suc j) k (c ∷ stmts) after d e =
    let (rest, stored, same) = >>=-eq-some (set_stmt i k stmts) _ e in
    rw (sym (some-injective _ _ same)) (set_stmt_other i j k stmts rest (λ x. d (ap suc x)) stored)

init_stmts-held : (h n : ℕ) → held h (init_stmts n) ≡ 0
unfolding held init_stmts
init_stmts-held h zero = refl
init_stmts-held h (suc n) = init_stmts-held h n

pub init_stmts-free : (n i : ℕ) → i < n → get_elem? (init_stmts n) i ≡ some none
unfolding init_stmts
init_stmts-free zero i h = absurd (omega arith)
init_stmts-free (suc n) zero h = refl
init_stmts-free (suc n) (suc i) h = init_stmts-free n i (omega arith)

module _ (my : MySql) where
  -- What a call of `PrepareSTMT` did, when it returned.
  pub prepare_stmt_cases :
      (db : Option ℕ) (code : LoginStmt) (sql : String) (stmts after : Stmts) (calls later : Calls)
      → prepare_stmt my db code sql (stmts, calls) ≡ some (after, later)
      → (k : ℕ) × (my.new_stmt db calls ≡ some k)
        × (((set_stmt (slot code) (some k) stmts ≡ some after)
              × (my.succeeds (stmt_prepare k sql ∷ stmt_init db (some k) ∷ calls) ≡ true)
              × (later ≡ stmt_prepare k sql ∷ stmt_init db (some k) ∷ calls))
            ⊎ ((set_stmt (slot code) none stmts ≡ some after)
                × (later ≡ stmt_close k ∷ stmt_prepare k sql ∷ stmt_init db (some k) ∷ calls)))
  unfolding prepare_stmt
  prepare_stmt_cases db code sql stmts after calls later r =
      elim (Option-cases (my.new_stmt db calls)) [
        | inl null ↦ absurd (some-ne-none _ (sym (rw (prepare_stmt, null) at r)))
        | inr (k, got) ↦
            let r = rw (prepare_stmt, got) at r in
            let prepared = stmt_prepare k sql ∷ stmt_init db (some k) ∷ calls in
            (
              k,
              got,
              elim (Bool-cases (my.succeeds prepared)) [
                | inl ok ↦
                    let (stored, set, pair) =
                      >>=-eq-some (set_stmt (slot code) (some k) stmts) _ (rw ok at r) in
                    let both = some-injective _ _ pair in
                    inl (
                      set ∙ ap (λ (x : Stmts × Calls). some x.0) both,
                      ok,
                      sym (ap (λ (x : Stmts × Calls). x.1) both),
                    )
                | inr wrong ↦
                    let (stored, set, pair) =
                      >>=-eq-some (set_stmt (slot code) none stmts) _ (rw wrong at r) in
                    let both = some-injective _ _ pair in
                    inr (
                      set ∙ ap (λ (x : Stmts × Calls). some x.0) both,
                      sym (ap (λ (x : Stmts × Calls). x.1) both),
                    )
              ],
            )
      ]

  prepare_stmt_lem :
      (h : ℕ) (db : Option ℕ) (code : LoginStmt) (sql : String) (stmts after : Stmts)
      (calls later : Calls)
      → get_elem? stmts (slot code) ≡ some none
      → Balanced h stmts calls
      → prepare_stmt my db code sql (stmts, calls) ≡ some (after, later)
      → Balanced h after later × ((j : ℕ) → slot code ≢ j → get_elem? after j ≡ get_elem? stmts j)
  unfolding opened closed opens closes held
  prepare_stmt_lem h db code sql stmts after calls later free e r =
      let (k, _, cases) = prepare_stmt_cases db code sql stmts after calls later r in
      elim cases [
        | inl (set, _, same) ↦
            let holds = held-set_stmt h (slot code) (some k) stmts after free set in
            (
              rw same (omega (arith, e, holds)),
              λ j d. set_stmt_other (slot code) j (some k) stmts after d set,
            )
        | inr (set, same) ↦
            let holds = held-set_stmt h (slot code) none stmts after free set in
            (
              rw same (omega (arith, e, holds)),
              λ j d. set_stmt_other (slot code) j none stmts after d set,
            )
      ]

  pub prepare_statements_lem :
      (h : ℕ) (db : Option ℕ) (after : Stmts) (calls later : Calls)
      → opened h calls ≡ closed h calls
      → prepare_statements my db (init_stmts num_stmts, calls) ≡ some (after, later)
      → Balanced h after later
  unfolding prepare_statements slot
  prepare_statements_lem h db after calls later e r =
      let none_held = init_stmts-held h num_stmts in
      let free = init_stmts-free num_stmts in
      let ((s1, c1), r1, r) =
        >>=-eq-some (prepare_stmt my db add_user insert_sql (init_stmts num_stmts, calls)) _ r in
      let ((s2, c2), r2, r3) =
        >>=-eq-some (prepare_stmt my db get_user_by_name select_sql (s1, c1)) _ r in
      let (e1, kept1) =
        prepare_stmt_lem h db add_user insert_sql (init_stmts num_stmts) s1 calls c1
          (free 1 (omega arith)) (omega (arith, e, none_held)) r1 in
      let (e2, kept2) =
        prepare_stmt_lem h db get_user_by_name select_sql s1 s2 c1 c2
          (kept1 2 (λ x. omega (arith, x)) ∙ free 2 (omega arith)) e1 r2 in
      let still =
        kept2 4 (λ x. omega (arith, x)) ∙ kept1 4 (λ x. omega (arith, x)) ∙ free 4 (omega arith) in
      (prepare_stmt_lem h db remove_user_by_name delete_sql s2 after c2 later still e2 r3).0
