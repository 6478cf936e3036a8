-- ===== src/Tests/Accounts/Runs.antt =====
-- A database that is built, used and destroyed.
use endless_peak_server.Shared.{
  ℕ, ◌≡◌, refl, sym, ap, ◌∙◌, true, List, [], ◌∷◌, Option, none, some, length, replicate,
  length-replicate, arith,
}
use mathlib.Core.Option.{some-injective}
use endless_peak_server.Crypto.{OpenSsl, IsDocumented, success, hash, generate_salt, salt_of}
use endless_peak_server.Database.{
  Calls, LoginData, SqlConnection, init_connection, connect, finish_load, load, move_connection,
}
use endless_peak_server.Database.Login.{
  LoginDataBase, init_stmts, new_database, drop_database, insert_login, get_login, remove_login,
  get_stmt, prepare_statements, prepare_stmt, set_stmt, slot, run_stmt, serve_all, Request,
  insert_request, get_request, remove_request,
}
use endless_peak_server.Database.Handles.{opened, closed}
use endless_peak_server.Database.Totals.{serves_and_closes}
use endless_peak_server.Database.Connections.{db_opened, db_closed, drop_loaded, load_closed}
use endless_peak_server.Database.Table.{prepared, bound}
use endless_peak_server.Database.Texts.{new_database-IsPrepared}
use endless_peak_server.Database.Accounts.{IsPrepared}
use endless_peak_server.Database.Passwords.{Accepts, get_login-remove_login, long_login_lost}
use endless_peak_server.Database.Found.{login_found}
use endless_peak_server.Tests.Accounts.{
  my, accounts, my-IsTable, my-IsFresh, my-Answers, above, succeeds_of, accounts_of,
}

abbrev ssl : OpenSsl
ssl = record {
  pbkdf2 = λ password salt iterations n. some (replicate n (length password));
  rand_bytes = λ n. (success, replicate n 9);
}

ssl-IsDocumented : IsDocumented ssl
ssl-IsDocumented = record {
  filled = λ password salt iterations n bytes e.
      (ap length (some-injective _ _ (sym e)) ∙ length-replicate n (length password));
}

abbrev connection : SqlConnection
connection = record { db = some 0 }

abbrev db : LoginDataBase
db = record {
  connection = connection;
  stmts = none ∷ some 0 ∷ some 1 ∷ none ∷ some 2 ∷ replicate 250 none;
}

-- The calls of an operation, from those before.
abbrev calls_of : {A : Type 0} → Option (A × Calls) → Calls
calls_of none = []
calls_of (some (a, calls)) = calls

abbrev built : Calls
built = elim (new_database my connection []) [ none ↦ [] | some (d, left, calls) ↦ calls ]

built_lem : new_database my connection [] ≡ some (db, record { db = none }, built)
unfolding new_database prepare_statements prepare_stmt set_stmt slot init_stmts move_connection
    succeeds_of above
built_lem = refl

new_database-IsPrepared_example : IsPrepared db built
new_database-IsPrepared_example =
    new_database-IsPrepared my my-IsFresh connection (record { db = none }) db [] built built_lem

db-IsPrepared : IsPrepared db built
db-IsPrepared =
    new_database-IsPrepared my my-IsFresh connection (record { db = none }) db [] built built_lem

abbrev login : List ℕ
login = 97 ∷ 110 ∷ 110 ∷ []

abbrev password : List ℕ
password = 115 ∷ 101 ∷ []

abbrev long_login : List ℕ
long_login = replicate 65 97

-- The calls of an insertion.
abbrev inserted : List ℕ → Calls
inserted key = calls_of (insert_login my ssl db key password built)

abbrev removed : Calls
removed = calls_of (remove_login my db login built)

-- What a lookup returns, and the calls behind it.
abbrev looked_up : List ℕ → Calls → Option LoginData × Calls
looked_up key calls = elim (get_login my db key calls) [ none ↦ (none, []) | some x ↦ x ]

insert_lem : (key : List ℕ) → insert_login my ssl db key password built ≡ some (true, inserted key)
unfolding insert_login get_stmt slot generate_salt salt_of hash run_stmt succeeds_of accounts_of
    prepared bound new_database prepare_statements prepare_stmt set_stmt init_stmts above
    move_connection
insert_lem key = refl

login_found_example :
    (res : LoginData) × (later : Calls) × (get_login my db login (inserted login)
      ≡ some (some res, later))
    × Accepts ssl login password res
unfolding insert_login get_stmt slot generate_salt salt_of hash run_stmt succeeds_of accounts_of
    prepared bound new_database prepare_statements prepare_stmt set_stmt init_stmts above
    move_connection
login_found_example =
    login_found my ssl accounts my-IsTable db login password built (inserted login) 1
      ssl-IsDocumented refl (my-Answers 1 login (inserted login) refl) db-IsPrepared refl
      (omega arith) (insert_lem login)

remove_lem : remove_login my db login built ≡ some (true, removed)
unfolding remove_login get_stmt slot run_stmt succeeds_of accounts_of prepared bound new_database
    prepare_statements prepare_stmt set_stmt init_stmts above move_connection
remove_lem = refl

removed_lookup : get_login my db login removed ≡ some (looked_up login removed)
unfolding get_login get_stmt slot run_stmt succeeds_of accounts_of prepared bound new_database
    prepare_statements prepare_stmt set_stmt init_stmts above move_connection remove_login
removed_lookup = refl

long_lookup :
    get_login my db long_login (inserted long_login)
    ≡ some (looked_up long_login (inserted long_login))
unfolding get_login get_stmt slot run_stmt succeeds_of accounts_of prepared bound new_database
    prepare_statements prepare_stmt set_stmt init_stmts above move_connection insert_login
    generate_salt salt_of hash
long_lookup = refl

get_login-remove_login_example : (looked_up login removed).0 ≡ none
get_login-remove_login_example =
    get_login-remove_login my ssl accounts my-IsTable db login built removed
      (looked_up login removed).1 (looked_up login removed).0 db-IsPrepared remove_lem
      removed_lookup

long_login_lost_example : (looked_up long_login (inserted long_login)).0 ≡ none
long_login_lost_example =
    long_login_lost my ssl accounts my-IsTable db long_login password built (inserted long_login)
      (looked_up long_login (inserted long_login)).1 (looked_up long_login (inserted long_login)).0
      (omega arith) db-IsPrepared (insert_lem long_login) long_lookup

-- An account is made, read and removed.
abbrev requests : List Request
requests = insert_request login password ∷ get_request login ∷ remove_request login ∷ []

serves_and_closes_example :
    (served : Calls) × (serve_all my ssl db requests built ≡ some served)
    × (opened 1 (drop_database db served) ≡ closed 1 (drop_database db served))
unfolding opened closed get_stmt slot
serves_and_closes_example =
    serves_and_closes my ssl connection (record { db = none }) db requests 1 0 [] built
      (λ db calls. (above calls, refl)) refl built_lem refl

abbrev loaded : Option SqlConnection × Calls
loaded = elim (load my "localhost" "peak" "secret" "EndlessPeak" []) [
  | none ↦ (none, [])
  | some x ↦ x
]

load_lem : load my "localhost" "peak" "secret" "EndlessPeak" [] ≡ some loaded
unfolding load init_connection connect finish_load succeeds_of
load_lem = refl

load_closed_example : db_opened 0 (drop_loaded loaded) ≡ db_closed 0 (drop_loaded loaded)
unfolding db_opened db_closed
load_closed_example =
    load_closed my "localhost" "peak" "secret" "EndlessPeak" 0 [] loaded refl load_lem
