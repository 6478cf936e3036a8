-- ===== src/Tests/Accounts.antt =====
-- A table that runs, and the theorems on the accounts at it.
use Prim.Native.String.{String, compare as compare_strings}
use Prim.Native.Nat.{Ordering, max}
use native.Mathlib.Decide.{dec_le}
use endless_peak_server.Shared.{
  ℕ, suc, ◌≤◌, ◌<◌, ◌≡◌, ◌≢◌, refl, sym, ap, ◌∙◌, Bool, true, false, ◌&&◌, leb, ◌==◌, if◌then◌else◌,
  List, [], ◌∷◌, Option, none, some, ◌>>=◌, length, take, take_all, replicate, length-replicate,
  arith, inl, inr, Bool-cases,
}
use mathlib.Core.Option.{some-injective}
use endless_peak_server.Crypto.{OpenSsl, IsDocumented, success, same_bytes}
use endless_peak_server.Database.{
  Call, Calls, Param, string_param, blob_param, init, real_connect, close, stmt_init, stmt_prepare,
  stmt_close, bind_param, execute, bind_result, store_result, fetch, LoginData, Fetched, row,
  no_data, truncated, failed, MySql, SqlConnection,
}
use endless_peak_server.Database.Login.{insert_sql, delete_sql, result_columns}
use endless_peak_server.Database.Table.{prepared, bound, Account, Fits, Holds, IsAnswer, IsTable}
use endless_peak_server.Database.Texts.{IsFresh}
use endless_peak_server.Database.Found.{Answers}
mod Runs

-- A handle above all that were prepared.
unfoldable pub above : Calls → ℕ
above [] = 0
above (stmt_prepare k sql ∷ calls) = max (suc k) (above calls)
above (_ ∷ calls) = above calls

pub data Kind : Type 0 where
  insertion deletion neither : Kind

abbrev is_text : String → String → Bool
is_text a b = elim (compare_strings a b) [
  | Ordering.lt ↦ false
  | Ordering.eq ↦ true
  | Ordering.gt ↦ false
]

abbrev kind_of : Option String → Kind
kind_of none = neither
kind_of (some sql) =
    if is_text sql insert_sql
    then insertion
    else if is_text sql delete_sql
    then deletion
    else neither

abbrev effect : Kind → List Param → List ℕ → Option Account → Option Account
effect insertion (string_param l ∷ blob_param h ∷ blob_param s ∷ string_param a ∷ []) key none =
    if same_bytes key l
    then some (record { id = 0; login = l; hash = h; salt = s; algo = a })
    else none
effect deletion (string_param l ∷ []) key old = if same_bytes key l then none else old
effect _ _ key old = old

unfoldable pub accounts_of : Calls → List ℕ → Option Account
accounts_of [] key = none
accounts_of (execute h ∷ calls) key =
    effect (kind_of (prepared h calls)) (bound h calls) key (accounts_of calls key)
accounts_of (_ ∷ calls) key = accounts_of calls key

unfoldable pub fits? : (a : Account) → Dec (Fits a)
fits? a = elim (dec_le (length a.login) 64) [
  | no long ↦ no (λ f. long f.login)
  | yes e1 ↦ elim (dec_le (length a.hash) 255) [
    | no long ↦ no (λ f. long f.hash)
    | yes e2 ↦ elim (dec_le (length a.salt) 64) [
      | no long ↦ no (λ f. long f.salt)
      | yes e3 ↦ elim (dec_le (length a.algo) 16) [
        | no long ↦ no (λ f. long f.algo)
        | yes e4 ↦ yes (record { login = e1; hash = e2; salt = e3; algo = e4 })
      ]
    ]
  ]
]

abbrev buffers : Account → LoginData
buffers a = record {
  id = a.id;
  login = a.login;
  password_hash = a.hash;
  password_salt = a.salt;
  password_algo = a.algo;
  login_length = length a.login;
  hash_length = length a.hash;
  salt_length = length a.salt;
  algo_length = length a.algo;
}

abbrev fitted : (a : Account) → Dec (Fits a) → Fetched
fitted a (yes fits) = row (buffers a)
fitted a (no long) = truncated

abbrev answer : Option Account → Fetched
answer none = no_data
answer (some a) = fitted a (fits? a)

abbrev reply : List Param → Calls → Fetched
reply (string_param key ∷ []) calls = answer (accounts_of calls key)
reply _ calls = no_data

abbrev executed : Call → Calls → Fetched
executed (execute k) calls = reply (bound k calls) calls
executed _ calls = no_data

unfoldable pub fetched_of : Calls → Fetched
fetched_of (a ∷ b ∷ c ∷ d ∷ calls) = executed d calls
fetched_of _ = no_data

abbrev is_free : Option Account → Bool
is_free none = true
is_free (some a) = false

-- The key on the login lets no second insertion of it through.
abbrev may_run : Kind → List Param → Calls → Bool
may_run insertion (string_param l ∷ rest) calls = is_free (accounts_of calls l)
may_run _ params calls = true

unfoldable pub succeeds_of : Calls → Bool
succeeds_of (execute h ∷ calls) = may_run (kind_of (prepared h calls)) (bound h calls) calls
succeeds_of _ = true

abbrev pub my : MySql
my = record {
  new_handle = λ calls. some 0;
  new_stmt = λ db calls. some (above calls);
  succeeds = succeeds_of;
  fetched = fetched_of;
  accepts_null = true;
}

fitted-IsAnswer : (a : Account) (d : Dec (Fits a)) → IsAnswer (some a) (fitted a d)
unfolding IsAnswer
fitted-IsAnswer a (yes fits) = (
  fits,
  record {
    id = refl;
    login = take_all (length a.login) a.login (omega arith);
    hash = take_all (length a.hash) a.hash (omega arith);
    salt = take_all (length a.salt) a.salt (omega arith);
    algo = take_all (length a.algo) a.algo (omega arith);
  },
)
fitted-IsAnswer a (no long) = long

answer-IsAnswer : (o : Option Account) → IsAnswer o (answer o)
unfolding IsAnswer
answer-IsAnswer none = tt
answer-IsAnswer (some a) = fitted-IsAnswer a (fits? a)

same_bytes_refl : (xs : List ℕ) → same_bytes xs xs ≡ true
unfolding same_bytes
same_bytes_refl [] = refl
same_bytes_refl (x ∷ xs) = ground (arith, same_bytes_refl xs)

abbrev pub accounts : Calls → List ℕ → Option Account
accounts = accounts_of

is_free-none : (o : Option Account) → is_free o ≡ true → o ≡ none
is_free-none none e = refl
is_free-none (some a) e = absurd cc

pub my-IsTable : IsTable my accounts
unfolding accounts_of fetched_of succeeds_of
my-IsTable = record {
  inserted = λ h login hash salt algo calls p b s. (
    0,
    rw (p, b, is_free-none (accounts_of calls login) (rw (p, b) at s), same_bytes_refl login) refl,
  );
  deleted = λ h login calls p b s. rw (p, b, same_bytes_refl login) refl;
  bound_only = λ h params login calls. refl;
  selected = λ h login calls p b s1 s2 s3. rw b (answer-IsAnswer (accounts calls login));
}

above-unprepared : (calls : Calls) (h : ℕ) → above calls ≤ h → prepared h calls ≡ none
unfolding above prepared
above-unprepared [] h le = refl
above-unprepared (init a ∷ calls) h le = above-unprepared calls h le
above-unprepared (real_connect a b c d e ∷ calls) h le = above-unprepared calls h le
above-unprepared (close a ∷ calls) h le = above-unprepared calls h le
above-unprepared (stmt_init a b ∷ calls) h le = above-unprepared calls h le
above-unprepared (stmt_prepare k sql ∷ calls) h le =
    let rest = above-unprepared calls h (omega arith) in
    let higher : suc k ≤ h = omega arith in ground (arith, rest, higher)
above-unprepared (stmt_close k ∷ calls) h le = ground (arith, above-unprepared calls h le)
above-unprepared (bind_param a b ∷ calls) h le = above-unprepared calls h le
above-unprepared (execute a ∷ calls) h le = above-unprepared calls h le
above-unprepared (bind_result a b ∷ calls) h le = above-unprepared calls h le
above-unprepared (store_result a ∷ calls) h le = above-unprepared calls h le
above-unprepared (fetch a ∷ calls) h le = above-unprepared calls h le

pub my-IsFresh : IsFresh my
my-IsFresh = record {
  unused =
      λ db calls h e. above-unprepared calls h (omega (arith, some-injective (above calls) h e));
}

answers-fine : (o : Option Account) → answer o ≢ failed
answers-fine none e = cc e
answers-fine (some a) e = fine (fits? a) e
  where
    fine : (d : Dec (Fits a)) → fitted a d ≢ failed
    fine (yes fits) e = cc e
    fine (no long) e = cc e

reply-fine : (params : List Param) (calls : Calls) → reply params calls ≢ failed
reply-fine [] calls e = cc e
reply-fine (string_param key ∷ []) calls e = answers-fine (accounts_of calls key) e
reply-fine (string_param key ∷ p ∷ ps) calls e = cc e
reply-fine (blob_param key ∷ ps) calls e = cc e

executed-fine : (c : Call) (calls : Calls) → executed c calls ≢ failed
executed-fine (execute k) calls e = reply-fine (bound k calls) calls e
executed-fine (init a) calls e = cc e
executed-fine (real_connect a b c d f) calls e = cc e
executed-fine (close a) calls e = cc e
executed-fine (stmt_init a b) calls e = cc e
executed-fine (stmt_prepare a b) calls e = cc e
executed-fine (stmt_close a) calls e = cc e
executed-fine (bind_param a b) calls e = cc e
executed-fine (bind_result a b) calls e = cc e
executed-fine (store_result a) calls e = cc e
executed-fine (fetch a) calls e = cc e

fetched-fine : (calls : Calls) → fetched_of calls ≢ failed
unfolding fetched_of
fetched-fine [] e = cc e
fetched-fine (a ∷ []) e = cc e
fetched-fine (a ∷ b ∷ []) e = cc e
fetched-fine (a ∷ b ∷ c ∷ []) e = cc e
fetched-fine (a ∷ b ∷ c ∷ d ∷ calls) e = executed-fine d calls e

-- A server that lets a `Get` run answers all of its calls.
pub my-Answers :
    (k : ℕ) (login : List ℕ) (calls : Calls)
    → my.succeeds (execute k ∷ bind_param k (string_param login ∷ []) ∷ calls) ≡ true
    → Answers my k login calls
unfolding succeeds_of
my-Answers k login calls e = record {
  bound = refl;
  executed = e;
  bound_result = refl;
  stored = refl;
  fetched = fetched-fine _;
}
