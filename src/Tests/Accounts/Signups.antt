-- ===== src/Tests/Accounts/Signups.antt =====
-- A signup, a login under another spelling of the email, and a verification, over a users table for one account.
use mathlib.Core.Path.{subst}
use go_image_service.Base.{
  ℕ, nat_eq, String, List, [], ◌∷◌, Option, none, some, ◌≡◌, refl, sym, ap, true, false, ◌==◌,
  string_eq, Result, ok, err, Err, message, sentinel, no_rows, user_not_found, invalid_credentials,
  errors_is, M, pure, if◌then◌else◌, arith, inl, ◌⊎◌,
}
use go_image_service.Config.{Config}
use go_image_service.Postgres.{Postgres, Column}
use go_image_service.User.{User, insert_sql, select_sql}
use go_image_service.User
use go_image_service.User.Table.{Users, SameUsers, Added, account, user_columns, IsUserTable}
use go_image_service.Id.{new_id}
use go_image_service.Id.Hex.{hex_encode}
use go_image_service.Auth
use go_image_service.Auth.{token_ttl}
use go_image_service.AuthGrpc.{AuthService, server, server_register, server_login}
use go_image_service.Cmd.Wiring.{user_repo}
use go_image_service.Cmd.Services.{auth_main}
use go_image_service.Cmd.Accounts.{IsAuthApart, auth_main-accounts}
use go_image_service.Tests.Commands.{config}
use go_image_service.Tests.Accounts.Fixtures.{World, seven_id, demo_crypto, demo-IsCrypto}

-- Two spellings of one email.
abbrev pub fold : String → String
fold s = if s == "A@B" then "a@b" else s

abbrev pub entry : Option User → String → Option User
entry none k = none
entry (some u) k = if k == fold u.email then some u else none

abbrev pub find : World → Users
find w = entry w.row

abbrev pub insert : List String → ℕ → Option User → Result (Unit {0}) × World
insert (id ∷ email ∷ hash ∷ []) t none =
    (ok tt, record { time = t; row = some (account id email hash) })
insert _ t row = (err (message "unique"), record { time = t; row = row })

abbrev pub columns_of : Option User → Result (List Column)
columns_of none = err (sentinel no_rows)
columns_of (some u) = ok (user_columns u)

abbrev pub select : List String → Option User → Result (List Column)
select (email ∷ []) row = columns_of (entry row (fold email))
select _ row = err (message "arguments")

abbrev pub one_account : Postgres World
one_account = record {
  exec = λ _ args w. insert args w.time w.row;
  query_row = λ _ args w. (select args w.row, w);
  query = λ _ _. pure (record { rows = []; failure = none });
}

insert_ok :
    (id email hash : String) (t : ℕ) (row : Option User) (w' : World)
    → insert (id ∷ email ∷ hash ∷ []) t row ≡ (ok tt, w')
    → Added fold (account id email hash) (entry row) (find w')
insert_ok id email hash t none w' h = record {
  free = refl;
  fresh_id = λ k v e. absurd (no e);
  after = λ k. ap (λ r. find r.1 k) (sym h);
}
  where
    no : {v : User} → ◌≡◌ {A = Option User} none (some v) → ⊥
    no e = cc
insert_ok id email hash t (some u) w' h = absurd (no h)
  where
    no : {w w' : World} {x : Err} → ◌≡◌ {A = Result (Unit {0}) × World} (err x, w) (ok tt, w') → ⊥
    no e = cc

insert_err :
    (id email hash : String) (t : ℕ) (row : Option User) (w' : World) (e : Err)
    → insert (id ∷ email ∷ hash ∷ []) t row ≡ (err e, w')
    → SameUsers (entry row) (find w') ⊎ Added fold (account id email hash) (entry row) (find w')
insert_err id email hash t none w' x h = absurd (no h)
  where
    no : {w w' : World} {x : Err} → ◌≡◌ {A = Result (Unit {0}) × World} (ok tt, w) (err x, w') → ⊥
    no e = cc
insert_err id email hash t (some u) w' x h = inl (λ k. ap (λ r. find r.1 k) (sym h))

select_ok :
    (row : Option User) (columns : List Column)
    → columns_of row ≡ ok columns
    → (u : User) × (row ≡ some u) × (columns ≡ user_columns u)
select_ok none columns h = cc
select_ok (some u) columns h = (u, refl, cc)

select_err :
    (row : Option User) (e : Err)
    → columns_of row ≡ err e
    → (errors_is e no_rows ≡ true → row ≡ none)
      × (errors_is e user_not_found ≡ false)
      × (errors_is e invalid_credentials ≡ false)
select_err none e h = ((λ _. refl), rw (← same) refl, rw (← same) refl)
  where
    same : sentinel no_rows ≡ e
    same = cc
select_err (some u) e h = cc

one_account-IsUserTable : IsUserTable one_account fold find
one_account-IsUserTable = record {
  insert_ok = λ id email hash w w' h. insert_ok id email hash w.time w.row w' h;
  insert_err = λ id email hash w w' e h. insert_err id email hash w.time w.row w' e h;
  select_same = λ _ _ _. refl;
  select_ok = λ email w w' columns h. select_ok (find w (fold email)) columns (ap (λ r. r.0) h);
  select_err = λ email w w' e h. select_err (find w (fold email)) e (ap (λ r. r.0) h);
}

pub one_account-IsAuthApart : IsAuthApart demo_crypto fold find one_account
one_account-IsAuthApart = record {
  table = one_account-IsUserTable;
  hash_same = λ _ _ _ _. refl;
  rand_same = λ _ _ _. refl;
}

abbrev pub keyed : Config
keyed = record config { jwt_secret = "k" }

abbrev pub listen : String → M World String
listen = pure

abbrev pub connect : String → M World (Postgres World)
connect _ = pure one_account

abbrev pub the_service : AuthService World
the_service = server demo_crypto (user_repo one_account) "k"

abbrev pub empty : World
empty = record { time = 100; row = none }

abbrev pub joined : World
joined = record { time = 100; row = some (account seven_id "A@B" "secret12") }

abbrev pub next_day : World
next_day = record { time = 86000; row = none }

pub served :
    auth_main listen demo_crypto connect (λ _. pure tt) (λ _. "") keyed empty
    ≡ (ok (":50052", the_service), empty)
unfolding auth_main string_eq
served = refl

registered : the_service.register "A@B" "secret12" empty ≡ (ok seven_id, joined)
unfolding server_register Auth.register User.create new_id hex_encode
registered = refl

logged_in : the_service.login "a@b" "secret12" joined ≡ (ok "t", joined)
unfolding server_login Auth.login User.get_user_by_email string_eq nat_eq
logged_in = refl

pub same_spelling : ◌≡◌ {A = String} (fold "a@b") (fold "A@B")
unfolding string_eq
same_spelling = refl

-- The pool that the service opens is the one above.
pub the_pool :
    (pool : Postgres World) (v : World)
    → ◌≡◌ {A = Result (Postgres World) × World} (ok one_account, empty) (ok pool, v)
    → one_account ≡ pool
the_pool pool v e = cc

auth_main-accounts_example :
    ((hash : String) × Added fold (account seven_id "A@B" hash) (find empty) (find joined))
    × (the_service.verify "t" next_day ≡ (ok seven_id, next_day))
    × ((x : Err) × ((the_service.register "a@b" "password" joined).0 ≡ err x))
auth_main-accounts_example =
    auth_main-accounts listen demo_crypto connect (λ _. pure tt) fold find demo-IsCrypto (λ _. "")
      keyed empty empty ":50052" the_service served
      (λ pool v e.
        subst (λ p. IsAuthApart demo_crypto fold find p) (the_pool pool v e)
          one_account-IsAuthApart)
      "A@B" "secret12" seven_id empty joined registered "a@b" "password" "t" joined joined next_day
      same_spelling refl logged_in (omega arith)
