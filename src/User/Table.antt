-- ===== src/User/Table.antt =====
-- The users table of schema.sql as a map from emails to accounts, and what the repository promises about it.
use go_image_service.Base.{
  String, true, false, ◌≡◌, ◌≢◌, ◌⊎◌, List, [], ◌∷◌, Option, none, some, if◌then◌else◌, ◌==◌,
  string_eq, Result, ok, err, Err, sentinel, no_rows, user_not_found, invalid_credentials,
  errors_is,
}
use go_image_service.Postgres.{Postgres, Column, text}
use go_image_service.User.{User, insert_sql, select_sql}

-- Keyed by the email as the database compares it: the column is of type citext.
abbrev pub Users : Type 0
Users = String → Option User

abbrev pub SameUsers : Users → Users → Type 0
SameUsers t t' = (k : String) → t' k ≡ t k

-- The table before and after a new account: email and id are unique.
pub record Added (fold : String → String) (u : User) (t t' : Users) : Type 0 where
  pub free : t (fold u.email) ≡ none
  pub fresh_id : (k : String) (v : User) → t k ≡ some v → v.id ≢ u.id
  pub after : (k : String) → t' k ≡ (if k == fold u.email then some u else t k)

abbrev pub account : String → String → String → User
account id email hash = record { id = id; email = email; password_hash = hash }

abbrev pub user_columns : User → List Column
user_columns u = text u.id ∷ text u.email ∷ text u.password_hash ∷ []

-- What the code relies on in Postgres for the two statements, where `find` is the table that a world holds and `fold`
-- is how it compares emails. A statement that fails took effect or did not; the error of a query is
-- not one of the program's own.
pub record IsUserTable {W : Type 0} (db : Postgres W) (fold : String → String) (find : W → Users)
    : Type 0 where
  pub insert_ok :
      (id email hash : String) (w w' : W)
      → db.exec insert_sql (id ∷ email ∷ hash ∷ []) w ≡ (ok tt, w')
      → Added fold (account id email hash) (find w) (find w')
  pub insert_err :
      (id email hash : String) (w w' : W) (e : Err)
      → db.exec insert_sql (id ∷ email ∷ hash ∷ []) w ≡ (err e, w')
      → SameUsers (find w) (find w') ⊎ Added fold (account id email hash) (find w) (find w')
  pub select_same :
      (email : String) (w : W)
      → SameUsers (find w) (find (db.query_row select_sql (email ∷ []) w).1)
  pub select_ok :
      (email : String) (w w' : W) (columns : List Column)
      → db.query_row select_sql (email ∷ []) w ≡ (ok columns, w')
      → (u : User) × (find w (fold email) ≡ some u) × (columns ≡ user_columns u)
  pub select_err :
      (email : String) (w w' : W) (e : Err)
      → db.query_row select_sql (email ∷ []) w ≡ (err e, w')
      → (errors_is e no_rows ≡ true → find w (fold email) ≡ none)
        × (errors_is e user_not_found ≡ false)
        × (errors_is e invalid_credentials ≡ false)

-- What `Create` may do: add the account, or where it fails, add it or nothing.
pub data CreateSpec (fold : String → String) (u : User) (t t' : Users)
    : Result (Unit {0}) → Type 0 where
  done : Added fold u t t' → CreateSpec fold u t t' (ok tt)
  undone : (e : Err) → SameUsers t t' → CreateSpec fold u t t' (err e)
  unconfirmed : (e : Err) → Added fold u t t' → CreateSpec fold u t t' (err e)

-- What `GetUserByEmail` may answer.
pub data FindSpec (fold : String → String) (t : Users) (email : String) : Result User → Type 0 where
  found : (u : User) → t (fold email) ≡ some u → FindSpec fold t email (ok u)
  absent : t (fold email) ≡ none → FindSpec fold t email (err (sentinel user_not_found))
  unavailable :
      (e : Err)
      → errors_is e user_not_found ≡ false
      → errors_is e invalid_credentials ≡ false
      → FindSpec fold t email (err e)
