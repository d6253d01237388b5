-- ===== src/Metadata/Table.antt =====
-- The uploads table of schema.sql as a map from ids to rows, and what the repository promises about it.
use mathlib.Core.List.{Mem, Nodup}
use mathlib.Core.Option
use go_image_service.Base.{
  ℕ, ◌≤◌, String, true, false, ◌≡◌, ◌⊎◌, List, [], ◌∷◌, map, Option, none, some, All, if◌then◌else◌,
  ◌==◌, string_eq, Result, ok, err, Err, sentinel, no_rows, upload_not_found, errors_is,
}
use go_image_service.Postgres.{Postgres, Column, text, timestamp, Cursor}
use go_image_service.Metadata.{Upload, insert_sql, update_sql, select_sql, list_sql}

pub record Row : Type 0 where
  pub id : String
  pub filename : String
  pub content_type : String
  pub status : String
  pub user_id : String
  pub created_at : ℕ

abbrev pub Table : Type 0
Table = String → Option Row

abbrev pub Same : Table → Table → Type 0
Same t t' = (k : String) → t' k ≡ t k

abbrev pub set_status : String → Row → Row
set_status s row = record row { status = s }

-- The table before and after a new row.
abbrev pub Inserted : Row → Table → Table → Type 0
Inserted row t t' =
    (t row.id ≡ none) × ((k : String) → t' k ≡ (if k == row.id then some row else t k))

-- The table before and after a change of the status of an id, which is nothing where the id is missing.
abbrev pub Updated : String → String → Table → Table → Type 0
Updated id s t t' = (k : String) → t' k ≡ (if k == id then Option.map (set_status s) (t k) else t k)

abbrev pub new_row : String → String → String → String → String → ℕ → Row
new_row id filename content_type status user_id at = record {
  id = id;
  filename = filename;
  content_type = content_type;
  status = status;
  user_id = user_id;
  created_at = at;
}

-- `ORDER BY created_at DESC`
abbrev pub IsNewestFirst : List Row → Type 0
IsNewestFirst [] = Unit
IsNewestFirst (r ∷ []) = Unit
IsNewestFirst (r ∷ r' ∷ rows) = (r'.created_at ≤ r.created_at) × IsNewestFirst (r' ∷ rows)

-- The rows of a user, all of them and each once, the newest first.
pub record IsListing (t : Table) (user_id : String) (rows : List Row) : Type 0 where
  pub owned : All (λ r. (r.user_id ≡ user_id) × (t r.id ≡ some r)) rows
  pub all : (r : Row) → r.user_id ≡ user_id → t r.id ≡ some r → Mem r rows
  pub once : Nodup rows
  pub sorted : IsNewestFirst rows

abbrev pub owner_columns : Row → List Column
owner_columns r = text r.status ∷ text r.user_id ∷ text r.content_type ∷ []

abbrev pub upload_columns : Row → List Column
upload_columns r =
    text r.id ∷ text r.filename ∷ text r.content_type ∷ text r.status ∷ timestamp r.created_at ∷ []

-- What the code relies on in Postgres for its four statements, where `find` is the table that a world holds. A
-- statement that fails took effect or did not; a query changes nothing; the error of a query is not
-- one of the program's own.
pub record IsTable {W : Type 0} (db : Postgres W) (find : W → Table) : Type 0 where
  pub insert_ok :
      (id filename content_type status user_id : String) (w w' : W)
      → db.exec insert_sql (id ∷ filename ∷ content_type ∷ status ∷ user_id ∷ []) w ≡ (ok tt, w')
      → (at : ℕ) × Inserted (new_row id filename content_type status user_id at) (find w) (find w')
  pub insert_err :
      (id filename content_type status user_id : String) (w w' : W) (e : Err)
      → db.exec insert_sql (id ∷ filename ∷ content_type ∷ status ∷ user_id ∷ []) w ≡ (err e, w')
      → Same (find w) (find w')
        ⊎ ((at : ℕ) × Inserted
              (new_row id filename content_type status user_id at)
              (find w)
              (find w'))
  pub update_ok :
      (id s : String) (w w' : W)
      → db.exec update_sql (s ∷ id ∷ []) w ≡ (ok tt, w')
      → Updated id s (find w) (find w')
  pub update_err :
      (id s : String) (w w' : W) (e : Err)
      → db.exec update_sql (s ∷ id ∷ []) w ≡ (err e, w')
      → Same (find w) (find w') ⊎ Updated id s (find w) (find w')
  pub select_same :
      (id : String) (w : W) → Same (find w) (find (db.query_row select_sql (id ∷ []) w).1)
  pub select_ok :
      (id : String) (w w' : W) (columns : List Column)
      → db.query_row select_sql (id ∷ []) w ≡ (ok columns, w')
      → (row : Row) × (find w id ≡ some row) × (columns ≡ owner_columns row)
  pub select_err :
      (id : String) (w w' : W) (e : Err)
      → db.query_row select_sql (id ∷ []) w ≡ (err e, w')
      → (errors_is e no_rows ≡ true → find w id ≡ none) × (errors_is e upload_not_found ≡ false)
  pub list_same :
      (user_id : String) (w : W) → Same (find w) (find (db.query list_sql (user_id ∷ []) w).1)
  pub list_ok :
      (user_id : String) (w w' : W) (cursor : Cursor)
      → db.query list_sql (user_id ∷ []) w ≡ (ok cursor, w')
      → cursor.failure ≡ none
      → (rows : List Row) × (cursor.rows ≡ map upload_columns rows)
        × IsListing (find w) user_id rows

abbrev pub upload_of : Row → Upload
upload_of r = record {
  id = r.id;
  filename = r.filename;
  content_type = r.content_type;
  status = r.status;
  created_at = r.created_at;
}

-- What `Get` may answer.
pub data GetSpec (t : Table) (id : String) : Result (String × String × String) → Type 0 where
  found :
      (row : Row) → t id ≡ some row → GetSpec t id (ok (row.status, row.user_id, row.content_type))
  absent : t id ≡ none → GetSpec t id (err (sentinel upload_not_found))
  unavailable : (e : Err) → errors_is e upload_not_found ≡ false → GetSpec t id (err e)

-- What `List` may answer.
pub data ListSpec (t : Table) (user_id : String) : Result (List Upload) → Type 0 where
  listed :
      (rows : List Row) → IsListing t user_id rows → ListSpec t user_id (ok (map upload_of rows))
  unavailable : (e : Err) → ListSpec t user_id (err e)

-- What an operation that writes may do: all of it, or where it fails, all of it or nothing.
pub data WriteSpec (Effect : Table → Table → Type 0) (t t' : Table)
    : Result (Unit {0}) → Type 0 where
  done : Effect t t' → WriteSpec Effect t t' (ok tt)
  undone : (e : Err) → Same t t' → WriteSpec Effect t t' (err e)
  unconfirmed : (e : Err) → Effect t t' → WriteSpec Effect t t' (err e)
