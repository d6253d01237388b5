-- ===== src/Metadata.antt =====
-- internal/metadata/metadata.go: the uploads table of schema.sql, through a connection pool.
pub mod Table
pub mod Refinement
pub mod Found
use go_image_service.Base.{
  ℕ, String, List, [], ◌∷◌, Option, none, some, if◌then◌else◌, Result, ok, err, Err, message,
  sentinel, no_rows, upload_not_found, errors_is, catch, M,
}
use go_image_service.Postgres.{Postgres, Column, text, timestamp}

-- `metadata.Upload`
pub record Upload : Type 0 where
  pub id : String
  pub filename : String
  pub content_type : String
  pub status : String
  pub created_at : ℕ

abbrev pub insert_sql : String
insert_sql =
    "INSERT INTO uploads (id, original_filename, content_type, status, user_id)\n\t\t VALUES ($1, $2, $3, $4, $5)"

abbrev pub update_sql : String
update_sql = "UPDATE uploads SET status = $1 WHERE id = $2"

abbrev pub select_sql : String
select_sql = "SELECT status, user_id, content_type FROM uploads WHERE id = $1"

abbrev pub list_sql : String
list_sql =
    "SELECT id, original_filename, content_type, status, created_at\n\t\t   FROM uploads\n\t\t  WHERE user_id = $1\n\t\t  ORDER BY created_at DESC"

-- `Scan` into variables of other types than the columns'.
abbrev pub scan_error : Err
scan_error = message "cannot scan"

-- `Scan(&status, &userID, &contentType)`
abbrev pub scan_owner : List Column → Result (String × String × String)
scan_owner (text st ∷ text owner ∷ text ct ∷ []) = ok (st, owner, ct)
scan_owner _ = err scan_error

-- `Scan(&u.ID, &u.Filename, &u.ContentType, &u.Status, &u.CreatedAt)`
abbrev pub scan_upload : List Column → Result Upload
scan_upload (text id ∷ text name ∷ text ct ∷ text st ∷ timestamp at ∷ []) =
    ok (record { id = id; filename = name; content_type = ct; status = st; created_at = at })
scan_upload _ = err scan_error

abbrev pub end_of : Option Err → Result (List Upload)
end_of none = ok []
end_of (some e) = err e

abbrev pub add_upload : Result Upload → Result (List Upload) → Result (List Upload)
add_upload (err e) _ = err e
add_upload (ok u) (err e) = err e
add_upload (ok u) (ok us) = ok (u ∷ us)

-- The loop over `rows.Next` with its `append`, and `rows.Err` after it.
unfoldable pub scan_all : List (List Column) → Option Err → Result (List Upload)
scan_all [] failure = end_of failure
scan_all (columns ∷ rows) failure =
    let rest = scan_all rows failure in add_upload (scan_upload columns) rest

module _ {W : Type 0} (db : Postgres W) where
  -- `Create`
  unfoldable pub create : String → String → String → String → String → M W (Unit {0})
  create id filename content_type status user_id =
      db.exec insert_sql (id ∷ filename ∷ content_type ∷ status ∷ user_id ∷ [])

  -- `UpdateStatus`
  unfoldable pub update_status : String → String → M W (Unit {0})
  update_status id status = db.exec update_sql (status ∷ id ∷ [])

  -- `Get`
  unfoldable pub get : String → M W (String × String × String)
  get id w =
      catch (db.query_row select_sql (id ∷ []) w) (λ columns w. (scan_owner columns, w))
        (λ e w. (err (if errors_is e no_rows then sentinel upload_not_found else e), w))

  -- `List`
  unfoldable pub list : String → M W (List Upload)
  unfolding scan_all
  list user_id w =
      catch (db.query list_sql (user_id ∷ []) w)
        (λ cursor w. (scan_all cursor.rows cursor.failure, w)) (λ e w. (err e, w))
