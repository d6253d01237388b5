-- ===== src/Metadata/Refinement.antt =====
-- The repository does to the table what it promises.
use go_image_service.Base.{
  ℕ, String, ◌≡◌, refl, inl, inr, List, [], ◌∷◌, map, Option, none, some, Bool-cases, Result, ok,
  err, Err, no_rows, errors_is, catch,
}
use go_image_service.Postgres.{Postgres, Column, Cursor}
use go_image_service.Metadata.{
  Upload, scan_all, scan_upload, add_upload, create, update_status, get, list, select_sql, list_sql,
}
use go_image_service.Metadata.Table.{
  Row, Table, Same, Inserted, Updated, new_row, IsTable, upload_columns, upload_of, GetSpec,
  ListSpec, WriteSpec, found, absent, listed, done, undone, unconfirmed,
}

scan_all-upload_columns :
    (rows : List Row) → scan_all (map upload_columns rows) none ≡ ok (map upload_of rows)
unfolding scan_all
scan_all-upload_columns [] = refl
scan_all-upload_columns (r ∷ rows) = rw (scan_all-upload_columns rows)

add_upload-err : (u : Result Upload) (y : Err) → (z : Err) × (add_upload u (err y) ≡ err z)
add_upload-err (ok u) y = (y, refl)
add_upload-err (err x) y = (x, refl)

-- A cursor that failed never gives a list.
scan_all-some :
    (columns : List (List Column)) (x : Err) → (y : Err) × (scan_all columns (some x) ≡ err y)
unfolding scan_all
scan_all-some [] x = (x, refl)
scan_all-some (columns ∷ rest) x =
    let (y, e) = scan_all-some rest x in rw e (add_upload-err (scan_upload columns) y)

pub result-world :
    {W A B : Type 0} (f : A → Result B) (g : Err → Result B) (r : Result A × W)
    → (catch {X = Result B × W} r (λ a w. (f a, w)) (λ e w. (g e, w))).1 ≡ r.1
result-world f g (ok _, _) = refl
result-world f g (err _, _) = refl

module _ {W : Type 0} (db : Postgres W) (find : W → Table) (table : IsTable db find) (w : W) where
  get-go :
      (id : String) (r : Result (List Column) × W)
      → db.query_row select_sql (id ∷ []) w ≡ r
      → GetSpec (find w) id (get db id w).0
  unfolding get
  get-go id (ok columns, w') e =
      let (row, here, same) = table.select_ok id w w' columns e in rw (e, same) (found row here)
  get-go id (err x, w') e = elim (Bool-cases (errors_is x no_rows)) [
    | inl gone ↦ rw (e, gone) (absent ((table.select_err id w w' x e).0 gone))
    | inr other ↦ rw (e, other) (GetSpec.unavailable x (table.select_err id w w' x e).1)
  ]

  pub get-GetSpec : (id : String) → GetSpec (find w) id (get db id w).0
  get-GetSpec id = get-go id _ refl

  get-world : (id : String) → (get db id w).1 ≡ (db.query_row select_sql (id ∷ []) w).1
  unfolding get
  get-world id = result-world _ _ (db.query_row select_sql (id ∷ []) w)

  scan-go :
      (user_id : String) (cursor : Cursor) (w' : W) (failure : Option Err)
      → db.query list_sql (user_id ∷ []) w ≡ (ok cursor, w')
      → cursor.failure ≡ failure
      → ListSpec (find w) user_id (scan_all cursor.rows failure)
  scan-go user_id cursor w' none e whole =
      let (rows, same, h) = table.list_ok user_id w w' cursor e whole in
      rw same (rw (scan_all-upload_columns rows) (listed rows h))
  scan-go user_id cursor w' (some x) e broken = failed (scan_all-some cursor.rows x)
    where
      failed : {r : Result (List Upload)} → (y : Err) × (r ≡ err y) → ListSpec (find w) user_id r
      failed (y, p) = rw p (ListSpec.unavailable y)

  list-go :
      (user_id : String) (r : Result Cursor × W)
      → db.query list_sql (user_id ∷ []) w ≡ r
      → ListSpec (find w) user_id (list db user_id w).0
  unfolding list
  list-go user_id (ok cursor, w') e = rw e (scan-go user_id cursor w' cursor.failure e refl)
  list-go user_id (err x, w') e = rw e (ListSpec.unavailable x)

  pub list-ListSpec : (user_id : String) → ListSpec (find w) user_id (list db user_id w).0
  list-ListSpec user_id = list-go user_id _ refl

  list-world : (user_id : String) → (list db user_id w).1 ≡ (db.query list_sql (user_id ∷ []) w).1
  unfolding list
  list-world user_id = result-world _ _ (db.query list_sql (user_id ∷ []) w)

  -- The tables of two worlds, before and after a call.
  pub create-go :
      (id filename content_type status user_id : String) (r : Result (Unit {0}) × W)
      → create db id filename content_type status user_id w ≡ r
      → (at : ℕ) × WriteSpec
          (Inserted (new_row id filename content_type status user_id at))
          (find w)
          (find r.1)
          r.0
  unfolding create
  create-go id f ct st u (ok _, w') e =
      let (at, h) = table.insert_ok id f ct st u w w' e in (at, done h)
  create-go id f ct st u (err x, w') e = elim (table.insert_err id f ct st u w w' x e) [
    | inl same ↦ (0, undone x same)
    | inr (at, h) ↦ (at, unconfirmed x h)
  ]

  pub update-go :
      (id s : String) (r : Result (Unit {0}) × W)
      → update_status db id s w ≡ r
      → WriteSpec (Updated id s) (find w) (find r.1) r.0
  unfolding update_status
  update-go id s (ok _, w') e = done (table.update_ok id s w w' e)
  update-go id s (err x, w') e = elim (table.update_err id s w w' x e) [
    | inl same ↦ undone x same
    | inr h ↦ unconfirmed x h
  ]

  pub get-Same : (id : String) → Same (find w) (find (get db id w).1)
  get-Same id = rw get-world (table.select_same id w)

  pub list-Same : (user_id : String) → Same (find w) (find (list db user_id w).1)
  list-Same user_id = rw list-world (table.list_same user_id w)
