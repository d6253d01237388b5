-- ===== src/Tests/Rows.antt =====
-- A table that has room for one row, and the repository over it.
use mathlib.Core.Path.{subst}
use mathlib.Core.List.{Mem, Pairwise, mem-cons_self, not-mem-nil}
use go_image_service.Base.{
  String, true, false, ◌≡◌, refl, sym, ap, ◌∙◌, inl, inr, List, [], ◌∷◌, map, Option, none, some,
  if◌then◌else◌, ◌==◌, string_eq, ==_refl, eq_of_==, Bool-cases, ne_of_==, if_true, Result, ok, err,
  Err, message, sentinel, no_rows, upload_not_found, errors_is, arith,
}
use go_image_service.Postgres.{Postgres, Column, Cursor}
use go_image_service.Metadata.Table.{
  Row, Table, Same, Inserted, Updated, set_status, new_row, IsListing, IsTable, owner_columns,
  upload_columns,
}

abbrev pub find : Option Row → Table
find none k = none
find (some row) k = if k == row.id then some row else none

abbrev if_id : String → Row → Option Row → Option Row
if_id id row other = if id == row.id then some row else other

abbrev pub insert : Row → Option Row → Result (Unit {0}) × Option Row
insert row none = (ok tt, some row)
insert row (some other) = (err (message "no room"), some other)

abbrev pub set : String → String → Option Row → Option Row
set s id none = none
set s id (some row) = some (if row.id == id then set_status s row else row)

abbrev statement : List String → Option Row → Result (Unit {0}) × Option Row
statement (s ∷ id ∷ []) rows = (ok tt, set s id rows)
statement (id ∷ name ∷ ct ∷ st ∷ user ∷ []) rows = insert (new_row id name ct st user 7) rows
statement _ rows = (err (message "syntax"), rows)

abbrev columns_of : Option Row → Result (List Column)
columns_of none = err (sentinel no_rows)
columns_of (some row) = ok (owner_columns row)

abbrev row_query : List String → Option Row → Result (List Column)
row_query (id ∷ []) rows = columns_of (find rows id)
row_query _ rows = err (message "syntax")

abbrev owned_by : String → Option Row → List Row
owned_by user none = []
owned_by user (some row) = if row.user_id == user then row ∷ [] else []

abbrev list_query : List String → Option Row → Result Cursor
list_query (user ∷ []) rows =
    ok (record { rows = map upload_columns (owned_by user rows); failure = none })
list_query _ rows = err (message "syntax")

abbrev pub one_row : Postgres (Option Row)
one_row = record {
  exec = λ _ args rows. statement args rows;
  query_row = λ _ args rows. (row_query args rows, rows);
  query = λ _ args rows. (list_query args rows, rows);
}

set-Updated : (id s : String) (rows : Option Row) → Updated id s (find rows) (find (set s id rows))
set-Updated id s none k = ground arith
set-Updated id s (some row) k = grind arith

insert-Inserted :
    (row : Row) (rows rows' : Option Row)
    → insert row rows ≡ (ok tt, rows')
    → Inserted row (find rows) (find rows')
insert-Inserted row none rows' e = rw (← ap (λ p. p.1) e) (refl, λ k. refl)
insert-Inserted row (some other) rows' e = cc

insert-Same :
    (row : Row) (rows rows' : Option Row) (x : Err)
    → insert row rows ≡ (err x, rows')
    → Same (find rows) (find rows')
insert-Same row none rows' x e = cc
insert-Same row (some other) rows' x e = rw (← ap (λ p. p.1) e) (λ k. refl)

found :
    (rows : Option Row) (o : Option Row) (rows' : Option Row) (columns : List Column)
    → ◌≡◌ {A = Result (List Column) × Option Row} (columns_of o, rows) (ok columns, rows')
    → (row : Row) × (o ≡ some row) × (columns ≡ owner_columns row)
found rows none rows' columns e = cc
found rows (some row) rows' columns e = (row, refl, cc)

missing :
    (rows : Option Row) (o : Option Row) (rows' : Option Row) (x : Err)
    → ◌≡◌ {A = Result (List Column) × Option Row} (columns_of o, rows) (err x, rows')
    → (errors_is x no_rows ≡ true → o ≡ none) × (errors_is x upload_not_found ≡ false)
missing rows none rows' x e = (λ _. refl, ap (λ x. errors_is x upload_not_found) same)
  where
    same : x ≡ sentinel no_rows
    same = cc
missing rows (some row) rows' x e = cc

same_row : (row r : Row) → find (some row) r.id ≡ some r → r ≡ row
same_row row r e = grind arith

owned-IsListing :
    (user : String) (rows : Option Row) → IsListing (find rows) user (owned_by user rows)
owned-IsListing user none = record {
  owned = tt;
  all = λ r _ e. cc;
  once = Pairwise.nil;
  sorted = tt;
}
owned-IsListing user (some row) = elim (Bool-cases (row.user_id == user)) [
  | inl own ↦ rw own (record {
    owned = ((eq_of_== row.user_id user own, if_true _ _ _ (==_refl row.id)), tt);
    all = λ r _ e. subst (λ r. Mem r (row ∷ [])) (sym (same_row row r e)) mem-cons_self;
    once = Pairwise.cons (λ r m. absurd (not-mem-nil m)) Pairwise.nil;
    sorted = tt;
  })
  | inr other ↦ rw other (record {
    owned = tt;
    all = λ r mine e. absurd (
        ne_of_== row.user_id user other
          (ap (λ (r : Row). r.user_id) (sym (same_row row r e)) ∙ mine));
    once = Pairwise.nil;
    sorted = tt;
  })
]

listed :
    (user : String) (rows rows' : Option Row) (cursor : Cursor)
    → ◌≡◌ {A = Result Cursor × Option Row} (list_query (user ∷ []) rows, rows) (ok cursor, rows')
    → (listing : List Row) × (cursor.rows ≡ map upload_columns listing)
      × IsListing (find rows) user listing
listed user rows rows' cursor e = (owned_by user rows, cc, owned-IsListing user rows)

pub one_row-IsTable : IsTable one_row find
one_row-IsTable = record {
  insert_ok =
      λ id name ct st user w w' e. (7, insert-Inserted (new_row id name ct st user 7) w w' e);
  insert_err =
      λ id name ct st user w w' x e. inl (insert-Same (new_row id name ct st user 7) w w' x e);
  update_ok = λ id s w w' e. updated id s w w' e;
  update_err = λ id s w w' x e. cc;
  select_same = λ _ _ _. refl;
  select_ok = λ id w w' columns e. found w (find w id) w' columns e;
  select_err = λ id w w' x e. missing w (find w id) w' x e;
  list_same = λ _ _ _. refl;
  list_ok = λ user w w' cursor e _. listed user w w' cursor e;
}
  where
    updated :
        (id s : String) (w w' : Option Row)
        → ◌≡◌ {A = Result (Unit {0}) × Option Row} (ok tt, set s id w) (ok tt, w')
        → Updated id s (find w) (find w')
    updated id s w w' e =
        subst (λ w'. Updated id s (find w) (find w')) (ap (λ p. p.1) e) (set-Updated id s w)

abbrev pub anns : Row
anns = new_row "u1" "f.png" "image/png" "pending" "ann" 7
