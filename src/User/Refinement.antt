-- ===== src/User/Refinement.antt =====
-- The repository of users does to the table what it promises.
use go_image_service.Base.{
  String, ◌≡◌, refl, inl, inr, List, [], ◌∷◌, Bool-cases, Result, ok, err, no_rows, errors_is,
}
use go_image_service.Postgres.{Postgres, Column}
use go_image_service.Metadata.Refinement.{result-world}
use go_image_service.User.{create, get_user_by_email, select_sql}
use go_image_service.User.Table.{
  Users, SameUsers, account, IsUserTable, CreateSpec, FindSpec, done, undone, unconfirmed, found,
  absent,
}

module _ {W : Type 0} (db : Postgres W) (fold : String → String) (find : W → Users)
    (table : IsUserTable db fold find) (w : W) where
  create-go :
      (id email hash : String) (r : Result (Unit {0}) × W)
      → create db id email hash w ≡ r
      → CreateSpec fold (account id email hash) (find w) (find r.1) r.0
  unfolding create
  create-go id email hash (ok _, w') e = done (table.insert_ok id email hash w w' e)
  create-go id email hash (err x, w') e = elim (table.insert_err id email hash w w' x e) [
    | inl same ↦ undone x same
    | inr added ↦ unconfirmed x added
  ]

  find-go :
      (email : String) (r : Result (List Column) × W)
      → db.query_row select_sql (email ∷ []) w ≡ r
      → FindSpec fold (find w) email (get_user_by_email db email w).0
  unfolding get_user_by_email
  find-go email (ok columns, w') e =
      let (u, here, same) = table.select_ok email w w' columns e in rw (e, same) (found u here)
  find-go email (err x, w') e = elim (Bool-cases (errors_is x no_rows)) [
    | inl gone ↦ rw (e, gone) (absent ((table.select_err email w w' x e).0 gone))
    | inr other ↦
        let (_, a, b) = table.select_err email w w' x e in
        rw (e, other) (FindSpec.unavailable x a b)
  ]

  find-world :
      (email : String)
      → (get_user_by_email db email w).1 ≡ (db.query_row select_sql (email ∷ []) w).1
  unfolding get_user_by_email
  find-world email = result-world _ _ (db.query_row select_sql (email ∷ []) w)

  pub users-refines :
      (id email hash : String)
      → CreateSpec fold
          (account id email hash)
          (find w)
          (find (create db id email hash w).1)
          (create db id email hash w).0
        × FindSpec fold (find w) email (get_user_by_email db email w).0
        × SameUsers (find w) (find (get_user_by_email db email w).1)
  users-refines id email hash = (
    create-go id email hash _ refl,
    find-go email _ refl,
    rw find-world (table.select_same email w),
  )
