-- ===== src/User.antt =====
-- internal/user/user.go: the users table of schema.sql.
pub mod Table
pub mod Refinement
use go_image_service.Base.{
  String, List, [], ◌∷◌, if◌then◌else◌, Result, ok, err, sentinel, no_rows, user_not_found,
  errors_is, catch, M, message,
}
use go_image_service.Postgres.{Postgres, Column, text}

-- `user.User`
pub record User : Type 0 where
  pub id : String
  pub email : String
  pub password_hash : String

abbrev pub insert_sql : String
insert_sql = "INSERT INTO users (id, email, password_hash) VALUES ($1, $2, $3)"

abbrev pub select_sql : String
select_sql = "SELECT id, email, password_hash FROM users WHERE email = $1"

-- `Scan(&u.ID, &u.Email, &u.PasswordHash)`
abbrev pub scan_user : List Column → Result User
scan_user (text id ∷ text email ∷ text hash ∷ []) =
    ok (record { id = id; email = email; password_hash = hash })
scan_user _ = err (message "cannot scan")

module _ {W : Type 0} (db : Postgres W) where
  -- `Create`
  unfoldable pub create : String → String → String → M W (Unit {0})
  create id email password_hash = db.exec insert_sql (id ∷ email ∷ password_hash ∷ [])

  -- `GetUserByEmail`
  unfoldable pub get_user_by_email : String → M W User
  get_user_by_email email w =
      catch (db.query_row select_sql (email ∷ []) w) (λ columns w. (scan_user columns, w))
        (λ e w. (err (if errors_is e no_rows then sentinel user_not_found else e), w))
