-- ===== src/Auth.antt =====
-- internal/auth: registration, login and tokens. bcrypt, the JWT library, the clock and the source of
-- random bytes are the interface `Crypto`; the users table is the interface `UserRepo`.
pub mod Login
pub mod Tokens
pub mod RoundTrip
pub mod Accounts
use go_image_service.Base.{
  ℕ, ◌+◌, ◌*◌, String, ◌<>◌, Bool, true, false, not, List, if◌then◌else◌, Result, ok, err, Err,
  message, sentinel, invalid_credentials, user_not_found, errors_is, catch, M, ◌>>=◌, ◌>>◌, pure,
  fail,
}
use go_image_service.Id.{new_id}
use go_image_service.User.{User}

-- A token's signing method: one of the HMAC family, or another, by its name.
pub data Method : Type 0 where
  hmac : String → Method
  other : String → Method

abbrev pub method_name : Method → String
method_name (hmac name) = name
method_name (other name) = name

-- `jwt.RegisteredClaims`, with times in seconds.
pub record Claims : Type 0 where
  pub subject : String
  pub issued_at : ℕ
  pub expires_at : ℕ

-- `compare_hash` and `signed_string` are pure; `parse_with_claims` takes the key function and the time, and
-- answers the claims and whether the token is valid.
pub record Crypto (W : Type 0) : Type 0 where
  pub now : W → ℕ
  pub rand_read : ℕ → M W (List ℕ)
  pub generate_from_password : String → ℕ → M W String
  pub compare_hash_and_password : String → String → Result (Unit {0})
  pub signed_string : Method → Claims → String → Result String
  pub parse_with_claims : String → (Method → Result String) → ℕ → Result (Claims × Bool)

-- `UserRepo`
pub record UserRepo (W : Type 0) : Type 0 where
  pub create : String → String → String → M W (Unit {0})
  pub get_user_by_email : String → M W User

-- `bcrypt.DefaultCost`
abbrev pub default_cost : ℕ
default_cost = 10

-- `tokenTTL`: a day, in seconds.
abbrev pub token_ttl : ℕ
token_ttl = 24 * 3600

-- The key function of `ParseToken`.
unfoldable pub key_func : String → Method → Result String
key_func secret (hmac _) = ok secret
key_func secret (other name) = err (message ("unexpected signing method: " <> name))

abbrev pub valid_subject : Result (Claims × Bool) → Result String
valid_subject (err e) = err e
valid_subject (ok (claims, true)) = ok claims.subject
valid_subject (ok (claims, false)) = err (message "invalid token")

module _ {W : Type 0} (c : Crypto W) where
  -- `HashPassword`
  unfoldable pub hash_password : String → M W String
  hash_password password = c.generate_from_password password default_cost

  -- `CheckPassword`
  unfoldable pub check_password : String → String → Result (Unit {0})
  check_password hash password = c.compare_hash_and_password hash password

  -- `IssueToken`
  unfoldable pub issue_token : String → String → M W String
  issue_token user_id secret w =
      let now = c.now w in
      let claims : Claims = record {
        subject = user_id;
        issued_at = now;
        expires_at = now + token_ttl;
      } in
      (c.signed_string (hmac "HS256") claims secret, w)

  -- `ParseToken`
  unfoldable pub parse_token : String → String → M W String
  parse_token token secret w =
      (valid_subject (c.parse_with_claims token (key_func secret) (c.now w)), w)

  -- A token for the user, if the password fits.
  unfoldable pub after_check : String → String → Result (Unit {0}) → M W String
  unfolding issue_token
  after_check user_id secret (err _) = fail (sentinel invalid_credentials)
  after_check user_id secret (ok _) = issue_token user_id secret

  -- `Service`: the users and the secret.
  module _ (users : UserRepo W) (jwt_secret : String) where
    -- `Register`
    unfoldable pub register : String → String → M W String
    unfolding hash_password new_id
    register email password = do
      hash ← hash_password password
      id ← new_id c.rand_read
      users.create id email hash
      pure id

    -- `Login`
    unfoldable pub login : String → String → M W String
    unfolding check_password after_check
    login email password w =
        catch (users.get_user_by_email email w)
          (λ u w. after_check u.id jwt_secret (check_password u.password_hash password) w)
          (λ e w. (err (if errors_is e user_not_found then sentinel invalid_credentials else e), w))

    -- `VerifyToken`
    unfoldable pub verify_token : String → M W String
    unfolding parse_token key_func
    verify_token token = parse_token token jwt_secret
