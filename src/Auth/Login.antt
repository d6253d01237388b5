-- ===== src/Auth/Login.antt =====
-- The outcomes of `Login`.
use go_image_service.Base.{
  String, true, false, ◌≡◌, refl, Result, ok, err, Err, sentinel, invalid_credentials,
  user_not_found, errors_is, Bool-cases, inl, inr,
}
use go_image_service.User.{User}
use go_image_service.Auth.{Crypto, UserRepo, login, after_check, issue_token}

module _ {W : Type 0} (c : Crypto W) (users : UserRepo W) (secret email password : String)
    (w : W) where
  -- No account has the email, or the password does not fit the account's hash.
  pub data Rejected (w' : W) : Type 0 where
    no_account :
        (e : Err)
        → users.get_user_by_email email w ≡ (err e, w')
        → errors_is e user_not_found ≡ true
        → Rejected w'
    wrong_password :
        (u : User) (e : Err)
        → users.get_user_by_email email w ≡ (ok u, w')
        → c.compare_hash_and_password u.password_hash password ≡ err e
        → Rejected w'

  pub data LoginOutcome : Result String × W → Type 0 where
    rejected : (w' : W) → Rejected w' → LoginOutcome (err (sentinel invalid_credentials), w')
    broken :
        (e : Err) (w' : W)
        → users.get_user_by_email email w ≡ (err e, w')
        → errors_is e user_not_found ≡ false
        → LoginOutcome (err e, w')
    accepted :
        (u : User) (w' : W)
        → users.get_user_by_email email w ≡ (ok u, w')
        → c.compare_hash_and_password u.password_hash password ≡ ok tt
        → LoginOutcome (issue_token c u.id secret w')

  after_check-LoginOutcome :
      (u : User) (w' : W) (check : Result (Unit {0}))
      → users.get_user_by_email email w ≡ (ok u, w')
      → c.compare_hash_and_password u.password_hash password ≡ check
      → LoginOutcome (after_check c u.id secret check w')
  unfolding after_check
  after_check-LoginOutcome u w' (ok _) got fits = accepted u w' got fits
  after_check-LoginOutcome u w' (err e) got fits = rejected w' (wrong_password u e got fits)

  login-go :
      (found : Result User × W)
      → users.get_user_by_email email w ≡ found
      → LoginOutcome (login c users secret email password w)
  login-go (ok u, w') e =
      unfold login in
      rw e (
        after_check-LoginOutcome u w' (c.compare_hash_and_password u.password_hash password) e refl)
  login-go (err x, w') e =
      unfold login in
      elim (Bool-cases (errors_is x user_not_found)) [
        | inl gone ↦ rw (e, gone) (rejected w' (no_account x e gone))
        | inr other ↦ rw (e, other) (broken x w' e other)
      ]

  -- Login issues a token for the account of the email if the password fits its hash; an unknown email
  -- and a wrong password give the same error, and another failure of the lookup is passed on.
  pub login-LoginOutcome : LoginOutcome (login c users secret email password w)
  login-LoginOutcome = login-go (users.get_user_by_email email w) refl

  -- The converse for the two rejections.
  pub login-Rejected :
      {w' : W}
      → Rejected w'
      → login c users secret email password w ≡ (err (sentinel invalid_credentials), w')
  unfolding login
  login-Rejected (no_account e got gone) = rw (got, gone)
  login-Rejected (wrong_password u e got differs) = rw (got, differs)
