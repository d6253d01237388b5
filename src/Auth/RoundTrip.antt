-- ===== src/Auth/RoundTrip.antt =====
-- Who has registered can log in, and the token names him.
use go_image_service.Base.{◌+◌, ◌<◌, String, ◌≡◌, refl, sym, ap, ◌∙◌, ok}
use go_image_service.Base.Inversion.{bind-IsBound}
use go_image_service.Id.{new_id}
use go_image_service.Auth.{
  Method, Crypto, UserRepo, register, login, verify_token, hash_password, issue_token, token_ttl,
  default_cost,
}
use go_image_service.Auth.Tokens.{IsCrypto, parse-issue}

-- What the code relies on in the users table: a row that was created is found by its email.
pub record IsUserRepo {W : Type 0} (users : UserRepo W) : Type 0 where
  pub get-create :
      (id email hash : String) (w w' : W)
      → users.create id email hash w ≡ (ok tt, w')
      → (w'' : W) × (users.get_user_by_email email w'
          ≡ (ok (record { id = id; email = email; password_hash = hash }), w''))

module _ {W : Type 0} (c : Crypto W) (users : UserRepo W) (secret : String) where
  -- The hash that was made and the row that was stored with it.
  record IsRegistered (email password id : String) (w w' : W) : Type 0 where
    hash : String
    hashed_world : W
    before : W
    hashed : c.generate_from_password password default_cost w ≡ (ok hash, hashed_world)
    stored : users.create id email hash before ≡ (ok tt, w')

  register-IsRegistered :
      (email password id : String) (w w' : W)
      → register c users secret email password w ≡ (ok id, w')
      → IsRegistered email password id w w'
  unfolding register
  register-IsRegistered email password id w w' e =
      let hashed = bind-IsBound (hash_password c password) _ w e in
      let named = bind-IsBound (new_id c.rand_read) _ hashed.world hashed.second in
      let created =
        bind-IsBound (users.create named.value email hashed.value) _ named.world named.second in
      record {
        hash = hashed.value;
        hashed_world = hashed.world;
        before = named.world;
        hashed = hashed.first;
        stored = cc (created.first, created.second);
      }

module _ {W : Type 0} (c : Crypto W) {method_of : String → Method} (lawful : IsCrypto c method_of)
    (users : UserRepo W) (table : IsUserRepo users) (secret : String) where
  -- After a registration with an email and a password, a login with the same two issues a token for the
  -- new user.
  pub login-register :
      (email password id : String) (w w' : W)
      → register c users secret email password w ≡ (ok id, w')
      → (w'' : W) × (login c users secret email password w' ≡ issue_token c id secret w'')
  unfolding login
  login-register email password id w w' e =
      let done = register-IsRegistered c users secret email password id w w' e in
      let (w'', found) = table.get-create id email done.hash done.before w' done.stored in
      (w'', rw (found, lawful.compare-generate password default_cost w _ done.hash done.hashed))

  issue_token-world : (id : String) (w : W) → c.now w ≡ c.now (issue_token c id secret w).1
  unfolding issue_token
  issue_token-world id w = refl

  -- If a registration returned an id, a login with the same email and password right after it returned
  -- a token, and the token is verified within a day of that login, then the verification answers this
  -- id; for a lawful crypto library and a users table that finds a row it has stored.
  pub verify-register :
      (email password id token : String) (w w' w'' later : W)
      → register c users secret email password w ≡ (ok id, w')
      → login c users secret email password w' ≡ (ok token, w'')
      → c.now later < c.now w'' + token_ttl
      → verify_token c users secret token later ≡ (ok id, later)
  unfolding verify_token
  verify-register email password id token w w' w'' later registered logged_in fresh =
      let (before, issued) = login-register email password id w w' registered in
      let same = sym issued ∙ logged_in in
      (parse-issue c lawful id secret token before later (ap (λ r. r.0) same)).0
        (rw (issue_token-world id before, ap (λ r. c.now r.1) same) fresh)
