-- ===== src/Cmd/Accounts.antt =====
-- cmd/authservice: what the service that `main` serves does to the users table.
use go_image_service.Base.{
  ℕ, ◌+◌, ◌<◌, String, ◌≡◌, refl, sym, ap, ◌∙◌, string_eq, ==_refl, some, Result, ok, err, Err, M,
  pure, fail, catch,
}
use go_image_service.Config.{Config, listen_addr}
use go_image_service.Postgres.{Postgres}
use go_image_service.User.Table.{Users, SameUsers, Added, account, IsUserTable}
use go_image_service.User.Refinement.{users-refines}
use go_image_service.Auth.{Method, Crypto, token_ttl, default_cost}
use go_image_service.Auth.Tokens.{IsCrypto}
use go_image_service.Auth.Accounts.{IsUsers, register-Added, register-taken, verify-login}
use go_image_service.AuthGrpc.{AuthService, server, server_register, server_login, server_verify}
use go_image_service.Cmd.Wiring.{user_repo}
use go_image_service.Cmd.Services.{auth_main}
use go_image_service.Cmd.Startup.{after_fatal}

err_ne_ok : {A : Type 0} {x : Err} {a : A} → ◌≡◌ {A = Result A} (err x) (ok a) → ⊥
err_ne_ok p = cc

module _ {W A : Type 0} (g : Err → Err) where
  -- A call that passes a success on and translates an error.
  abbrev pub translated : Result A × W → Result A × W
  translated r = catch r pure (λ e. fail (g e))

  pub passed : (r : Result A × W) {a : A} {w' : W} → translated r ≡ (ok a, w') → r ≡ (ok a, w')
  passed (ok _, _) h = h
  passed (err e, w) h = absurd (err_ne_ok (ap (λ r. r.0) h))

  failed : (r : Result A × W) → (x : Err) × (r.0 ≡ err x) → (x : Err) × ((translated r).0 ≡ err x)
  failed (ok _, _) (x, e) = absurd (err_ne_ok (sym e))
  failed (err e, w) _ = (g e, refl)

-- What the service relies on: the table, and a source of hashes and random bytes that leaves it alone.
pub record IsAuthApart {W : Type 0} (c : Crypto W) (fold : String → String) (find : W → Users)
    (pool : Postgres W) : Type 0 where
  pub table : IsUserTable pool fold find
  pub hash_same :
      (password : String) (cost : ℕ) (w : W)
      → SameUsers (find w) (find (c.generate_from_password password cost w).1)
  pub rand_same : (n : ℕ) (w : W) → SameUsers (find w) (find (c.rand_read n w).1)

module _ {W Listener : Type 0} (listen : String → M W Listener) (c : Crypto W)
    (pool_new : String → M W (Postgres W)) (ping : Postgres W → M W (Unit {0})) where
  -- The pool that the service was made over.
  record IsOver (cfg : Config) (w : W) (svc : AuthService W) : Type 0 where
    pool : Postgres W
    after : W
    connected : pool_new cfg.database_url w ≡ (ok pool, after)
    same_service : svc ≡ server c (user_repo pool) cfg.jwt_secret

  auth_main-IsOver :
      (env : String → String) (cfg : Config) (w w' : W) (lis : Listener) (svc : AuthService W)
      → auth_main listen c pool_new ping env cfg w ≡ (ok (lis, svc), w')
      → IsOver cfg w svc
  unfolding auth_main
  auth_main-IsOver env cfg w w' lis svc h =
      let (pool, v, connected, a) = after_fatal "" _ (pool_new cfg.database_url) w h in
      let (_, v', _, b) = after_fatal "cannot reach postgres: " _ (ping pool) v a in
      let (lis', _, _, d) =
        after_fatal "failed to listen: " _ (listen (listen_addr env "50052")) v' b in
      record { pool = pool; after = v; connected = connected; same_service = cc (d) }

  module _ (fold : String → String) (find : W → Users) {method_of : String → Method}
      (crypto : IsCrypto c method_of) where
    repository_laws :
        (pool : Postgres W) → IsAuthApart c fold find pool → IsUsers c (user_repo pool) fold find
    repository_laws pool quiet = record {
      create_lem = λ id email hash w. (users-refines pool fold find quiet.table w id email hash).0;
      find_lem = λ email w. (users-refines pool fold find quiet.table w "" email "").1;
      hash_same = quiet.hash_same;
      rand_same = quiet.rand_same;
    }

    module _ (pool : Postgres W) (quiet : IsAuthApart c fold find pool) (secret : String) where
      abbrev svc : AuthService W
      svc = server c (user_repo pool) secret

      account_of :
          (email password id : String) (u u' : W)
          → svc.register email password u ≡ (ok id, u')
          → (again other token : String) (v v' later : W) → fold again ≡ fold email
          → find v (fold email) ≡ find u' (fold email)
          → svc.login again password v ≡ (ok token, v')
          → c.now later < c.now v' + token_ttl
          → ((hash : String) × Added fold (account id email hash) (find u) (find u'))
            × (svc.verify token later ≡ (ok id, later))
            × ((x : Err) × ((svc.register again other v).0 ≡ err x))
      unfolding server_register server_login server_verify
      account_of email password id u u' joined again other token v v' later alike kept logged_in
            soon =
          let users = user_repo pool in
          let lawful = repository_laws pool quiet in
          let (hash, _, made, added) =
            register-Added c users secret fold find lawful email password id u u'
              (passed _ _ joined) in
          let there : find v (fold again) ≡ some (account id email hash) =
            ap (find v) alike ∙ kept ∙ added.after (fold email) ∙ rw (==_refl (fold email)) refl in
          let fits = crypto.compare-generate password default_cost u _ hash made in
          let named =
            verify-login c users secret fold find lawful crypto (account id email hash) again
              password token v v' later there fits (passed _ _ logged_in) soon in
          (
            (hash, added),
            rw named refl,
            failed _ _ (
                register-taken c users secret fold find lawful again other (account id email hash) v
                  there),
          )

    -- For the service that `main` of the auth service serves: if a registration answered an id, a later login
    -- under the same email, as the database compares emails, and with the same password answered a token, the
    -- account has not changed in between, and the token is verified within a day of the login, then
    -- the registration has added to the users table exactly an account with this id and email, neither of which
    -- was taken; the verification answers the id; and a further registration under the email is
    -- refused. The pool is assumed to do to the table what its statements say, the hashing and the
    -- random source to leave it alone, and the crypto library to be lawful.
    pub auth_main-accounts :
        (env : String → String) (cfg : Config) (w w' : W) (lis : Listener) (svc : AuthService W)
        → auth_main listen c pool_new ping env cfg w ≡ (ok (lis, svc), w')
        → ((pool : Postgres W) (v : W)
            → pool_new cfg.database_url w ≡ (ok pool, v)
            → IsAuthApart c fold find pool)
        → (email password id : String) (u u' : W) → svc.register email password u ≡ (ok id, u')
        → (again other token : String) (v v' later : W) → fold again ≡ fold email
        → find v (fold email) ≡ find u' (fold email)
        → svc.login again password v ≡ (ok token, v')
        → c.now later < c.now v' + token_ttl
        → ((hash : String) × Added fold (account id email hash) (find u) (find u'))
          × (svc.verify token later ≡ (ok id, later))
          × ((x : Err) × ((svc.register again other v).0 ≡ err x))
    auth_main-accounts env cfg w w' lis svc up laws email password id u u' joined again other token
          v v' later alike kept logged_in soon =
        let over = auth_main-IsOver env cfg w w' lis svc up in
        let quiet = laws over.pool over.after over.connected in
        let same = over.same_service in
        rw same (
          account_of over.pool quiet cfg.jwt_secret email password id u u' (rw same at joined) again
            other token v v' later alike kept (rw same at logged_in) soon)
