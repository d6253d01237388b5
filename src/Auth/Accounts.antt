-- ===== src/Auth/Accounts.antt =====
-- The auth service over a users table: what registrations and logins do to it and learn from it.
use mathlib.Core.Path.{subst}
use go_image_service.Base.{
  ℕ, ◌+◌, ◌<◌, String, ◌≡◌, refl, sym, ap, ◌∙◌, Option, none, some, Result, ok, err, Err,
}
use go_image_service.Base.Inversion.{bind-IsBound}
use go_image_service.Id.{new_id}
use go_image_service.Id.Drawn.{new_id-Keeps}
use go_image_service.User.{User}
use go_image_service.User.Table.{
  Users, SameUsers, Added, account, CreateSpec, FindSpec, done, undone, unconfirmed, found, absent,
  unavailable,
}
use go_image_service.Auth.{
  Method, Crypto, UserRepo, register, login, verify_token, hash_password, issue_token, token_ttl,
  default_cost,
}
use go_image_service.Auth.Tokens.{IsCrypto, parse-issue}

-- What the service relies on in its repository, and in the crypto library for the table.
pub record IsUsers {W : Type 0} (c : Crypto W) (users : UserRepo W) (fold : String → String)
    (find : W → Users) : Type 0 where
  pub create_lem :
      (id email hash : String) (w : W)
      → CreateSpec fold
          (account id email hash)
          (find w)
          (find (users.create id email hash w).1)
          (users.create id email hash w).0
  pub find_lem :
      (email : String) (w : W) → FindSpec fold (find w) email (users.get_user_by_email email w).0
  pub hash_same :
      (password : String) (cost : ℕ) (w : W)
      → SameUsers (find w) (find (c.generate_from_password password cost w).1)
  pub rand_same : (n : ℕ) (w : W) → SameUsers (find w) (find (c.rand_read n w).1)

created :
    {fold : String → String} {u : User} {t t' : Users} {r : Result (Unit {0})}
    → CreateSpec fold u t t' r
    → r ≡ ok tt
    → Added fold u t t'
created (done added) e = added
created (undone x same) e = absurd (no x e)
  where
    no : (x : Err) → ◌≡◌ {A = Result (Unit {0})} (err x) (ok tt) → ⊥
    no x e = cc
created (unconfirmed x added) e = added

some_ne_none : {u : User} → ◌≡◌ {A = Option User} (some u) none → ⊥
some_ne_none e = cc

some_inj : {u v : User} → ◌≡◌ {A = Option User} (some u) (some v) → u ≡ v
some_inj e = cc

err_ne_ok :
    {W : Type 0} {x : Err} {a : String} {u v : W}
    → ◌≡◌ {A = Result String × W} (err x, u) (ok a, v)
    → ⊥
err_ne_ok e = cc

Added-before :
    {fold : String → String} {u : User} {t t' t'' : Users}
    → SameUsers t t'
    → Added fold u t' t''
    → Added fold u t t''
Added-before {fold} {u} same added = record {
  free = sym (same (fold u.email)) ∙ added.free;
  fresh_id = λ k v e. added.fresh_id k v (same k ∙ e);
  after = λ k. rw (← same k) (added.after k);
}

module _ {W : Type 0} (c : Crypto W) (users : UserRepo W) (secret : String) (fold : String → String)
    (find : W → Users) (lawful : IsUsers c users fold find) where
  -- A registration that answers an id has added an account with this id and a hash of the password.
  pub register-Added :
      (email password id : String) (w w' : W)
      → register c users secret email password w ≡ (ok id, w')
      → (hash : String) × (v : W) × (c.generate_from_password password default_cost w
          ≡ (ok hash, v))
        × Added fold (account id email hash) (find w) (find w')
  unfolding register
  register-Added email password id w w' e =
      let hashed = bind-IsBound (hash_password c password) _ w e in
      let named = bind-IsBound (new_id c.rand_read) _ hashed.world hashed.second in
      let stored =
        bind-IsBound (users.create named.value email hashed.value) _ named.world named.second in
      let made : c.generate_from_password password default_cost w
          ≡ (ok hashed.value, hashed.world) =
        unfold hash_password in hashed.first in
      let drawn : SameUsers (find w) (find hashed.world) =
        subst (λ (x : Result String × W). SameUsers (find w) (find x.1)) made
          (lawful.hash_same password default_cost w) in
      let quiet : SameUsers (find w) (find named.world) =
        subst (λ (x : Result String × W). SameUsers (find w) (find x.1)) named.first
          ((new_id-Keeps {P = λ v. SameUsers (find w) (find v)} c.rand_read
              (record { at = λ v same k. lawful.rand_same 16 v k ∙ same k })).at
            hashed.world drawn) in
      let added =
        created (lawful.create_lem named.value email hashed.value named.world)
          (ap (λ r. r.0) stored.first) in
      let same_id : named.value ≡ id = cc (stored.second) in
      let end : (users.create named.value email hashed.value named.world).1 ≡ w' =
        cc (stored.first, stored.second) in
      (
        hashed.value,
        hashed.world,
        made,
        Added-before quiet (
            subst (λ n. Added fold (account n email hashed.value) (find named.world) (find w'))
              same_id
              (subst
                (λ v.
                  Added fold (account named.value email hashed.value) (find named.world) (find v))
                end added)),
      )

  -- A second registration under the same email, as the database compares it, fails while the account is there.
  pub register-taken :
      (again password : String) (u : User) (w : W)
      → find w (fold again) ≡ some u
      → (x : Err) × ((register c users secret again password w).0 ≡ err x)
  register-taken again password u w there = refused _ refl
    where
      refused :
          (r : Result String × W)
          → register c users secret again password w ≡ r
          → (x : Err) × ((register c users secret again password w).0 ≡ err x)
      refused (err x, v) e = (x, ap (λ r. r.0) e)
      refused (ok id, v) e =
          let (hash, _, _, added) = register-Added again password id w v e in
          absurd (some_ne_none (sym there ∙ added.free))

  module _ {method_of : String → Method} (crypto : IsCrypto c method_of) where
    stamped : (id : String) (w : W) → c.now w ≡ c.now (issue_token c id secret w).1
    unfolding issue_token
    stamped id w = refl

    issued :
        (u : User) (again password token : String) (v v' : W)
        → find v (fold again) ≡ some u
        → c.compare_hash_and_password u.password_hash password ≡ ok tt
        → (r : Result User × W) → users.get_user_by_email again v ≡ r
        → FindSpec fold (find v) again r.0
        → login c users secret again password v ≡ (ok token, v')
        → (w : W) × (issue_token c u.id secret w ≡ (ok token, v'))
    unfolding login
    issued u again password token v v' there fits (ok u', w) e (found _ here) h =
        let same : u' ≡ u = some_inj (sym here ∙ there) in (w, sym (rw (e, same, fits)) ∙ h)
    issued u again password token v v' there fits (err _, w) e (absent gone) h =
        absurd (some_ne_none (sym there ∙ gone))
    issued u again password token v v' there fits (err x, w) e (unavailable _ other _) h =
        absurd (err_ne_ok (rw (e, other) at h))

    -- Who logs in to an account with a password that fits its hash has a token that names the account for a day.
    pub verify-login :
        (u : User) (again password token : String) (v v' later : W)
        → find v (fold again) ≡ some u
        → c.compare_hash_and_password u.password_hash password ≡ ok tt
        → login c users secret again password v ≡ (ok token, v')
        → c.now later < c.now v' + token_ttl
        → verify_token c users secret token later ≡ (ok u.id, later)
    unfolding verify_token
    verify-login u again password token v v' later there fits h soon =
        let (w, made) =
          issued u again password token v v' there fits _ refl (lawful.find_lem again v) h in
        (parse-issue c crypto u.id secret token w later (ap (λ r. r.0) made)).0
          (rw (stamped u.id w, ap (λ r. c.now r.1) made) soon)
