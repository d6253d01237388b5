-- ===== src/Auth/Tokens.antt =====
-- How long a token is good, and which signing methods are accepted.
use go_image_service.Base.{
  ℕ, ◌+◌, ◌≤◌, ◌<◌, String, ◌<>◌, true, ◌≡◌, refl, ap, ◌∙◌, Result, ok, err, Err, message,
}
use go_image_service.Auth.{
  Method, hmac, other, Claims, Crypto, issue_token, parse_token, key_func, valid_subject, token_ttl,
}

-- What the code relies on in the JWT and bcrypt libraries.
pub record IsCrypto {W : Type 0} (c : Crypto W) (method_of : String → Method) : Type 0 where
  -- A token that was signed is accepted with the same key before it expires,
  pub parse-signed :
      (m : Method) (claims : Claims) (key token : String) (f : Method → Result String) (now : ℕ)
      → c.signed_string m claims key ≡ ok token
      → f m ≡ ok key
      → now < claims.expires_at
      → c.parse_with_claims token f now ≡ ok (claims, true)
  -- and refused afterwards.
  pub parse-expired :
      (m : Method) (claims : Claims) (key token : String) (f : Method → Result String) (now : ℕ)
      → c.signed_string m claims key ≡ ok token
      → f m ≡ ok key
      → claims.expires_at ≤ now
      → (e : Err) × (c.parse_with_claims token f now ≡ err e)
  -- The key function is asked for the method of the token's header, and its error refuses the token.
  pub parse-refused :
      (token : String) (f : Method → Result String) (now : ℕ) (x : Err)
      → f (method_of token) ≡ err x
      → (e : Err) × (c.parse_with_claims token f now ≡ err e)
  -- A password fits the hash that was made of it.
  pub compare-generate :
      (password : String) (cost : ℕ) (w w' : W) (hash : String)
      → c.generate_from_password password cost w ≡ (ok hash, w')
      → c.compare_hash_and_password hash password ≡ ok tt

module _ {W : Type 0} (c : Crypto W) {method_of : String → Method}
    (lawful : IsCrypto c method_of) where
  -- A token that was issued names its user at every time less than a day after its issue, and is
  -- refused from then on; for a lawful crypto library.
  pub parse-issue :
      (user_id secret token : String) (w w' : W)
      → (issue_token c user_id secret w).0 ≡ ok token
      → (c.now w' < c.now w + token_ttl → parse_token c token secret w' ≡ (ok user_id, w'))
        × (c.now w + token_ttl ≤ c.now w'
            → (e : Err) × (parse_token c token secret w' ≡ (err e, w')))
  unfolding issue_token parse_token
  parse-issue user_id secret token w w' signed = (
    λ fresh.
        ap (λ p. (valid_subject p, w'))
          (lawful.parse-signed (hmac "HS256") _ secret token (key_func secret) (c.now w') signed key
            fresh),
    λ late.
        let (e, p) =
          lawful.parse-expired (hmac "HS256") _ secret token (key_func secret) (c.now w') signed key
            late in
        (e, ap (λ p. (valid_subject p, w')) p),
  )
    where
      key : key_func secret (hmac "HS256") ≡ ok secret
      key = unfold key_func in refl

  -- A token whose header names a method outside the HMAC family, "none" included, is refused
  -- whatever it claims; for a lawful crypto library.
  pub parse_token-other :
      (token secret name : String) (w : W)
      → method_of token ≡ other name
      → (e : Err) × (parse_token c token secret w ≡ (err e, w))
  unfolding parse_token
  parse_token-other token secret name w m =
      let (e, p) =
        lawful.parse-refused token (key_func secret) (c.now w) _
          (ap (key_func secret) m ∙ no_key) in
      (e, ap (λ p. (valid_subject p, w)) p)
    where
      no_key : key_func secret (other name) ≡ err (message ("unexpected signing method: " <> name))
      no_key = unfold key_func in refl
