-- ===== src/Transport/Authentication.antt =====
-- What `requireAuth` answers, and which handler it runs for whom.
use go_image_service.Base.{
  String, ◌<>◌, ◌≡◌, ◌≢◌, refl, ap, ◌∙◌, inl, inr, Option, none, some, ◌==◌, string_eq, ==_ne,
  eq_of_==, ne_of_==, Err, Result, ok, err, Bool-cases, cut_prefix,
}
use go_image_service.Base.TextLaws.{cut_prefix-append, cut_prefix-eq-some}
use go_image_service.Transport.Http.{Request, Writer, get_value, http_error}
use go_image_service.Transport.Server.{Server}
use go_image_service.Transport.Handlers.{Handler}
use go_image_service.Transport.Middleware.{with_token, verified, require_auth}

-- The request that a handler receives for a user.
abbrev pub as_user : String → Request → Request
as_user user_id r = record r { user_id = some user_id }

abbrev pub authorization : Request → String
authorization r = get_value "Authorization" r.headers

module _ {W : Type 0} (s : Server W) (r : Request) (world : W) where
  -- The header carries a token that the auth service accepts for the user.
  pub record IsVerified (user_id : String) (world' : W) : Type 0 where
    pub token : String
    pub header : authorization r ≡ "Bearer " <> token
    pub present : token ≢ ""
    pub accepted : s.auth.verify token world ≡ (ok user_id, world')

module _ {W : Type 0} (s : Server W) (next : Handler W) (r : Request) (w : Writer) (world : W) where
  -- What `require_auth` may do.
  pub data AuthOutcome : Writer × W → Type 0 where
    malformed :
        ((token : String) → authorization r ≡ "Bearer " <> token → token ≡ "")
        → AuthOutcome (http_error "missing or malformed Authorization header" 401 w, world)
    refused :
        (token : String) (e : Err) (world' : W)
        → authorization r ≡ "Bearer " <> token
        → s.auth.verify token world ≡ (err e, world')
        → AuthOutcome (http_error "invalid or expired token" 401 w, world')
    admitted :
        (user_id : String) (world' : W)
        → IsVerified s r world user_id world'
        → AuthOutcome (next (as_user user_id r) w world')

  verified-AuthOutcome :
      (token : String) (answer : Result String × W)
      → authorization r ≡ "Bearer " <> token
      → token ≢ ""
      → s.auth.verify token world ≡ answer
      → AuthOutcome (verified s next token r w world)
  unfolding verified
  verified-AuthOutcome token (ok user_id, world') h p e =
      rw e
        (admitted user_id world' (record { token = token; header = h; present = p; accepted = e }))
  verified-AuthOutcome token (err x, world') h p e = rw e (refused token x world' h e)

  no_token :
      (token : String)
      → authorization r ≡ "Bearer " <> token
      → cut_prefix "Bearer " (authorization r) ≢ none
  no_token token h e = cc (ap (cut_prefix "Bearer ") h, cut_prefix-append "Bearer " token)

  cut_once :
      (other token : String)
      → authorization r ≡ "Bearer " <> other
      → cut_prefix "Bearer " (authorization r) ≡ some token
      → other ≡ token
  cut_once other token h e = cc (ap (cut_prefix "Bearer ") h, cut_prefix-append "Bearer " other)

  with_token-AuthOutcome :
      (token : Option String)
      → cut_prefix "Bearer " (authorization r) ≡ token
      → AuthOutcome (with_token s next token r w world)
  unfolding with_token
  with_token-AuthOutcome none e = malformed (λ token h. absurd (no_token token h e))
  with_token-AuthOutcome (some token) e = elim (Bool-cases (token == "")) [
    | inl blank ↦
        rw blank (malformed (λ other h. cut_once other token h e ∙ eq_of_== token "" blank))
    | inr present ↦ rw present (
        verified-AuthOutcome token (s.auth.verify token world)
          (cut_prefix-eq-some "Bearer " (authorization r) e) (ne_of_== token "" present) refl)
  ]

  -- The wrapped handler runs only for a token that the auth service accepts, and then as its user;
  -- every other request gets 401.
  pub require_auth-AuthOutcome : AuthOutcome (require_auth s next r w world)
  unfolding require_auth
  require_auth-AuthOutcome = with_token-AuthOutcome (cut_prefix "Bearer " (authorization r)) refl

  -- A request with an accepted token reaches the handler, as the token's user.
  pub require_auth-IsVerified :
      {user_id : String} {world' : W}
      → IsVerified s r world user_id world'
      → require_auth s next r w world ≡ next (as_user user_id r) w world'
  unfolding require_auth
  require_auth-IsVerified v =
      rw (v.header, cut_prefix-append)
        (unfold with_token in rw (==_ne _ _ v.present, verified, v.accepted))
