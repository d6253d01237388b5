-- ===== src/Transport/Entry.antt =====
-- The two public endpoints by which a user comes in: what stands behind their successes.
use mathlib.Core.Path.{ap₂}
use go_image_service.Base.{
  ℕ, String, ◌≡◌, ◌≢◌, refl, sym, ◌∙◌, List, [], ◌∷◌, none, some, Result, ok, err, Err, arith,
  string_eq, ne_of_==, errors_is, invalid_credentials, Bool-cases, inl, inr,
}
use go_image_service.Transport.Http.{
  Request, Writer, json, Payload, fresh, get_value, write_json, register_response, login_response,
  set_header, add_header,
}
use go_image_service.Transport.Server.{Server, Credentials}
use go_image_service.Transport.Handlers.{Handler, login, logged_in, login_failed}
use go_image_service.Transport.Middleware.{allow_origin}
use go_image_service.Transport.Routes.{serve}
use go_image_service.Transport.Routing.{find_route-fixed, serve_of_route}
use go_image_service.Transport.Mux.{find_route}
use go_image_service.Transport.Registration.{
  RegisterOutcome, bad_body, blank, short, failed, created, register-RegisterOutcome,
}
use go_image_service.Transport.Status.{http_error-ne, status-allow_origin}
use go_image_service.Transport.Routes.{routes}
use go_image_service.Transport.Admission.{without_id}

pub body-write_json :
    (code : ℕ) (value : Payload) (w : Writer)
    → w.status ≡ none
    → w.body ≡ []
    → (write_json code value w).body ≡ json value ∷ []
unfolding write_json
body-write_json code value w h empty = ground (arith, h, empty)

pub body-allow_origin :
    (origin : String) (allowed : List String) → (allow_origin origin allowed fresh).body ≡ []
unfolding allow_origin add_header set_header
body-allow_origin origin allowed = ground arith

post_ne_options : ◌≢◌ {A = String} "POST" "OPTIONS"
unfolding string_eq
post_ne_options = ne_of_== "POST" "OPTIONS" refl

module _ {W : Type 0} (s : Server W) (r : Request) (world : W) where
  -- The registration that was answered.
  pub record IsJoined (result : Writer × W) : Type 0 where
    pub req : Credentials
    pub decoded : s.decode.credentials r.body ≡ ok req
    pub id : String
    pub registered : s.auth.register req.email req.password world ≡ (ok id, result.1)
    pub body : result.0.body ≡ json (register_response id) ∷ []

  -- The login that was answered.
  pub record IsLoggedIn (result : Writer × W) : Type 0 where
    pub req : Credentials
    pub decoded : s.decode.credentials r.body ≡ ok req
    pub token : String
    pub logged_in : s.auth.login req.email req.password world ≡ (ok token, result.1)
    pub body : result.0.body ≡ json (login_response token) ∷ []

module _ {W : Type 0} (s : Server W) (world : W) (w : Writer) (unsent : w.status ≡ none)
    (empty : w.body ≡ []) where
  outcome-IsJoined :
      (r : Request) {result : Writer × W}
      → RegisterOutcome s r w world result
      → result.0.status ≡ some 201
      → IsJoined s r world result
  outcome-IsJoined r (bad_body _ _) e = absurd (http_error-ne _ _ 201 w unsent (omega arith) e)
  outcome-IsJoined r (blank _ _ _) e = absurd (http_error-ne _ _ 201 w unsent (omega arith) e)
  outcome-IsJoined r (short _ _ _) e = absurd (http_error-ne _ _ 201 w unsent (omega arith) e)
  outcome-IsJoined r (failed _ _ _ _ _ _) e =
      absurd (http_error-ne _ _ 201 w unsent (omega arith) e)
  outcome-IsJoined r (created req id v d _ h) e = record {
    req = req;
    decoded = d;
    id = id;
    registered = h;
    body = body-write_json 201 (register_response id) w unsent empty;
  }

  login_failed-ne : (x : Err) (v : W) → (login_failed x w v).0.status ≢ some 200
  unfolding login_failed
  login_failed-ne x v = elim (Bool-cases (errors_is x invalid_credentials)) [
    | inl bad ↦ rw bad (http_error-ne _ _ 200 w unsent (omega arith))
    | inr other ↦ rw other (http_error-ne _ _ 200 w unsent (omega arith))
  ]

  asked-IsLoggedIn :
      (r : Request) (req : Credentials)
      → s.decode.credentials r.body ≡ ok req
      → (answer : Result String × W) → s.auth.login req.email req.password world ≡ answer
      → (logged_in s req r w world).0.status ≡ some 200
      → IsLoggedIn s r world (logged_in s req r w world)
  unfolding logged_in
  asked-IsLoggedIn r req d (ok token, v) asked e = rw asked (record {
    req = req;
    decoded = d;
    token = token;
    logged_in = asked;
    body = body-write_json 200 (login_response token) w unsent empty;
  })
  asked-IsLoggedIn r req d (err x, v) asked e = absurd (login_failed-ne x v (rw asked at e))

  login-IsLoggedIn :
      (r : Request) (body : Result Credentials)
      → s.decode.credentials r.body ≡ body
      → (login s r w world).0.status ≡ some 200
      → IsLoggedIn s r world (login s r w world)
  login-IsLoggedIn r (ok req) d e =
      unfold login in rw d (asked-IsLoggedIn r req d _ refl (unfold login in rw d at e))
  login-IsLoggedIn r (err x) d e =
      absurd (
        http_error-ne "invalid JSON body" 400 200 w unsent (omega arith)
          (unfold login in rw d at e))

module _ {W : Type 0} (s : Server W) (web : Handler W) (allowed : List String) (r : Request)
    (world : W) (post : r.method ≡ "POST") where
  abbrev start : Writer
  start = allow_origin (get_value "Origin" r.headers) allowed fresh

  reached :
      {h : Handler W} {path : List String}
      → r.segments ≡ path
      → find_route "POST" path (routes s web) ≡ some (h, [])
      → serve s web allowed r fresh world ≡ h (without_id r) start world
  reached path found =
      serve_of_route s web allowed r fresh world (λ o. post_ne_options (sym post ∙ o))
        (ap₂ (λ m p. find_route m p (routes s web)) post path ∙ found)

  -- A 201 of `POST /register` is a registration, and answers its id.
  pub serve-IsJoined :
      r.segments ≡ "register" ∷ []
      → (serve s web allowed r fresh world).0.status ≡ some 201
      → IsJoined s (without_id r) world (serve s web allowed r fresh world)
  serve-IsJoined path e =
      let same = reached path (find_route-fixed s web).0 in
      rw same (
        outcome-IsJoined s world start (status-allow_origin _ allowed fresh)
          (body-allow_origin _ allowed) (without_id r)
          (register-RegisterOutcome s (without_id r) start world) (rw same at e))

  -- A 200 of `POST /login` is a login, and answers its token.
  pub serve-IsLoggedIn :
      r.segments ≡ "login" ∷ []
      → (serve s web allowed r fresh world).0.status ≡ some 200
      → IsLoggedIn s (without_id r) world (serve s web allowed r fresh world)
  serve-IsLoggedIn path e =
      let same = reached path (find_route-fixed s web).1 in
      rw same (
        login-IsLoggedIn s world start (status-allow_origin _ allowed fresh)
          (body-allow_origin _ allowed) (without_id r) _ refl (rw same at e))
