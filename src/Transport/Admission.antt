-- ===== src/Transport/Admission.antt =====
-- A success of a route behind the token check.
use go_image_service.Base.{ℕ, String, ◌≡◌, ◌≢◌, refl, List, [], some}
use go_image_service.Transport.Http.{Request, Writer, fresh, get_value}
use go_image_service.Transport.Server.{Server}
use go_image_service.Transport.Handlers.{Handler}
use go_image_service.Transport.Middleware.{require_auth, allow_origin}
use go_image_service.Transport.Mux.{find_route}
use go_image_service.Transport.Routes.{routes, serve}
use go_image_service.Transport.Routing.{serve_of_route}
use go_image_service.Transport.Authentication.{
  IsVerified, AuthOutcome, malformed, refused, admitted, as_user, require_auth-AuthOutcome,
}
use go_image_service.Transport.Status.{http_error-ne, status-allow_origin}

abbrev pub without_id : Request → Request
without_id r = record r { path_id = "" }

module _ {W : Type 0} (s : Server W) (web : Handler W) (allowed : List String) (r : Request)
    (world : W) (h : Handler W) where
  abbrev start : Writer
  start = allow_origin (get_value "Origin" r.headers) allowed fresh

  -- The token was accepted, and the handler answered for its user.
  pub record IsAdmitted (result : Writer × W) : Type 0 where
    pub user_id : String
    pub verified_world : W
    pub verified : IsVerified s (without_id r) world user_id verified_world
    pub answer :
        result
        ≡ h
            (as_user user_id (without_id r))
            (allow_origin (get_value "Origin" r.headers) allowed fresh)
            verified_world

  auth-IsAdmitted :
      (code : ℕ)
      → 401 ≢ code
      → {result : Writer × W} → AuthOutcome s h (without_id r) start world result
      → result.0.status ≡ some code
      → IsAdmitted result
  auth-IsAdmitted code other (malformed _) e =
      absurd (http_error-ne _ _ code start (status-allow_origin _ allowed fresh) other e)
  auth-IsAdmitted code other (refused _ _ _ _ _) e =
      absurd (http_error-ne _ _ code start (status-allow_origin _ allowed fresh) other e)
  auth-IsAdmitted code other (admitted u v h) e = record {
    user_id = u;
    verified_world = v;
    verified = h;
    answer = refl;
  }

  pub serve-IsAdmitted :
      (code : ℕ)
      → 401 ≢ code
      → r.method ≢ "OPTIONS"
      → find_route r.method r.segments (routes s web) ≡ some (require_auth s h, [])
      → (serve s web allowed r fresh world).0.status ≡ some code
      → IsAdmitted (serve s web allowed r fresh world)
  serve-IsAdmitted code other method found e =
      let reached = serve_of_route s web allowed r fresh world method found in
      rw reached (
        auth-IsAdmitted code other (require_auth-AuthOutcome s h (without_id r) start world)
          (rw reached at e))
