-- ===== src/Transport/Middleware.antt =====
-- internal/transport/middleware.go: the token check and CORS.
use go_image_service.Base.{
  String, Bool, false, ◌&&◌, ◌||◌, not, List, [], ◌∷◌, Option, none, some, ◌==◌, string_eq,
  if◌then◌else◌, cut_prefix, catch,
}
use go_image_service.Transport.Http.{
  Writer, get_value, set_header, add_header, write_header, http_error,
}
use go_image_service.Transport.Server.{Server}
use go_image_service.Transport.Handlers.{Handler}

module _ {W : Type 0} (s : Server W) (next : Handler W) where
  unfoldable pub verified : String → Handler W
  verified token r w world =
      catch (s.auth.verify token world)
        (λ user_id world. next (record r { user_id = some user_id }) w world)
        (λ _ world. (http_error "invalid or expired token" 401 w, world))

  -- The token of the header, if it has the prefix "Bearer " and is not empty.
  unfoldable pub with_token : Option String → Handler W
  with_token none r w world = (http_error "missing or malformed Authorization header" 401 w, world)
  with_token (some token) r w world =
      if token == ""
      then (http_error "missing or malformed Authorization header" 401 w, world)
      else verified token r w world

  -- `requireAuth`
  unfoldable pub require_auth : Handler W
  unfolding with_token verified
  require_auth r w world =
      with_token (cut_prefix "Bearer " (get_value "Authorization" r.headers)) r w world

-- `originAllowed`
unfoldable pub origin_allowed : String → List String → Bool
origin_allowed origin [] = false
origin_allowed origin (a ∷ allowed) = (a == "*" || a == origin) || origin_allowed origin allowed

-- The response with the origin allowed, if it is.
unfoldable pub allow_origin : String → List String → Writer → Writer
unfolding origin_allowed
allow_origin origin allowed w =
    if not (origin == "") && origin_allowed origin allowed
    then add_header "Vary" "Origin" (set_header "Access-Control-Allow-Origin" origin w)
    else w

unfoldable pub preflight : Writer → Writer
preflight w = write_header 204 (
    set_header "Access-Control-Max-Age" "600" (
      set_header "Access-Control-Allow-Headers" "Authorization, Content-Type"
        (set_header "Access-Control-Allow-Methods" "GET, POST, OPTIONS" w)))

-- `CORS`
unfoldable pub cors : {W : Type 0} → List String → Handler W → Handler W
unfolding allow_origin preflight
cors allowed next r w world =
    let w' = allow_origin (get_value "Origin" r.headers) allowed w in
    if r.method == "OPTIONS" then (preflight w', world) else next r w' world
