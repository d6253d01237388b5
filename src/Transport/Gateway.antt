-- ===== src/Transport/Gateway.antt =====
-- Every way into the server: no route, a public endpoint, or the token check.
use go_image_service.Base.{
  String, ◌≡◌, ◌≢◌, refl, ◌⊎◌, inl, inr, List, Option, none, some, string_eq, ==_ne, All,
}
use go_image_service.Transport.Http.{Request, Writer, get_value}
use go_image_service.Transport.Server.{Server}
use go_image_service.Transport.Handlers.{
  Handler, health, register, login, create_upload, complete_upload, images, list_images,
  image_status,
}
use go_image_service.Transport.Middleware.{require_auth, allow_origin}
use go_image_service.Transport.Mux.{find_route, run_route, no_route, serve_mux}
use go_image_service.Transport.Reachable.{Holds, find_route-Holds}
use go_image_service.Transport.Routes.{routes, serve}
use go_image_service.Transport.Authentication.{AuthOutcome, require_auth-AuthOutcome}

module _ {W : Type 0} (s : Server W) (web : Handler W) where
  -- The endpoints that need no token: registration, login, the health check and the demo page.
  abbrev pub IsPublic : Handler W → Type 0
  IsPublic h = ((h ≡ register s) ⊎ (h ≡ login s)) ⊎ ((h ≡ health s) ⊎ (h ≡ web))

  abbrev IsGuarded : Handler W → Type 0
  IsGuarded h = IsPublic h ⊎ ((g : Handler W) × (h ≡ require_auth s g))

  routes-IsGuarded : All (λ route. IsGuarded route.handler) (routes s web)
  routes-IsGuarded = (
    inl (inl (inl refl)),
    (
      inl (inl (inr refl)),
      (
        inl (inr (inl refl)),
        (
          inr (create_upload s, refl),
          (
            inr (complete_upload s, refl),
            (
              inr (list_images s, refl),
              (inr (images s, refl), (inr (image_status s, refl), (inl (inr (inr refl)), tt))),
            ),
          ),
        ),
      ),
    ),
  )

  module _ (r : Request) (w : Writer) (world : W) where
    -- What the multiplexer may do with a request.
    pub data ServeOutcome : Writer × W → Type 0 where
      unrouted : (allow : List String) → ServeOutcome (no_route allow r w world)
      open_to_all :
          (h : Handler W) (id : String)
          → IsPublic h
          → ServeOutcome (h (record r { path_id = id }) w world)
      guarded :
          (g : Handler W) (id : String) (result : Writer × W)
          → AuthOutcome s g (record r { path_id = id }) w world result
          → ServeOutcome result

    run_route-ServeOutcome :
        (found : Option (Handler W × List String)) (allow : List String)
        → Holds IsGuarded found
        → ServeOutcome (run_route found allow r w world)
    run_route-ServeOutcome none allow _ = unrouted allow
    run_route-ServeOutcome (some (h, ms)) allow (inl p) = open_to_all h _ p
    run_route-ServeOutcome (some (h, ms)) allow (inr (g, e)) =
        rw e (guarded g _ _ (require_auth-AuthOutcome s g _ w world))

    -- A request that is no preflight is either answered by 404 or 405, or it reaches one of the four
    -- public endpoints, or it goes through the token check, which answers 401 unless the auth
    -- service accepts its token.
    pub serve_mux-ServeOutcome : ServeOutcome (serve_mux (routes s web) r w world)
    unfolding serve_mux
    serve_mux-ServeOutcome =
        run_route-ServeOutcome (find_route r.method r.segments (routes s web)) _
          (find_route-Holds IsGuarded r.method r.segments (routes s web) routes-IsGuarded)

  -- A request that is no preflight is either answered by 404 or 405, or it reaches one of the four
  -- public endpoints (registration, login, health check, demo page), or it goes through the token check.
  pub serve-ServeOutcome :
      (allowed : List String) (r : Request) (w : Writer) (world : W)
      → r.method ≢ "OPTIONS"
      → ServeOutcome r
          (allow_origin (get_value "Origin" r.headers) allowed w)
          world
          (serve s web allowed r w world)
  unfolding serve
  serve-ServeOutcome allowed r w world h =
      rw (==_ne r.method "OPTIONS" h) (serve_mux-ServeOutcome r _ world)
