-- ===== src/Transport/Routing.antt =====
-- Which handler each request reaches.
use go_image_service.Base.{
  String, true, false, ◌≡◌, ◌≢◌, refl, ap, List, [], ◌∷◌, some, ◌==◌, string_eq, ==_ne,
}
use go_image_service.Transport.Http.{Request, Writer, get_value}
use go_image_service.Transport.Server.{Server}
use go_image_service.Transport.Handlers.{
  Handler, health, register, login, create_upload, complete_upload, images, list_images,
  image_status,
}
use go_image_service.Transport.Middleware.{require_auth, allow_origin}
use go_image_service.Transport.Mux.{
  Segment, literal, wildcard, of_method, after_literal, find_route, allowed_methods, run_route,
  first_match,
}
use go_image_service.Transport.Routes.{routes, serve}

words :
    (◌==◌ {A = String} "status" "status" ≡ true)
    × (◌==◌ {A = String} "complete" "complete" ≡ true)
    × (◌==◌ {A = String} "status" "/" ≡ false)
    × (◌==◌ {A = String} "complete" "/" ≡ false)
unfolding string_eq
words = (refl, refl, refl, refl)

module _ {W : Type 0} (s : Server W) (web : Handler W) where
  abbrev get_images : List (List Segment × Handler W)
  get_images =
      ([], require_auth s (list_images s))
      ∷ (wildcard ∷ [], require_auth s (images s))
      ∷ (wildcard ∷ literal "status" ∷ [], require_auth s (image_status s))
      ∷ []

  after_images : after_literal "images" (of_method "GET" (routes s web)) ≡ get_images
  unfolding after_literal of_method string_eq
  after_images = refl

  abbrev post_uploads : List (List Segment × Handler W)
  post_uploads =
      ([], require_auth s (create_upload s))
      ∷ (wildcard ∷ literal "complete" ∷ [], require_auth s (complete_upload s))
      ∷ []

  after_uploads : after_literal "uploads" (of_method "POST" (routes s web)) ≡ post_uploads
  unfolding after_literal of_method string_eq
  after_uploads = refl

  -- For every id but "/", the three paths with an id lead to their handlers behind the token check, with
  -- the id as the match.
  pub find_route-id :
      (id : String)
      → id ≢ "/"
      → (find_route "GET" ("images" ∷ id ∷ []) (routes s web)
          ≡ some (require_auth s (images s), id ∷ []))
        × (find_route "GET" ("images" ∷ id ∷ "status" ∷ []) (routes s web)
            ≡ some (require_auth s (image_status s), id ∷ []))
        × (find_route "POST" ("uploads" ∷ id ∷ "complete" ∷ []) (routes s web)
            ≡ some (require_auth s (complete_upload s), id ∷ []))
  unfolding find_route
  find_route-id id h = (
    rw (after_images, ==_ne id "/" h),
    rw (after_images, ==_ne id "/" h, words.0, words.2),
    rw (after_uploads, ==_ne id "/" h, words.1, words.3),
  )

  -- The routes without one.
  pub find_route-fixed :
      (find_route "POST" ("register" ∷ []) (routes s web) ≡ some (register s, []))
      × (find_route "POST" ("login" ∷ []) (routes s web) ≡ some (login s, []))
      × (find_route "GET" ("health" ∷ []) (routes s web) ≡ some (health s, []))
      × (find_route "POST" ("uploads" ∷ []) (routes s web)
          ≡ some (require_auth s (create_upload s), []))
      × (find_route "GET" ("images" ∷ []) (routes s web)
          ≡ some (require_auth s (list_images s), []))
      × (find_route "GET" ("/" ∷ []) (routes s web) ≡ some (web, []))
  unfolding find_route string_eq
  find_route-fixed = (refl, refl, refl, refl, refl, refl)

  -- A request that is no preflight reaches the handler of its route, with CORS headers.
  pub serve_of_route :
      (allowed : List String) (r : Request) (w : Writer) (world : W) {h : Handler W}
      {ms : List String}
      → r.method ≢ "OPTIONS"
      → find_route r.method r.segments (routes s web) ≡ some (h, ms)
      → serve s web allowed r w world
        ≡ h
            (record r { path_id = first_match ms })
            (allow_origin (get_value "Origin" r.headers) allowed w)
            world
  unfolding serve
  serve_of_route allowed r w world other found = rw (==_ne r.method "OPTIONS" other) (
      ap
        (λ f.
          run_route f (allowed_methods ("GET" ∷ "HEAD" ∷ "POST" ∷ []) r.segments (routes s web)) r
            (allow_origin (get_value "Origin" r.headers) allowed w) world)
        found)
