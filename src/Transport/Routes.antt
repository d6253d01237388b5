-- ===== src/Transport/Routes.antt =====
-- `Routes` of internal/transport/server.go, and the handler that cmd/httpserver/main.go serves.
-- `web` is the file server of internal/web/web.go.
use go_image_service.Base.{String, List, [], ◌∷◌}
use go_image_service.Transport.Server.{Server}
use go_image_service.Transport.Handlers.{
  Handler, health, register, login, create_upload, complete_upload, images, list_images,
  image_status,
}
use go_image_service.Transport.Middleware.{require_auth, cors}
use go_image_service.Transport.Mux.{Segment, literal, wildcard, any_rest, Route, serve_mux}

abbrev route : {W : Type 0} → String → List Segment → Handler W → Route (Handler W)
route method pattern handler = record { method = method; pattern = pattern; handler = handler }

module _ {W : Type 0} (s : Server W) (web : Handler W) where
  abbrev pub routes : List (Route (Handler W))
  routes =
      route "POST" (literal "register" ∷ []) (register s)
      ∷ route "POST" (literal "login" ∷ []) (login s)
      ∷ route "GET" (literal "health" ∷ []) (health s)
      ∷ route "POST" (literal "uploads" ∷ []) (require_auth s (create_upload s))
      ∷ route "POST" (literal "uploads" ∷ wildcard ∷ literal "complete" ∷ [])
          (require_auth s (complete_upload s))
      ∷ route "GET" (literal "images" ∷ []) (require_auth s (list_images s))
      ∷ route "GET" (literal "images" ∷ wildcard ∷ []) (require_auth s (images s))
      ∷ route "GET" (literal "images" ∷ wildcard ∷ literal "status" ∷ [])
          (require_auth s (image_status s))
      ∷ route "GET" (any_rest ∷ []) web
      ∷ []

  -- The route table behind CORS.
  unfoldable pub serve : List String → Handler W
  unfolding serve_mux cors
  serve allowed = cors allowed (serve_mux routes)
