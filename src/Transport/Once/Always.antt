-- ===== src/Transport/Once/Always.antt =====
-- The whole server answers every request once.
use go_image_service.Base.{
  String, ◌==◌, string_eq, Bool-cases, inl, inr, List, [], ◌∷◌, All, Option, none, some,
}
use go_image_service.Transport.Http.{Request, fresh, get_value}
use go_image_service.Transport.Server.{Server}
use go_image_service.Transport.Handlers.{Handler}
use go_image_service.Transport.Middleware.{cors}
use go_image_service.Transport.Mux.{find_route, run_route, first_match, serve_mux}
use go_image_service.Transport.Routes.{routes, serve}
use go_image_service.Transport.Reachable.{Holds, find_route-Holds}
use go_image_service.Transport.Once.{
  IsOnce, set_header-IsUnsent, http_error-IsOnce, allow_origin-IsUnsent, preflight-IsOnce,
}
use go_image_service.Transport.Once.Answered.{
  Answers, Answers-register, Answers-login, Answers-health, Answers-create_upload,
  Answers-complete_upload, Answers-list_images, Answers-images, Answers-image_status,
  Answers-require_auth,
}

module _ {W : Type 0} (s : Server W) (web : Handler W) (page : Answers web) where
  Answers-routes : All (λ route. Answers route.handler) (routes s web)
  Answers-routes = (
    Answers-register s,
    (
      Answers-login s,
      (
        Answers-health s,
        (
          Answers-require_auth s (Answers-create_upload s),
          (
            Answers-require_auth s (Answers-complete_upload s),
            (
              Answers-require_auth s (Answers-list_images s),
              (
                Answers-require_auth s (Answers-images s),
                (Answers-require_auth s (Answers-image_status s), (page, tt)),
              ),
            ),
          ),
        ),
      ),
    ),
  )

  run-go :
      (found : Option (Handler W × List String)) (allow : List String)
      → Holds Answers found
      → Answers (run_route found allow)
  run-go none [] _ = record { at = λ r w world u. http_error-IsOnce _ _ w u }
  run-go none (m ∷ ms) _ = record {
    at = λ r w world u. http_error-IsOnce _ _ _ (set_header-IsUnsent "Allow" _ w u);
  }
  run-go (some (g, ms)) allow a = record { at = λ r. a.at (record r { path_id = first_match ms }) }

  Answers-mux : Answers (serve_mux (routes s web))
  unfolding serve_mux
  Answers-mux = record {
    at = λ r.
        (run-go (find_route r.method r.segments (routes s web)) _
            (find_route-Holds Answers r.method r.segments (routes s web) Answers-routes)).at
          r;
  }

  -- Every request, whatever its method, path, headers and body and whatever the services answer, is answered once:
  -- one status is sent, and at most one thing is written, an error's text, a JSON value or an image's
  -- bytes. The demo page is assumed to answer so.
  pub serve-IsOnce :
      (allowed : List String) (r : Request) (world : W)
      → IsOnce (serve s web allowed r fresh world).0
  unfolding serve cors
  serve-IsOnce allowed r world =
      let u = allow_origin-IsUnsent (get_value "Origin" r.headers) allowed in
      elim (Bool-cases (r.method == "OPTIONS")) [
        | inl asks ↦ rw asks (preflight-IsOnce _ u)
        | inr other ↦ rw other (Answers-mux.at r _ world u)
      ]
