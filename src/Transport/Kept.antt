-- ===== src/Transport/Kept.antt =====
-- Every request is kept within what the services keep.
use mathlib.Core.Path.{subst}
use go_image_service.Base.{
  [], ◌∷◌, String, ◌≡◌, inl, inr, List, Option, none, some, All, ◌==◌, string_eq, nat_eq,
  Bool-cases, Result, M,
}
use go_image_service.Base.Keeps.{Keeps}
use go_image_service.Transport.Http.{Request, Writer, get_value}
use go_image_service.Transport.Server.{Server}
use go_image_service.Transport.Handlers.{Handler, create_upload}
use go_image_service.Transport.Middleware.{require_auth, allow_origin, cors}
use go_image_service.Transport.Mux.{find_route, run_route, serve_mux, first_match}
use go_image_service.Transport.Reachable.{Holds, find_route-Holds}
use go_image_service.Transport.Routes.{routes, serve}
use go_image_service.Transport.Authentication.{
  AuthOutcome, malformed, refused, admitted, as_user, require_auth-AuthOutcome,
}
use go_image_service.Transport.Creation.{
  CreateOutcome, bad_body, no_filename, bad_type, failed, created, create_upload-CreateOutcome,
}
use go_image_service.Transport.Framing.{
  IsUser, IsServing, IsKept, health-IsKept, register-IsKept, login-IsKept, complete_upload-IsKept,
  images-IsKept, image_status-IsKept, list_images-IsKept,
}

module _ {W : Type 0} (s : Server W) (P : W → Type 0) (k : IsServing s P) where
  -- A handler behind the token check.
  record IsKeptFor (h : Handler W) : Type 0 where
    at :
        (user_id : String)
        → IsUser s user_id
        → (r : Request) (w : Writer) (world : W) → P world
        → P (h (as_user user_id r) w world).1

  any-IsKeptFor : {h : Handler W} → IsKept s P h → IsKeptFor h
  any-IsKeptFor kept = record {
    at = λ user_id _ r w world p. kept.at (as_user user_id r) w world p;
  }

  moved : {A : Type 0} {m : M W A} {r : Result A × W} (w : W) → Keeps P m → m w ≡ r → P w → P r.1
  moved w keeps e h = subst (λ x. P x.1) e (keeps.at w h)

  create-go :
      (user_id : String) (user : IsUser s user_id) (r : Request) (w : Writer) (world : W)
      {result : Writer × W}
      → P world
      → CreateOutcome s (as_user user_id r) w world result
      → P result.1
  create-go user_id user r w world h (bad_body _ _) = h
  create-go user_id user r w world h (no_filename _ _ _) = h
  create-go user_id user r w world h (bad_type _ _ _ _) = h
  create-go user_id user r w world h (failed req _ _ _ n t e) =
      moved world (k.negotiate-Keeps req.filename req.content_type user_id n t user) e h
  create-go user_id user r w world h (created req _ _ _ _ n t e) =
      moved world (k.negotiate-Keeps req.filename req.content_type user_id n t user) e h

  create_upload-IsKeptFor : IsKeptFor (create_upload s)
  create_upload-IsKeptFor = record {
    at = λ user_id user r w world h.
        create-go user_id user r w world h
          (create_upload-CreateOutcome s (as_user user_id r) w world);
  }

  auth-go :
      {g : Handler W}
      → IsKeptFor g
      → (r : Request) (w : Writer) (world : W) {result : Writer × W} → P world
      → AuthOutcome s g r w world result
      → P result.1
  auth-go kept r w world h (malformed _) = h
  auth-go kept r w world h (refused token _ _ _ e) = moved world (k.verify-Keeps token) e h
  auth-go kept r w world h (admitted user_id v verified) =
      kept.at user_id
        (record { token = verified.token; before = world; after = v; accepted = verified.accepted })
        r w v (moved world (k.verify-Keeps verified.token) verified.accepted h)

  require_auth-IsKept : {g : Handler W} → IsKeptFor g → IsKept s P (require_auth s g)
  require_auth-IsKept {g} kept = record {
    at = λ r w world h. auth-go kept r w world h (require_auth-AuthOutcome s g r w world);
  }

  module _ (web : Handler W) (page : IsKept s P web) where
    routes-IsKept : All (λ route. IsKept s P route.handler) (routes s web)
    routes-IsKept = (
      register-IsKept s P k,
      (
        login-IsKept s P k,
        (
          health-IsKept s P k,
          (
            require_auth-IsKept create_upload-IsKeptFor,
            (
              require_auth-IsKept (any-IsKeptFor (complete_upload-IsKept s P k)),
              (
                require_auth-IsKept (any-IsKeptFor (list_images-IsKept s P k)),
                (
                  require_auth-IsKept (any-IsKeptFor (images-IsKept s P k)),
                  (require_auth-IsKept (any-IsKeptFor (image_status-IsKept s P k)), (page, tt)),
                ),
              ),
            ),
          ),
        ),
      ),
    )

    run-go :
        (found : Option (Handler W × List String)) (allow : List String)
        → Holds (IsKept s P) found
        → IsKept s P (run_route found allow)
    run-go none [] _ = record { at = λ r w world h. h }
    run-go none (m ∷ ms) _ = record { at = λ r w world h. h }
    run-go (some (g, ms)) allow kept = record {
      at = λ r. kept.at (record r { path_id = first_match ms });
    }

    mux-IsKept : IsKept s P (serve_mux (routes s web))
    unfolding serve_mux
    mux-IsKept = record {
      at = λ r.
          (run-go (find_route r.method r.segments (routes s web)) _
              (find_route-Holds (IsKept s P) r.method r.segments (routes s web) routes-IsKept)).at
            r;
    }

    -- Whatever the request, a property that the calls of the services keep is kept by the server.
    pub serve-IsKept : (allowed : List String) → IsKept s P (serve s web allowed)
    unfolding serve cors
    serve-IsKept allowed = record {
      at = λ r w world h. elim (Bool-cases (r.method == "OPTIONS")) [
        | inl e ↦ rw e h
        | inr e ↦
            rw e (mux-IsKept.at r (allow_origin (get_value "Origin" r.headers) allowed w) world h)
      ];
    }
