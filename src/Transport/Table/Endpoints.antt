-- ===== src/Transport/Table/Endpoints.antt =====
-- The endpoints of the API, path by path, and that the multiplexer finds just these.
use mathlib.Core.Path.{subst}
use go_image_service.Base.{
  String, false, ◌≡◌, refl, sym, inl, inr, List, [], ◌∷◌, Option, none, some, ◌==◌, string_eq,
  eq_of_==, Bool-cases, if◌then◌else◌, arith,
}
use go_image_service.Transport.Server.{Server}
use go_image_service.Transport.Handlers.{
  Handler, health, register, login, create_upload, complete_upload, images, list_images,
  image_status,
}
use go_image_service.Transport.Middleware.{require_auth}
use go_image_service.Transport.Mux.{of_method, find_route}
use go_image_service.Transport.Routes.{routes}
use go_image_service.Transport.Table.{matches, scan}
use go_image_service.Transport.Table.Tree.{Agrees, or_none, nothing}
use go_image_service.Transport.Table.Lists.{gets, posts, gets-Agrees, posts-Agrees}

module _ {W : Type 0} (s : Server W) (web : Handler W) where
  -- The POST endpoints, with the id where the path has one. A last segment "/" is the slash at a path's end.
  abbrev pub post_endpoint : List String → Option (Handler W × List String)
  post_endpoint (a ∷ []) =
      if "register" == a
      then some (register s, [])
      else if "login" == a
      then some (login s, [])
      else if "uploads" == a
      then some (require_auth s (create_upload s), [])
      else none
  post_endpoint (a ∷ id ∷ b ∷ []) =
      if "uploads" == a
      then if id == "/"
        then none
        else if "complete" == b
        then some (require_auth s (complete_upload s), id ∷ [])
        else none
      else none
  post_endpoint _ = none

  -- The GET endpoints; every other path leads to the demo page.
  abbrev pub get_endpoint : List String → Option (Handler W × List String)
  get_endpoint [] = none
  get_endpoint (a ∷ []) =
      if "health" == a
      then some (health s, [])
      else if "images" == a
      then some (require_auth s (list_images s), [])
      else some (web, [])
  get_endpoint (a ∷ id ∷ []) =
      if "images" == a
      then if id == "/" then some (web, []) else some (require_auth s (images s), id ∷ [])
      else some (web, [])
  get_endpoint (a ∷ id ∷ b ∷ []) =
      if "images" == a
      then if id == "/"
        then some (web, [])
        else if "status" == b
        then some (require_auth s (image_status s), id ∷ [])
        else some (web, [])
      else some (web, [])
  get_endpoint (_ ∷ _ ∷ _ ∷ _ ∷ _) = some (web, [])

  abbrev pub endpoint : String → List String → Option (Handler W × List String)
  endpoint m path =
      if "POST" == m
      then post_endpoint path
      else if "GET" == m
      then get_endpoint path
      else if m == "HEAD"
      then get_endpoint path
      else none

  scan-posts : (path : List String) → scan path (posts s web) ≡ post_endpoint path
  unfolding scan matches
  scan-posts [] = refl
  scan-posts (a ∷ []) = ground arith
  scan-posts (a ∷ id ∷ []) = ground arith
  scan-posts (a ∷ id ∷ b ∷ []) = ground arith
  scan-posts (a ∷ id ∷ b ∷ c ∷ path) = ground arith

  scan-gets : (path : List String) → scan path (gets s web) ≡ get_endpoint path
  unfolding scan matches
  scan-gets [] = refl
  scan-gets (a ∷ []) = ground arith
  scan-gets (a ∷ id ∷ []) = ground arith
  scan-gets (a ∷ id ∷ b ∷ []) = ground arith
  scan-gets (a ∷ id ∷ b ∷ c ∷ path) = ground arith

  IsAt : String → List String → Type 0
  IsAt m path = find_route m path (routes s web) ≡ endpoint m path

  get-IsAt : (path : List String) → IsAt "GET" path
  unfolding IsAt find_route of_method string_eq Agrees
  get-IsAt path =
      rw (gets-Agrees s web path, scan-gets path) (or_none (Handler W) (get_endpoint path))

  head-IsAt : (path : List String) → IsAt "HEAD" path
  unfolding IsAt find_route of_method string_eq Agrees scan
  head-IsAt path = rw (nothing (Handler W) path, gets-Agrees s web path, scan-gets path) refl

  post-IsAt : (path : List String) → IsAt "POST" path
  unfolding IsAt find_route of_method string_eq Agrees
  post-IsAt path =
      rw (posts-Agrees s web path, scan-posts path) (or_none (Handler W) (post_endpoint path))

  other-IsAt :
      (m : String) (path : List String)
      → ("GET" == m) ≡ false
      → ("POST" == m) ≡ false
      → (m == "HEAD") ≡ false
      → IsAt m path
  unfolding IsAt find_route of_method Agrees scan
  other-IsAt m path g p h = rw (g, p, h, nothing (Handler W) path) refl

  -- For every method and path, the multiplexer finds through its tree just these endpoints, with the id of the path: the open `POST /register`, `POST /login` and `GET /health`; behind `requireAuth`, `POST /uploads`, `POST /uploads/{id}/complete`, `GET /images`, `GET /images/{id}` and `GET /images/{id}/status`; and the demo page for every other path of `GET`. `HEAD` is routed as `GET`, and nothing else is found.
  pub find_route-endpoint :
      (m : String) (path : List String) → find_route m path (routes s web) ≡ endpoint m path
  unfolding IsAt
  find_route-endpoint m path = elim (Bool-cases ("GET" == m)) [
    | inl g ↦ subst (λ m. IsAt m path) (eq_of_== "GET" m g) (get-IsAt path)
    | inr g ↦ elim (Bool-cases ("POST" == m)) [
      | inl p ↦ subst (λ m. IsAt m path) (eq_of_== "POST" m p) (post-IsAt path)
      | inr p ↦ elim (Bool-cases (m == "HEAD")) [
        | inl h ↦ subst (λ m. IsAt m path) (sym (eq_of_== m "HEAD" h)) (head-IsAt path)
        | inr h ↦ other-IsAt m path g p h
      ]
    ]
  ]
