-- ===== src/Transport/Granted.antt =====
-- What stands behind a success of a handler that looks the owner up first.
use go_image_service.Base.{
  String, ◌≡◌, ◌≢◌, refl, List, [], ◌∷◌, Option, none, some, if◌then◌else◌, not, ◌==◌, nat_eq, len,
  ok, arith, Bool-cases, inl, inr,
}
use go_image_service.Transport.Http.{Request, Writer, fresh, get_value, http_error}
use go_image_service.Transport.Server.{Server}
use go_image_service.Transport.Handlers.{Handler, require_owner, when_owner}
use go_image_service.Transport.Middleware.{require_auth, allow_origin}
use go_image_service.Transport.Mux.{find_route}
use go_image_service.Transport.Routes.{routes, serve}
use go_image_service.Transport.Routing.{serve_of_route}
use go_image_service.Transport.Authentication.{
  IsVerified, AuthOutcome, malformed, refused, admitted, as_user, require_auth-AuthOutcome,
}
use go_image_service.Transport.Ownership.{
  OwnerOutcome, owned, hidden, failed, require_owner-OwnerOutcome,
}
use go_image_service.Transport.Status.{http_error-ne-200, status-allow_origin}

abbrev pub with_id : String → Request → Request
with_id id r = record r { path_id = id }

-- What such a handler does for the owner of an upload with this status and content type.
abbrev pub Rest : Type 0 → Type 0
Rest W = Request → String → String → Writer → W → Writer × W

module _ {W : Type 0} (s : Server W) (rest : Rest W) where
  -- The handler around it.
  abbrev pub for_owner : Handler W
  for_owner r w world =
      if not (len r.path_id == 32)
      then (http_error "Invalid ID" 400 w, world)
      else when_owner (require_owner s r w r.path_id world) (rest r)

  module _ (r : Request) (world : W) (id : String) (w : Writer) where
    -- The token was accepted for the user of the row, and the rest answered.
    pub record IsGranted (result : Writer × W) : Type 0 where
      pub user_id : String
      pub verified_world : W
      pub verified : IsVerified s (with_id id r) world user_id verified_world
      pub status : String
      pub content_type : String
      pub read_world : W
      pub row : s.reads.get id verified_world ≡ (ok (status, user_id, content_type), read_world)
      pub answer : result ≡ rest (as_user user_id (with_id id r)) status content_type w read_world

    module _ (unsent : w.status ≡ none) where
      owner-IsGranted :
          (u : String) (v : W)
          → IsVerified s (with_id id r) world u v
          → {o : (Option (String × String) × Writer) × W}
          → OwnerOutcome s (as_user u (with_id id r)) id v w o
          → (when_owner o (rest (as_user u (with_id id r)))).0.status ≡ some 200
          → IsGranted (when_owner o (rest (as_user u (with_id id r))))
      owner-IsGranted u v h (owned st ct v' row) e = record {
        user_id = u;
        verified_world = v;
        verified = h;
        status = st;
        content_type = ct;
        read_world = v';
        row = row;
        answer = refl;
      }
      owner-IsGranted u v h (hidden _ _) e = absurd (http_error-ne-200 _ _ w unsent (omega arith) e)
      owner-IsGranted u v h (failed _ _) e = absurd (http_error-ne-200 _ _ w unsent (omega arith) e)

      for_owner-IsGranted :
          (u : String) (v : W)
          → IsVerified s (with_id id r) world u v
          → (for_owner (as_user u (with_id id r)) w v).0.status ≡ some 200
          → IsGranted (for_owner (as_user u (with_id id r)) w v)
      for_owner-IsGranted u v h e = elim (Bool-cases (len id == 32)) [
        | inl long ↦ rw long (
            owner-IsGranted u v h (require_owner-OwnerOutcome s (as_user u (with_id id r)) id v w)
              (rw long at e))
        | inr short ↦
            absurd (http_error-ne-200 "Invalid ID" 400 w unsent (omega arith) (rw short at e))
      ]

      auth-IsGranted :
          {result : Writer × W}
          → AuthOutcome s for_owner (with_id id r) w world result
          → result.0.status ≡ some 200
          → IsGranted result
      auth-IsGranted (malformed _) e = absurd (http_error-ne-200 _ _ w unsent (omega arith) e)
      auth-IsGranted (refused _ _ _ _ _) e = absurd (http_error-ne-200 _ _ w unsent (omega arith) e)
      auth-IsGranted (admitted u v h) e = for_owner-IsGranted u v h e

  -- A success of a route to such a handler, behind the token check.
  pub serve-IsGranted :
      (web : Handler W) (allowed : List String) (r : Request) (world : W) (id : String)
      → r.method ≢ "OPTIONS"
      → find_route r.method r.segments (routes s web) ≡ some (require_auth s for_owner, id ∷ [])
      → (serve s web allowed r fresh world).0.status ≡ some 200
      → IsGranted r world id
          (allow_origin (get_value "Origin" r.headers) allowed fresh)
          (serve s web allowed r fresh world)
  serve-IsGranted web allowed r world id method reached e =
      let w = allow_origin (get_value "Origin" r.headers) allowed fresh in
      let same = serve_of_route s web allowed r fresh world method reached in
      rw same (
        auth-IsGranted r world id w (status-allow_origin _ allowed fresh)
          (require_auth-AuthOutcome s for_owner (with_id id r) w world) (rw same at e))
