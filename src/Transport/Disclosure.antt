-- ===== src/Transport/Disclosure.antt =====
-- The whole server, from the socket's request to the object store: whose bytes it sends.
use mathlib.Core.Path.{ap₂}
use go_image_service.Base.{
  ℕ, String, ◌<>◌, true, ◌≡◌, ◌≢◌, refl, sym, ◌∙◌, List, [], ◌∷◌, none, some, arith, string_eq,
  ne_of_==, ok, nat_eq,
}
use go_image_service.Transport.Http.{Request, Writer, raw, fresh, get_value, write, set_header}
use go_image_service.Transport.Server.{Server}
use go_image_service.Transport.Handlers.{Handler, images, is_image_size}
use go_image_service.Transport.Middleware.{require_auth, allow_origin}
use go_image_service.Transport.Mux.{find_route}
use go_image_service.Transport.Routing.{find_route-id, serve_of_route}
use go_image_service.Transport.Routes.{routes, serve}
use go_image_service.Transport.Authentication.{
  IsVerified, AuthOutcome, malformed, refused, admitted, as_user, require_auth-AuthOutcome,
}
use go_image_service.Transport.Ownership.{
  ImagesOutcome, bad_id, hidden, failed, bad_size, no_object, served, images-ImagesOutcome,
}
use go_image_service.Transport.Status.{http_error-ne-200, status-allow_origin}

abbrev at_id : String → Request → Request
at_id id r = record r { path_id = id }

module _ {W : Type 0} (s : Server W) (r : Request) (world : W) (id : String) where
  -- The row and the object that stand behind a response with the image's bytes.
  pub record IsDisclosed (w : Writer) (result : Writer × W) : Type 0 where
    pub user_id : String
    pub verified_world : W
    pub verified : IsVerified s (at_id id r) world user_id verified_world
    pub status : String
    pub content_type : String
    pub read_world : W
    pub row : s.reads.get id verified_world ≡ (ok (status, user_id, content_type), read_world)
    pub size : is_image_size (get_value "size" r.query) ≡ true
    pub bytes : List ℕ
    pub got_world : W
    pub object :
        s.objects.get (id <> "/" <> get_value "size" r.query) read_world ≡ (ok bytes, got_world)
    pub response :
        result ≡ (write (raw bytes) (set_header "Content-Type" content_type w), got_world)

  module _ (w : Writer) (unsent : w.status ≡ none) where
    images-IsDisclosed :
        (user_id : String) (world' : W)
        → IsVerified s (at_id id r) world user_id world'
        → (result : Writer × W) → ImagesOutcome s (as_user user_id (at_id id r)) world' w result
        → result.0.status ≡ some 200
        → IsDisclosed w result
    images-IsDisclosed u world' v _ (bad_id _) e =
        absurd (http_error-ne-200 _ _ w unsent (omega arith) e)
    images-IsDisclosed u world' v _ (hidden _ _) e =
        absurd (http_error-ne-200 _ _ w unsent (omega arith) e)
    images-IsDisclosed u world' v _ (failed _ _) e =
        absurd (http_error-ne-200 _ _ w unsent (omega arith) e)
    images-IsDisclosed u world' v _ (bad_size _ _ _ _ _) e =
        absurd (http_error-ne-200 _ _ w unsent (omega arith) e)
    images-IsDisclosed u world' v _ (no_object _ _ _ _ _ _ _ _) e =
        absurd (http_error-ne-200 _ _ w unsent (omega arith) e)
    images-IsDisclosed u world' v _ (served st ct world'' got bytes row size object) e = record {
      user_id = u;
      verified_world = world';
      verified = v;
      status = st;
      content_type = ct;
      read_world = world'';
      row = row;
      size = size;
      bytes = bytes;
      got_world = got;
      object = object;
      response = refl;
    }

    auth-IsDisclosed :
        (result : Writer × W)
        → AuthOutcome s (images s) (at_id id r) w world result
        → result.0.status ≡ some 200
        → IsDisclosed w result
    auth-IsDisclosed _ (malformed _) e = absurd (http_error-ne-200 _ _ w unsent (omega arith) e)
    auth-IsDisclosed _ (refused _ _ _ _ _) e =
        absurd (http_error-ne-200 _ _ w unsent (omega arith) e)
    auth-IsDisclosed _ (admitted u world' v) e =
        images-IsDisclosed u world' v _ (images-ImagesOutcome s (as_user u (at_id id r)) world' w) e

pub get_ne_options : ◌≢◌ {A = String} "GET" "OPTIONS"
unfolding string_eq
get_ne_options = ne_of_== "GET" "OPTIONS" refl

serve_image :
    {W : Type 0} (s : Server W) (web : Handler W) (allowed : List String) (r : Request) (world : W)
    (id : String)
    → r.method ≡ "GET"
    → r.segments ≡ "images" ∷ id ∷ []
    → id ≢ "/"
    → serve s web allowed r fresh world
      ≡ require_auth s
          (images s)
          (at_id id r)
          (allow_origin (get_value "Origin" r.headers) allowed fresh)
          world
serve_image s web allowed r world id get path slash =
    serve_of_route s web allowed r fresh world (λ o. get_ne_options (sym get ∙ o))
      (ap₂ (λ m p. find_route m p (routes s web)) get path ∙ (find_route-id s web id slash).0)

-- `GET /images/{id}` for an id that is not "/", on a fresh response, answers 200 only to a request
-- with a token that the auth service accepts for the very user that the row of `id` names as its owner, and
-- only for one of the three sizes; the response is then the bytes of the object `{id}/{size}`, with
-- the content type of the row.
pub serve_image-IsDisclosed :
    {W : Type 0} (s : Server W) (web : Handler W) (allowed : List String) (r : Request) (world : W)
    (id : String)
    → r.method ≡ "GET"
    → r.segments ≡ "images" ∷ id ∷ []
    → id ≢ "/"
    → (serve s web allowed r fresh world).0.status ≡ some 200
    → IsDisclosed s r world id
        (allow_origin (get_value "Origin" r.headers) allowed fresh)
        (serve s web allowed r fresh world)
serve_image-IsDisclosed s web allowed r world id get path slash e =
    let w = allow_origin (get_value "Origin" r.headers) allowed fresh in
    let reached = serve_image s web allowed r world id get path slash in
    rw reached (
      auth-IsDisclosed s r world id w (status-allow_origin _ allowed fresh) _
        (require_auth-AuthOutcome s (images s) (at_id id r) w world) (rw reached at e))
