-- ===== src/Tests/Gateway.antt =====
-- A server whose auth service accepts the token "t1" for ann, and who owns every upload.
use go_image_service.Base.{
  ℕ, suc, String, List, [], ◌∷◌, none, some, ◌≡◌, ◌≢◌, refl, true, ◌==◌, string_eq, nat_eq, len,
  cut_prefix, Result, ok, err, message, M, if◌then◌else◌, ne_of_==,
}
use go_image_service.Transport.Once.{IsOnce, write-IsOnce}
use go_image_service.Transport.Once.Answered.{Answers}
use go_image_service.Transport.Once.Always.{serve-IsOnce}
use go_image_service.Transport.Http.{text, write, set_header, Request, fresh, get_value}
use go_image_service.Transport.Server.{Server}
use go_image_service.Transport.Handlers.{
  Handler, register, create_upload, images, complete_upload, image_status,
}
use go_image_service.Transport.Middleware.{require_auth, allow_origin, cors}
use go_image_service.Transport.Mux.{find_route}
use go_image_service.Transport.Routes.{routes, serve}
use go_image_service.Transport.Authentication.{AuthOutcome, require_auth-AuthOutcome}
use go_image_service.Transport.Ownership.{
  foreign, not_found, ImagesOutcome, images-ImagesOutcome, Hidden-alike,
}
use go_image_service.Transport.Creation.{CreateOutcome, create_upload-CreateOutcome}
use go_image_service.Transport.Registration.{RegisterOutcome, register-RegisterOutcome}
use go_image_service.Transport.Cors.{CorsOutcome, cors-CorsOutcome}
use go_image_service.Transport.Table.Endpoints.{endpoint, find_route-endpoint}
use go_image_service.Transport.Gateway.{ServeOutcome, serve-ServeOutcome}

abbrev an_id : String
an_id = "0123456789abcdef0123456789abcdef"

-- The world counts the calls.
abbrev called : {A : Type 0} → Result A → M ℕ A
called r n = (r, suc n)

abbrev demo_server : Server ℕ
demo_server = record {
  auth = record {
    register = λ _ _. called (ok "ann");
    login = λ _ _. called (ok "t1");
    verify = λ token. called (if token == "t1" then ok "ann" else err (message "no"));
  };
  uploads = record {
    negotiate = λ _ _ _. called (ok (an_id, "url"));
    complete = λ _. called (ok tt);
  };
  reads = record {
    get = λ _. called (ok ("complete", "ann", "image/png"));
    list = λ _. called (ok []);
  };
  objects = record { get = λ _. called (ok (137 ∷ 80 ∷ [])) };
  decode = record {
    credentials = λ _. ok (record { email = "a@b"; password = "secret" });
    create_upload = λ _. ok (record { filename = "f.png"; content_type = "image/png" });
  };
}

abbrev demo_web : Handler ℕ
demo_web r w world = (w, world)

abbrev origins : List String
origins = "http://localhost:3000" ∷ []

abbrev image_request : Request
image_request = record {
  method = "GET";
  segments = "images" ∷ an_id ∷ [];
  headers = ("Authorization", "Bearer t1") ∷ [];
  query = ("size", "12x12") ∷ [];
  body = "";
  path_id = an_id;
  user_id = none;
}

abbrev by_bob : Request
by_bob = record image_request { user_id = some "bob" }

id_ne_slash : an_id ≢ "/"
unfolding string_eq
id_ne_slash = ne_of_== an_id "/" refl

get_ne_options : ◌≢◌ {A = String} "GET" "OPTIONS"
unfolding string_eq
get_ne_options = ne_of_== "GET" "OPTIONS" refl

answers_200 : (serve demo_server demo_web origins image_request fresh 0).0.status ≡ some 200
unfolding serve string_eq nat_eq find_route require_auth cut_prefix get_value images len write
    set_header
answers_200 = refl

serve-ServeOutcome_example :
    ServeOutcome demo_server demo_web image_request
      (allow_origin (get_value "Origin" image_request.headers) origins fresh)
      0
      (serve demo_server demo_web origins image_request fresh 0)
serve-ServeOutcome_example =
    serve-ServeOutcome demo_server demo_web origins image_request fresh 0 get_ne_options

id_len : (len an_id == 32) ≡ true
unfolding nat_eq len
id_len = refl

not_bob : ◌≢◌ {A = String} "ann" "bob"
unfolding string_eq
not_bob = ne_of_== "ann" "bob" refl

Hidden-alike_example :
    (images demo_server by_bob fresh 0 ≡ (not_found fresh, 1))
    × (complete_upload demo_server by_bob fresh 0 ≡ (not_found fresh, 1))
    × (image_status demo_server by_bob fresh 0 ≡ (not_found fresh, 1))
Hidden-alike_example =
    Hidden-alike demo_server by_bob fresh 0 1 id_len
      (foreign "complete" "ann" "image/png" refl not_bob)

images-ImagesOutcome_example :
    ImagesOutcome demo_server by_bob 0 fresh (images demo_server by_bob fresh 0)
images-ImagesOutcome_example = images-ImagesOutcome demo_server by_bob 0 fresh

require_auth-AuthOutcome_example :
    AuthOutcome demo_server
      (images demo_server)
      image_request
      fresh
      0
      (require_auth demo_server (images demo_server) image_request fresh 0)
require_auth-AuthOutcome_example =
    require_auth-AuthOutcome demo_server (images demo_server) image_request fresh 0

create_upload-CreateOutcome_example :
    CreateOutcome demo_server image_request fresh 0
      (create_upload demo_server image_request fresh 0)
create_upload-CreateOutcome_example = create_upload-CreateOutcome demo_server image_request fresh 0

register-RegisterOutcome_example :
    RegisterOutcome demo_server image_request fresh 0 (register demo_server image_request fresh 0)
register-RegisterOutcome_example = register-RegisterOutcome demo_server image_request fresh 0

abbrev options_request : Request
options_request = record image_request {
  method = "OPTIONS";
  headers = ("Origin", "http://localhost:3000") ∷ [];
}

cors-CorsOutcome_example :
    CorsOutcome origins
      (images demo_server)
      options_request
      0
      (cors origins (images demo_server) options_request fresh 0)
cors-CorsOutcome_example = cors-CorsOutcome origins (images demo_server) options_request 0

find_route-endpoint_example :
    find_route "HEAD" ("images" ∷ an_id ∷ []) (routes demo_server demo_web)
    ≡ endpoint demo_server demo_web "HEAD" ("images" ∷ an_id ∷ [])
find_route-endpoint_example =
    find_route-endpoint demo_server demo_web "HEAD" ("images" ∷ an_id ∷ [])

-- A page that is sent.
abbrev sent_web : Handler ℕ
sent_web r w world = (write (text "page") w, world)

sent_web-Answers : Answers sent_web
sent_web-Answers = record { at = λ r w world u. write-IsOnce (text "page") w u }

serve-IsOnce_example : IsOnce (serve demo_server sent_web origins image_request fresh 0).0
serve-IsOnce_example = serve-IsOnce demo_server sent_web sent_web-Answers origins image_request 0
