-- ===== src/Transport/Once.antt =====
-- A response that is sent once, and the ways of answering.
pub mod Answered
pub mod Always
use go_image_service.Base.{
  ℕ, String, ◌<>◌, ◌≡◌, refl, ◌⊎◌, inl, inr, List, [], ◌∷◌, All, Option, none, some, ◌==◌,
  string_eq, nat_eq, len, Bool-cases, Result, ok, err, Err, errors_is, invalid_credentials, catch,
  arith,
}
use go_image_service.Metadata.{Upload}
use go_image_service.Transport.Http.{
  Request, Writer, Chunk, Payload, fresh, get_value, health_response, login_response,
  list_images_response, status_response, set_header, add_header, write, write_header, write_json,
  http_error,
}
use go_image_service.Transport.Server.{Server, Credentials}
use go_image_service.Transport.Handlers.{
  Handler, health, register, login, logged_in, login_failed, create_upload, complete_upload, images,
  list_images, summaries, image_status, when_owner, require_owner,
}
use go_image_service.Transport.Middleware.{require_auth, cors, preflight, allow_origin}
use go_image_service.Transport.Mux.{find_route, run_route, first_match, serve_mux}
use go_image_service.Transport.Routes.{routes, serve}
use go_image_service.Transport.Reachable.{Holds, find_route-Holds}
use go_image_service.Transport.Authentication.{
  AuthOutcome, malformed, refused, admitted, as_user, require_auth-AuthOutcome,
}
use go_image_service.Transport.Registration
use go_image_service.Transport.Registration.{RegisterOutcome, register-RegisterOutcome}
use go_image_service.Transport.Creation
use go_image_service.Transport.Creation.{CreateOutcome, create_upload-CreateOutcome}
use go_image_service.Transport.Ownership
use go_image_service.Transport.Ownership.{
  ImagesOutcome, images-ImagesOutcome, OwnerOutcome, require_owner-OwnerOutcome,
}
use go_image_service.Transport.Granted.{Rest, for_owner}

-- Nothing is sent.
pub record IsUnsent (w : Writer) : Type 0 where
  pub status : w.status ≡ none
  pub body : w.body ≡ []

-- One status is sent, and at most one thing is written.
pub record IsOnce (w : Writer) : Type 0 where
  pub code : ℕ
  pub status : w.status ≡ some code
  pub body : (w.body ≡ []) ⊎ ((chunk : Chunk) × (w.body ≡ chunk ∷ []))

pub set_header-IsUnsent :
    (key value : String) (w : Writer) → IsUnsent w → IsUnsent (set_header key value w)
unfolding set_header
set_header-IsUnsent key value w u = record {
  status = ground (arith, u.status);
  body = ground (arith, u.status, u.body);
}

add_header-IsUnsent :
    (key value : String) (w : Writer) → IsUnsent w → IsUnsent (add_header key value w)
unfolding add_header
add_header-IsUnsent key value w u = record {
  status = ground (arith, u.status);
  body = ground (arith, u.status, u.body);
}

pub write-IsOnce : (chunk : Chunk) (w : Writer) → IsUnsent w → IsOnce (write chunk w)
unfolding write
write-IsOnce chunk w u = record {
  code = 200;
  status = ground (arith, u.status);
  body = inr (chunk, ground (arith, u.status, u.body));
}

pub write_header-IsOnce : (code : ℕ) (w : Writer) → IsUnsent w → IsOnce (write_header code w)
unfolding write_header
write_header-IsOnce code w u = record {
  code = code;
  status = ground (arith, u.status);
  body = inl (ground (arith, u.status, u.body));
}

pub write_json-IsOnce :
    (code : ℕ) (value : Payload) (w : Writer) → IsUnsent w → IsOnce (write_json code value w)
unfolding write_json
write_json-IsOnce code value w u = record {
  code = code;
  status = ground (arith, u.status);
  body = inr (Chunk.json value, ground (arith, u.status, u.body));
}

pub http_error-IsOnce :
    (message : String) (code : ℕ) (w : Writer) → IsUnsent w → IsOnce (http_error message code w)
unfolding http_error
http_error-IsOnce message code w u = record {
  code = code;
  status = rw u.status refl;
  body = inr (Chunk.text (message <> "\n"), rw (u.status, u.body) refl);
}

pub allow_origin-IsUnsent :
    (origin : String) (allowed : List String) → IsUnsent (allow_origin origin allowed fresh)
unfolding allow_origin add_header set_header
allow_origin-IsUnsent origin allowed = record { status = ground arith; body = ground arith }

pub preflight-IsOnce : (w : Writer) → IsUnsent w → IsOnce (preflight w)
unfolding preflight
preflight-IsOnce w u =
    write_header-IsOnce 204 _
      (set_header-IsUnsent _ _ _ (set_header-IsUnsent _ _ _ (set_header-IsUnsent _ _ w u)))
