-- ===== src/Transport/Once/Answered.antt =====
-- Every request is answered once: no handler goes on after it has answered.
use go_image_service.Base.{
  String, ◌≡◌, refl, inl, inr, List, Option, ◌==◌, string_eq, nat_eq, len, Bool-cases, Result, ok,
  err, Err, errors_is, invalid_credentials, catch,
}
use go_image_service.Metadata.{Upload}
use go_image_service.Transport.Http.{
  Request, Writer, login_response, list_images_response, status_response, write_header, write_json,
  http_error,
}
use go_image_service.Transport.Server.{Server, Credentials}
use go_image_service.Transport.Handlers.{
  Handler, health, register, login, logged_in, login_failed, create_upload, complete_upload, images,
  list_images, summaries, image_status, when_owner,
}
use go_image_service.Transport.Middleware.{require_auth}
use go_image_service.Transport.Authentication.{
  AuthOutcome, malformed, refused, admitted, as_user, require_auth-AuthOutcome,
}
use go_image_service.Transport.Registration
use go_image_service.Transport.Registration.{RegisterOutcome, register-RegisterOutcome}
use go_image_service.Transport.Creation
use go_image_service.Transport.Creation.{CreateOutcome, create_upload-CreateOutcome}
use go_image_service.Transport.Ownership
use go_image_service.Transport.Ownership.{
  ImagesOutcome, images-ImagesOutcome, OwnerOutcome, require_owner-OwnerOutcome,
}
use go_image_service.Transport.Granted.{Rest, for_owner}
use go_image_service.Transport.Once.{
  IsUnsent, IsOnce, set_header-IsUnsent, write-IsOnce, write_header-IsOnce, write_json-IsOnce,
  http_error-IsOnce,
}

pub record Answers {W : Type 0} (h : Handler W) : Type 0 where
  pub at : (r : Request) (w : Writer) (world : W) → IsUnsent w → IsOnce (h r w world).0

module _ {W : Type 0} (s : Server W) where
  register-go :
      (r : Request) (w : Writer) (world : W) {result : Writer × W}
      → IsUnsent w
      → RegisterOutcome s r w world result
      → IsOnce result.0
  register-go r w world u (Registration.bad_body _ _) = http_error-IsOnce _ _ w u
  register-go r w world u (Registration.blank _ _ _) = http_error-IsOnce _ _ w u
  register-go r w world u (Registration.short _ _ _) = http_error-IsOnce _ _ w u
  register-go r w world u (Registration.failed _ _ _ _ _ _) = http_error-IsOnce _ _ w u
  register-go r w world u (Registration.created _ _ _ _ _ _) = write_json-IsOnce _ _ w u

  pub Answers-register : Answers (register s)
  Answers-register = record {
    at = λ r w world u. register-go r w world u (register-RegisterOutcome s r w world);
  }

  login_failed-IsOnce :
      (e : Err) (w : Writer) (world : W) → IsUnsent w → IsOnce (login_failed e w world).0
  unfolding login_failed
  login_failed-IsOnce e w world u = elim (Bool-cases (errors_is e invalid_credentials)) [
    | inl bad ↦ rw bad (http_error-IsOnce _ _ w u)
    | inr other ↦ rw other (http_error-IsOnce _ _ w u)
  ]

  answer-go :
      (w : Writer)
      → IsUnsent w
      → (answer : Result String × W)
      → IsOnce
          (catch {X = Writer × W} answer
            (λ token world. (write_json 200 (login_response token) w, world))
            (λ e world. login_failed e w world)).0
  answer-go w u (ok token, _) = write_json-IsOnce _ _ w u
  answer-go w u (err e, world) = login_failed-IsOnce e w world u

  login-go :
      (r : Request) (w : Writer) (world : W)
      → IsUnsent w
      → (body : Result Credentials) → s.decode.credentials r.body ≡ body
      → IsOnce (login s r w world).0
  login-go r w world u (ok req) e =
      unfold login logged_in in rw e (answer-go w u (s.auth.login req.email req.password world))
  login-go r w world u (err x) e = unfold login in rw e (http_error-IsOnce _ _ w u)

  pub Answers-login : Answers (login s)
  Answers-login = record { at = λ r w world u. login-go r w world u _ refl }

  pub Answers-health : Answers (health s)
  unfolding health
  Answers-health = record { at = λ r w world u. write_json-IsOnce _ _ w u }

  create-go :
      (r : Request) (w : Writer) (world : W) {result : Writer × W}
      → IsUnsent w
      → CreateOutcome s r w world result
      → IsOnce result.0
  create-go r w world u (Creation.bad_body _ _) = http_error-IsOnce _ _ w u
  create-go r w world u (Creation.no_filename _ _ _) = http_error-IsOnce _ _ w u
  create-go r w world u (Creation.bad_type _ _ _ _) = http_error-IsOnce _ _ w u
  create-go r w world u (Creation.failed _ _ _ _ _ _ _) = http_error-IsOnce _ _ w u
  create-go r w world u (Creation.created _ _ _ _ _ _ _ _) = write_json-IsOnce _ _ w u

  pub Answers-create_upload : Answers (create_upload s)
  Answers-create_upload = record {
    at = λ r w world u. create-go r w world u (create_upload-CreateOutcome s r w world);
  }

  images-go :
      (r : Request) (w : Writer) (world : W) {result : Writer × W}
      → IsUnsent w
      → ImagesOutcome s r world w result
      → IsOnce result.0
  images-go r w world u (Ownership.bad_id _) = http_error-IsOnce _ _ w u
  images-go r w world u (ImagesOutcome.hidden _ _) = http_error-IsOnce _ _ w u
  images-go r w world u (ImagesOutcome.failed _ _) = http_error-IsOnce _ _ w u
  images-go r w world u (Ownership.bad_size _ _ _ _ _) = http_error-IsOnce _ _ w u
  images-go r w world u (Ownership.no_object _ _ _ _ _ _ _ _) = http_error-IsOnce _ _ w u
  images-go r w world u (Ownership.served _ ct _ _ _ _ _ _) =
      write-IsOnce _ _ (set_header-IsUnsent "Content-Type" ct w u)

  pub Answers-images : Answers (images s)
  Answers-images = record {
    at = λ r w world u. images-go r w world u (images-ImagesOutcome s r world w);
  }

  module _ (rest : Rest W)
      (later : (r : Request) (st ct : String) (w : Writer) (world : W)
        → IsUnsent w
        → IsOnce (rest r st ct w world).0) where
    owner-go :
        (r : Request) (id : String) (w : Writer) (world : W)
        {o : (Option (String × String) × Writer) × W}
        → IsUnsent w
        → OwnerOutcome s r id world w o
        → IsOnce (when_owner o (rest r)).0
    owner-go r id w world u (OwnerOutcome.owned st ct v _) = later r st ct w v u
    owner-go r id w world u (OwnerOutcome.hidden _ _) = http_error-IsOnce _ _ w u
    owner-go r id w world u (OwnerOutcome.failed _ _) = http_error-IsOnce _ _ w u

    Answers-for_owner : Answers (for_owner s rest)
    Answers-for_owner = record {
      at = λ r w world u. elim (Bool-cases (len r.path_id == 32)) [
        | inl long ↦
            rw long
              (owner-go r r.path_id w world u (require_owner-OwnerOutcome s r r.path_id world w))
        | inr short ↦ rw short (http_error-IsOnce "Invalid ID" 400 w u)
      ];
    }

  completed-go :
      (w : Writer)
      → IsUnsent w
      → (done : Result (Unit {0}) × W)
      → IsOnce
          (catch {X = Writer × W} done
            (λ _ world. (write_header 200 w, world))
            (λ _ world. (http_error "could not complete upload" 500 w, world))).0
  completed-go w u (ok _, _) = write_header-IsOnce 200 w u
  completed-go w u (err _, _) = http_error-IsOnce _ _ w u

  pub Answers-complete_upload : Answers (complete_upload s)
  unfolding complete_upload
  Answers-complete_upload =
      Answers-for_owner _
        (λ r st ct w world u. completed-go w u (s.uploads.complete r.path_id world))

  pub Answers-image_status : Answers (image_status s)
  unfolding image_status
  Answers-image_status =
      Answers-for_owner _
        (λ r st ct w world u. write_json-IsOnce 200 (status_response r.path_id st) w u)

  list-go :
      (w : Writer)
      → IsUnsent w
      → (answer : Result (List Upload) × W)
      → IsOnce
          (catch {X = Writer × W} answer
            (λ uploads world. (write_json 200 (list_images_response (summaries uploads)) w, world))
            (λ _ world. (http_error "could not list images" 500 w, world))).0
  list-go w u (ok _, _) = write_json-IsOnce _ _ w u
  list-go w u (err _, _) = http_error-IsOnce _ _ w u

  pub Answers-list_images : Answers (list_images s)
  unfolding list_images
  Answers-list_images = record { at = λ r w world u. list-go w u _ }

  auth-go :
      {g : Handler W}
      → Answers g
      → (r : Request) (w : Writer) (world : W) {result : Writer × W} → IsUnsent w
      → AuthOutcome s g r w world result
      → IsOnce result.0
  auth-go a r w world u (malformed _) = http_error-IsOnce _ _ w u
  auth-go a r w world u (refused _ _ _ _ _) = http_error-IsOnce _ _ w u
  auth-go a r w world u (admitted user_id v _) = a.at (as_user user_id r) w v u

  pub Answers-require_auth : {g : Handler W} → Answers g → Answers (require_auth s g)
  Answers-require_auth {g} a = record {
    at = λ r w world u. auth-go a r w world u (require_auth-AuthOutcome s g r w world);
  }
