-- ===== src/Transport/Handlers.antt =====
-- internal/transport/handlers.go. A handler takes the request, the response so far and the world.
-- What `log.Printf` prints is not modelled.
use go_image_service.Base.{
  String, ◌<>◌, Bool, true, false, not, ◌||◌, List, [], ◌∷◌, Option, none, some, ◌==◌, string_eq,
  nat_eq, ltb, if◌then◌else◌, len, rune_count, Err, ok, err, catch, errors_is, upload_not_found,
}
use go_image_service.Transport.Http.{
  Request, Writer, health_response, register_response, login_response, create_upload_response,
  status_response, list_images_response, raw, get_value, set_header, write_header, write,
  http_error, write_json,
}
use go_image_service.Transport.Server.{Server, Credentials, CreateUploadRequest}
use go_image_service.Metadata.{Upload}
use go_image_service.Upload.{presign_ttl_seconds}
use go_image_service.Base.{invalid_credentials, Result}

abbrev pub Handler : Type 0 → Type 0
Handler W = Request → Writer → W → Writer × W

-- `UserIDFromContext`: the user and whether there is one.
abbrev pub user_id_from_context : Option String → String × Bool
user_id_from_context none = ("", false)
user_id_from_context (some id) = (id, true)

abbrev pub caller_id : Request → String
caller_id r = (user_id_from_context r.user_id).0

-- The `switch` on the content type of a new upload.
abbrev pub is_image_type : String → Bool
is_image_type t = t == "image/jpeg" || t == "image/png"

-- The `switch` on the size of an image.
abbrev pub is_image_size : String → Bool
is_image_size size = size == "original" || size == "12x12" || size == "25x25"

unfoldable pub login_failed : {W : Type 0} → Err → Writer → W → Writer × W
login_failed e w world =
    if errors_is e invalid_credentials
    then (http_error "invalid email or password" 401 w, world)
    else (http_error "could not log in" 500 w, world)

lookup_failed : Err → Writer → Writer
lookup_failed e w =
    if errors_is e upload_not_found
    then http_error "Not found" 404 w
    else http_error "Server error" 500 w

-- `if !ok { return }` after `requireOwner`.
abbrev pub when_owner :
    {W : Type 0}
    → (Option (String × String) × Writer) × W
    → (String → String → Writer → W → Writer × W)
    → Writer × W
when_owner ((none, w), world) next = (w, world)
when_owner ((some (st, ct), w), world) next = next st ct w world

-- The loop that copies each upload into an `imageSummary`.
unfoldable pub summaries : List Upload → List Upload
summaries [] = []
summaries (u ∷ uploads) =
    record {
      id = u.id;
      filename = u.filename;
      content_type = u.content_type;
      status = u.status;
      created_at = u.created_at;
    }
    ∷ summaries uploads

-- `if err := json.NewDecoder(r.Body).Decode(&req); err != nil`, and the handler of what was decoded.
abbrev pub with_body : {A W : Type 0} → Result A → (A → Handler W) → Handler W
with_body (err _) next r w world = (http_error "invalid JSON body" 400 w, world)
with_body (ok req) next r w world = next req r w world

module _ {W : Type 0} (s : Server W) where
  unfoldable pub health : Handler W
  health r w world = (write_json 200 (health_response "ok") w, world)

  unfoldable pub registered : Credentials → Handler W
  registered req r w world =
      if req.email == "" || req.password == ""
      then (http_error "email and password are required" 400 w, world)
      else if ltb (rune_count req.password) 8
      then (http_error "password must be at least 8 characters" 400 w, world)
      else catch (s.auth.register req.email req.password world)
          (λ id world. (write_json 201 (register_response id) w, world))
          (λ _ world. (http_error "could not register" 500 w, world))

  unfoldable pub register : Handler W
  unfolding registered
  register r = with_body (s.decode.credentials r.body) registered r

  unfoldable pub logged_in : Credentials → Handler W
  unfolding login_failed
  logged_in req r w world =
      catch (s.auth.login req.email req.password world)
        (λ token world. (write_json 200 (login_response token) w, world))
        (λ e world. login_failed e w world)

  unfoldable pub login : Handler W
  unfolding logged_in
  login r = with_body (s.decode.credentials r.body) logged_in r

  unfoldable pub negotiated : CreateUploadRequest → Handler W
  negotiated req r w world =
      if req.filename == ""
      then (http_error "filename is required" 400 w, world)
      else if not (is_image_type req.content_type)
      then (http_error "content_type must be image/jpeg or image/png" 400 w, world)
      else catch (s.uploads.negotiate req.filename req.content_type (caller_id r) world)
          (λ (id, url) world.
            (write_json 201 (create_upload_response id url presign_ttl_seconds) w, world))
          (λ _ world. (http_error "could not create upload" 500 w, world))

  unfoldable pub create_upload : Handler W
  unfolding negotiated
  create_upload r = with_body (s.decode.create_upload r.body) negotiated r

  -- `requireOwner`: the status and the content type if the caller is the owner; otherwise the
  -- response is already written.
  unfoldable pub require_owner :
      Request → Writer → String → W → (Option (String × String) × Writer) × W
  unfolding lookup_failed
  require_owner r w id world =
      catch (s.reads.get id world)
        (λ (st, owner_id, ct) world.
          if not (owner_id == caller_id r)
          then ((none, http_error "Not found" 404 w), world)
          else ((some (st, ct), w), world))
        (λ e world. ((none, lookup_failed e w), world))

  unfoldable pub complete_upload : Handler W
  unfolding require_owner
  complete_upload r w world =
      if not (len r.path_id == 32)
      then (http_error "Invalid ID" 400 w, world)
      else when_owner (require_owner r w r.path_id world) (λ st ct w world.
        catch (s.uploads.complete r.path_id world) (λ _ world. (write_header 200 w, world))
          (λ _ world. (http_error "could not complete upload" 500 w, world)))

  unfoldable pub serve_object : Request → String → Writer → W → Writer × W
  serve_object r content_type w world =
      let size = get_value "size" r.query in
      if not (is_image_size size)
      then (http_error "Invalid or missing size" 400 w, world)
      else catch (s.objects.get (r.path_id <> "/" <> size) world)
          (λ bytes world. (write (raw bytes) (set_header "Content-Type" content_type w), world))
          (λ _ world. (http_error "Image not found" 404 w, world))

  unfoldable pub images : Handler W
  unfolding require_owner serve_object
  images r w world =
      if not (len r.path_id == 32)
      then (http_error "Invalid ID" 400 w, world)
      else when_owner (require_owner r w r.path_id world)
          (λ st ct w world. serve_object r ct w world)

  unfoldable pub list_images : Handler W
  unfolding summaries
  list_images r w world =
      catch (s.reads.list (caller_id r) world)
        (λ uploads world. (write_json 200 (list_images_response (summaries uploads)) w, world))
        (λ _ world. (http_error "could not list images" 500 w, world))

  unfoldable pub image_status : Handler W
  unfolding require_owner
  image_status r w world =
      if not (len r.path_id == 32)
      then (http_error "Invalid ID" 400 w, world)
      else when_owner (require_owner r w r.path_id world)
          (λ st ct w world. (write_json 200 (status_response r.path_id st) w, world))
