-- ===== src/Transport/Ownership.antt =====
-- Who may see an upload: the three outcomes of `requireOwner`, and what its callers answer.
use go_image_service.Base.{
  ℕ, String, ◌<>◌, List, true, false, ◌≡◌, ◌≢◌, refl, ap, inl, inr, Option, none, some, ◌==◌,
  string_eq, nat_eq, ==_ne, eq_of_==, ne_of_==, ◌∙◌, len, Err, Result, ok, err, errors_is,
  upload_not_found, Bool-cases,
}
use go_image_service.Transport.Http.{Request, Writer, raw, get_value, set_header, write, http_error}
use go_image_service.Transport.Server.{Server}
use go_image_service.Transport.Handlers.{
  caller_id, require_owner, when_owner, is_image_size, serve_object, complete_upload, images,
  image_status,
}

abbrev pub not_found : Writer → Writer
not_found w = http_error "Not found" 404 w

module _ {W : Type 0} (s : Server W) (r : Request) (id : String) (world : W) where
  -- There is no upload of this id, or it belongs to someone else.
  pub data Hidden (world' : W) : Type 0 where
    missing :
        (e : Err)
        → s.reads.get id world ≡ (err e, world')
        → errors_is e upload_not_found ≡ true
        → Hidden world'
    foreign :
        (st owner ct : String)
        → s.reads.get id world ≡ (ok (st, owner, ct), world')
        → owner ≢ caller_id r
        → Hidden world'

  -- The lookup failed for another reason.
  pub data Broken (world' : W) : Type 0 where
    broken :
        (e : Err)
        → s.reads.get id world ≡ (err e, world')
        → errors_is e upload_not_found ≡ false
        → Broken world'

  -- The caller owns the upload, whose status and content type these are.
  abbrev pub Owned : String → String → W → Type 0
  Owned st ct world' = s.reads.get id world ≡ (ok (st, caller_id r, ct), world')

  -- What `require_owner` may return.
  pub data OwnerOutcome (w : Writer) : (Option (String × String) × Writer) × W → Type 0 where
    owned :
        (st ct : String) (world' : W)
        → Owned st ct world'
        → OwnerOutcome w ((some (st, ct), w), world')
    hidden : (world' : W) → Hidden world' → OwnerOutcome w ((none, not_found w), world')
    failed :
        (world' : W)
        → Broken world'
        → OwnerOutcome w ((none, http_error "Server error" 500 w), world')

  require_owner_go :
      (w : Writer) (found : Result (String × String × String) × W)
      → s.reads.get id world ≡ found
      → OwnerOutcome w (require_owner s r w id world)
  unfolding require_owner
  require_owner_go w (ok (st, owner, ct), world') e = elim (Bool-cases (owner == caller_id r)) [
    | inl same ↦
        rw (e, same)
          (owned st ct world'
            (e ∙ ap (λ o. (ok (st, o, ct), world')) (eq_of_== owner (caller_id r) same)))
    | inr differ ↦
        rw (e, differ) (hidden world' (foreign st owner ct e (ne_of_== owner (caller_id r) differ)))
  ]
  require_owner_go w (err x, world') e = elim (Bool-cases (errors_is x upload_not_found)) [
    | inl gone ↦ rw (e, gone) (hidden world' (missing x e gone))
    | inr other ↦ rw (e, other) (failed world' (broken x e other))
  ]

  -- `require_owner` lets the request through with the upload's status and content type exactly when the
  -- caller owns it.
  pub require_owner-OwnerOutcome : (w : Writer) → OwnerOutcome w (require_owner s r w id world)
  require_owner-OwnerOutcome w = require_owner_go w (s.reads.get id world) refl

-- The key of an image in the object store.
abbrev pub image_key : Request → String
image_key r = r.path_id <> "/" <> get_value "size" r.query

abbrev HasLen32 : Request → Type 0
HasLen32 r = (len r.path_id == 32) ≡ true

module _ {W : Type 0} (s : Server W) (r : Request) (world : W) where
  -- What `GET /images/{id}` may answer.
  pub data ImagesOutcome (w : Writer) : Writer × W → Type 0 where
    bad_id : (len r.path_id == 32) ≡ false → ImagesOutcome w (http_error "Invalid ID" 400 w, world)
    hidden :
        (world' : W) → Hidden s r r.path_id world world' → ImagesOutcome w (not_found w, world')
    failed :
        (world' : W)
        → Broken s r r.path_id world world'
        → ImagesOutcome w (http_error "Server error" 500 w, world')
    bad_size :
        (st ct : String) (world' : W)
        → Owned s r r.path_id world st ct world'
        → is_image_size (get_value "size" r.query) ≡ false
        → ImagesOutcome w (http_error "Invalid or missing size" 400 w, world')
    no_object :
        (st ct : String) (world' world'' : W) (e : Err)
        → Owned s r r.path_id world st ct world'
        → is_image_size (get_value "size" r.query) ≡ true
        → s.objects.get (image_key r) world' ≡ (err e, world'')
        → ImagesOutcome w (http_error "Image not found" 404 w, world'')
    served :
        (st ct : String) (world' world'' : W) (bytes : List ℕ)
        → Owned s r r.path_id world st ct world'
        → is_image_size (get_value "size" r.query) ≡ true
        → s.objects.get (image_key r) world' ≡ (ok bytes, world'')
        → ImagesOutcome w (write (raw bytes) (set_header "Content-Type" ct w), world'')

  serve_object-ImagesOutcome :
      (w : Writer) (st ct : String) (world' : W) (got : Result (List ℕ) × W)
      → Owned s r r.path_id world st ct world'
      → s.objects.get (image_key r) world' ≡ got
      → ImagesOutcome w (serve_object s r ct w world')
  unfolding serve_object
  serve_object-ImagesOutcome w st ct world' (ok bytes, world'') mine e =
      elim (Bool-cases (is_image_size (get_value "size" r.query))) [
        | inr bad ↦ rw bad (bad_size st ct world' mine bad)
        | inl good ↦ rw (good, e) (served st ct world' world'' bytes mine good e)
      ]
  serve_object-ImagesOutcome w st ct world' (err x, world'') mine e =
      elim (Bool-cases (is_image_size (get_value "size" r.query))) [
        | inr bad ↦ rw bad (bad_size st ct world' mine bad)
        | inl good ↦ rw (good, e) (no_object st ct world' world'' x mine good e)
      ]

  images-of_owner :
      (w : Writer) {o : (Option (String × String) × Writer) × W}
      → OwnerOutcome s r r.path_id world w o
      → ImagesOutcome w (when_owner o (λ st ct w world. serve_object s r ct w world))
  images-of_owner w (OwnerOutcome.owned st ct world' h) =
      serve_object-ImagesOutcome w st ct world' (s.objects.get (image_key r) world') h refl
  images-of_owner w (OwnerOutcome.hidden world' h) = hidden world' h
  images-of_owner w (OwnerOutcome.failed world' h) = failed world' h

  -- The bytes of an image are sent only to the owner of the upload, for one of the three sizes and
  -- with the content type of its row; every other request to the handler is answered as its case
  -- says: 400 for an id that has not 32 bytes or a wrong size, 404 for a hidden upload and for
  -- every error of the object store, 500 where the lookup of the row fails.
  pub images-ImagesOutcome : (w : Writer) → ImagesOutcome w (images s r w world)
  images-ImagesOutcome w = elim (Bool-cases (len r.path_id == 32)) [
    | inl good ↦
        unfold images in
        rw good (images-of_owner w (require_owner-OwnerOutcome s r r.path_id world w))
    | inr bad ↦ unfold images in rw bad (bad_id bad)
  ]

module _ {W : Type 0} (s : Server W) (r : Request) (w : Writer) (world world' : W) where
  require_owner-Hidden :
      Hidden s r r.path_id world world'
      → require_owner s r w r.path_id world ≡ ((none, not_found w), world')
  unfolding require_owner
  require_owner-Hidden (missing e got gone) = rw (got, gone)
  require_owner-Hidden (foreign st owner ct got differ) = rw (got, ==_ne _ _ differ)

  -- An id of 32 bytes without an upload and one that belongs to somebody else are answered alike by
  -- the three handlers that take an id: the same 404, and nothing but the row is looked up.
  pub Hidden-alike :
      (len r.path_id == 32) ≡ true
      → Hidden s r r.path_id world world'
      → (images s r w world ≡ (not_found w, world'))
        × (complete_upload s r w world ≡ (not_found w, world'))
        × (image_status s r w world ≡ (not_found w, world'))
  Hidden-alike good h = (
    unfold images in rw (good, require_owner-Hidden h),
    unfold complete_upload in rw (good, require_owner-Hidden h),
    unfold image_status in rw (good, require_owner-Hidden h),
  )
