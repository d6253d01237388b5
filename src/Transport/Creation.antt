-- ===== src/Transport/Creation.antt =====
-- What `POST /uploads` answers, and which requests it passes on.
use go_image_service.Base.{
  String, Bool, true, false, ◌||◌, ◌≡◌, ◌≢◌, refl, ◌⊎◌, inl, inr, ◌==◌, string_eq, ==_ne, eq_of_==,
  ne_of_==, Bool-cases, Result, ok, err, Err,
}
use go_image_service.Transport.Http.{
  Request, Writer, create_upload_response, http_error, write_json,
}
use go_image_service.Transport.Server.{Server, CreateUploadRequest}
use go_image_service.Transport.Handlers.{caller_id, is_image_type, negotiated, create_upload}

pub or-true : (b c : Bool) → (b || c) ≡ true → (b ≡ true) ⊎ (c ≡ true)
or-true true c h = inl refl
or-true false c h = inr h

pub or-false : (b c : Bool) → (b || c) ≡ false → (b ≡ false) × (c ≡ false)
or-false false c h = (refl, h)
or-false true c h = cc

abbrev pub IsImageType : String → Type 0
IsImageType t = (t ≡ "image/jpeg") ⊎ (t ≡ "image/png")

is_image_type-true : (t : String) → is_image_type t ≡ true → IsImageType t
is_image_type-true t h = elim (or-true (t == "image/jpeg") (t == "image/png") h) [
  | inl p ↦ inl (eq_of_== t "image/jpeg" p)
  | inr p ↦ inr (eq_of_== t "image/png" p)
]

is_image_type-false : (t : String) → is_image_type t ≡ false → ¬ IsImageType t
is_image_type-false t h (inl p) =
    ne_of_== t "image/jpeg" (or-false (t == "image/jpeg") (t == "image/png") h).0 p
is_image_type-false t h (inr p) =
    ne_of_== t "image/png" (or-false (t == "image/jpeg") (t == "image/png") h).1 p

module _ {W : Type 0} (s : Server W) (r : Request) (w : Writer) (world : W) where
  pub data CreateOutcome : Writer × W → Type 0 where
    bad_body :
        (e : Err)
        → s.decode.create_upload r.body ≡ err e
        → CreateOutcome (http_error "invalid JSON body" 400 w, world)
    no_filename :
        (req : CreateUploadRequest)
        → s.decode.create_upload r.body ≡ ok req
        → req.filename ≡ ""
        → CreateOutcome (http_error "filename is required" 400 w, world)
    bad_type :
        (req : CreateUploadRequest)
        → s.decode.create_upload r.body ≡ ok req
        → req.filename ≢ ""
        → ¬ IsImageType req.content_type
        → CreateOutcome (http_error "content_type must be image/jpeg or image/png" 400 w, world)
    failed :
        (req : CreateUploadRequest) (e : Err) (world' : W)
        → s.decode.create_upload r.body ≡ ok req
        → req.filename ≢ ""
        → IsImageType req.content_type
        → s.uploads.negotiate req.filename req.content_type (caller_id r) world ≡ (err e, world')
        → CreateOutcome (http_error "could not create upload" 500 w, world')
    created :
        (req : CreateUploadRequest) (id url : String) (world' : W)
        → s.decode.create_upload r.body ≡ ok req
        → req.filename ≢ ""
        → IsImageType req.content_type
        → s.uploads.negotiate req.filename req.content_type (caller_id r) world
          ≡ (ok (id, url), world')
        → CreateOutcome (write_json 201 (create_upload_response id url 900) w, world')

  negotiate-go :
      (req : CreateUploadRequest) (answer : Result (String × String) × W)
      → s.decode.create_upload r.body ≡ ok req
      → req.filename ≢ ""
      → is_image_type req.content_type ≡ true
      → s.uploads.negotiate req.filename req.content_type (caller_id r) world ≡ answer
      → CreateOutcome (negotiated s req r w world)
  unfolding negotiated
  negotiate-go req (ok (id, url), world') d f t e =
      rw (==_ne _ _ f, t, e) (created req id url world' d f (is_image_type-true _ t) e)
  negotiate-go req (err x, world') d f t e =
      rw (==_ne _ _ f, t, e) (failed req x world' d f (is_image_type-true _ t) e)

  negotiated-CreateOutcome :
      (req : CreateUploadRequest)
      → s.decode.create_upload r.body ≡ ok req
      → CreateOutcome (negotiated s req r w world)
  negotiated-CreateOutcome req d = elim (Bool-cases (req.filename == "")) [
    | inl blank ↦ unfold negotiated in rw blank (no_filename req d (eq_of_== _ _ blank))
    | inr named ↦ elim (Bool-cases (is_image_type req.content_type)) [
      | inl t ↦ negotiate-go req _ d (ne_of_== _ _ named) t refl
      | inr t ↦
          unfold negotiated in
          rw (named, t) (bad_type req d (ne_of_== _ _ named) (is_image_type-false _ t))
    ]
  ]

  create-go :
      (body : Result CreateUploadRequest)
      → s.decode.create_upload r.body ≡ body
      → CreateOutcome (create_upload s r w world)
  create-go (ok req) e = unfold create_upload in rw e (negotiated-CreateOutcome req e)
  create-go (err x) e = unfold create_upload in rw e (bad_body x e)

  -- `POST /uploads` is passed on only with a file name and one of the two image types, and for the
  -- caller; a success is answered by 201 with the id, the URL and its lifetime of 900 seconds, and each
  -- other request as its case says, by 400 or 500.
  pub create_upload-CreateOutcome : CreateOutcome (create_upload s r w world)
  create_upload-CreateOutcome = create-go _ refl
