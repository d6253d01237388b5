-- ===== src/Pipeline/Activities.antt =====
-- internal/pipeline/activities.go. An activity is a call that changes the world.
pub mod Signature
pub mod Validated
pub mod Resizing
use go_image_service.Base.{
  ℕ, ◌*◌, String, ◌<>◌, Bool, true, false, List, [], ◌∷◌, Option, none, some, ◌==◌, nat_eq, ltb,
  ◌&&◌, if◌then◌else◌, non_retryable, M, ◌>>=◌, ◌>>◌, pure, fail, ignore,
}
use go_image_service.Postgres.{Postgres}
use go_image_service.Metadata.{update_status}
use go_image_service.Storage.{ObjectStore}

-- 200 MB
abbrev pub max_image_bytes : ℕ
max_image_bytes = 200 * 1024 * 1024

pub record ValidateInput : Type 0 where
  pub id : String
  pub content_type : String

pub record ResizeInput : Type 0 where
  pub id : String
  pub content_type : String
  pub name : String
  pub width : ℕ
  pub height : ℕ

-- `Activities`: `resize` is the image service's client.
pub record Activities (W : Type 0) : Type 0 where
  pub resize : List ℕ → ℕ → ℕ → M W (List ℕ)
  pub objects : ObjectStore W
  pub repo : Postgres W

-- `objectKey`
abbrev pub object_key : String → String → String
object_key id name = id <> "/" <> name

abbrev pub starts : List ℕ → List ℕ → Bool
starts [] bs = true
starts (p ∷ ps) [] = false
starts (p ∷ ps) (b ∷ bs) = p == b && starts ps bs

-- The answers of `http.DetectContentType` that the switch accepts; `none` is any other type.
unfoldable pub image_type : List ℕ → Option String
unfolding nat_eq
image_type bs =
    if starts (0xFF ∷ 0xD8 ∷ 0xFF ∷ []) bs
    then some "image/jpeg"
    else if starts (0x89 ∷ 0x50 ∷ 0x4E ∷ 0x47 ∷ 0x0D ∷ 0x0A ∷ 0x1A ∷ 0x0A ∷ []) bs
    then some "image/png"
    else none

module _ {W : Type 0} (a : Activities W) where
  unfoldable pub reject : String → String → String → M W (Unit {0})
  reject id key reason = do
    ignore (a.objects.delete key)
    ignore (update_status a.repo id "rejected")
    fail (non_retryable reason "rejected")

  -- The test of the size.
  unfoldable pub check_size : String → ℕ × String → M W (Unit {0})
  unfolding reject
  check_size id (size, _) =
      if ltb max_image_bytes size
      then reject id (object_key id "original") "image too large"
      else pure tt

  -- The switch on the sniffed type, and the rest.
  unfoldable pub check_type : String → Option String → M W (Unit {0})
  unfolding reject check_size
  check_type id none = reject id (object_key id "original") "unsupported content type"
  check_type id (some _) = do info ← a.objects.head (object_key id "original"); check_size id info

  -- `Validate`
  unfoldable pub validate : ValidateInput → M W (Unit {0})
  unfolding update_status image_type check_type
  validate i = do
    update_status a.repo i.id "validating"
    sniff ← a.objects.get_first_n_bytes (object_key i.id "original") 512
    check_type i.id (image_type sniff)

  -- `Resize`
  unfoldable pub resize : ResizeInput → M W (Unit {0})
  resize i = do
    original ← a.objects.get (object_key i.id "original")
    resized ← a.resize original i.width i.height
    a.objects.put (object_key i.id i.name) resized i.content_type

  -- `Processing`
  unfoldable pub processing : String → M W (Unit {0})
  unfolding update_status
  processing id = update_status a.repo id "processing"

  -- `Complete`
  unfoldable pub complete : String → M W (Unit {0})
  unfolding update_status
  complete id = update_status a.repo id "complete"

  -- `Fail`
  unfoldable pub mark_failed : String → M W (Unit {0})
  unfolding update_status
  mark_failed id = update_status a.repo id "failed"

  -- `Abandon`
  unfoldable pub abandon : String → M W (Unit {0})
  unfolding update_status
  abandon id = do
    ignore (a.objects.delete (object_key id "original"))
    update_status a.repo id "abandoned"
