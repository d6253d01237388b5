-- ===== src/Storage.antt =====
-- internal/storage/objectstore.go: blob storage, and its implementation over the minio client, whose
-- calls are the interface `Minio`.
pub mod Endpoints
pub mod Contents
pub mod Disk
use go_image_service.Base.{
  ℕ, ◌-◌, String, ◌<>◌, Bool, List, ◌==◌, string_eq, if◌then◌else◌, Result, ok, err, message, M,
  ◌>>=◌, fail, pure, length,
}

-- `ObjectStore`; the lifetime of a presigned URL is in seconds.
pub record ObjectStore (W : Type 0) : Type 0 where
  pub presign : String → String → ℕ → M W String
  pub get : String → M W (List ℕ)
  pub get_first_n_bytes : String → ℕ → M W (List ℕ)
  pub put : String → List ℕ → String → M W (Unit {0})
  pub head : String → M W (ℕ × String)
  pub delete : String → M W (Unit {0})

-- `minio.Options`: the static credentials, whether to use TLS, and the region.
pub record Options : Type 0 where
  pub access_key : String
  pub secret_key : String
  pub secure : Bool
  pub region : String

-- `minio.GetObjectOptions`: the whole object, or the bytes from the first to the last.
pub data Range : Type 0 where
  whole : Range
  bytes : ℕ → ℕ → Range

-- The minio client. An object is read where it is used, so `get_object` may succeed and `read_all`
-- fail.
pub record Minio (W Client Object : Type 0) : Type 0 where
  pub new_client : String → Options → Result Client
  pub set_range : ℕ → ℕ → Result Range
  pub bucket_exists : Client → String → M W Bool
  pub make_bucket : Client → String → M W (Unit {0})
  pub presigned_put_object : Client → String → String → ℕ → M W String
  pub presigned_get_object : Client → String → String → ℕ → M W String
  pub get_object : Client → String → String → Range → M W Object
  pub read_all : Object → M W (List ℕ)
  pub put_object : Client → String → String → List ℕ → ℕ → String → M W (Unit {0})
  pub stat_object : Client → String → String → M W (ℕ × String)
  pub remove_object : Client → String → String → M W (Unit {0})

-- `MinioStore`
pub record MinioStore (Client : Type 0) : Type 0 where
  pub ops : Client
  pub presigner : Client
  pub bucket : String

module _ {W Client Object : Type 0} (m : Minio W Client Object) where
  abbrev with_ops : String → String → Options → Client → Result (MinioStore Client)
  with_ops public_endpoint bucket opts ops = elim (m.new_client public_endpoint opts) [
    | err e ↦ err e
    | ok presigner ↦ ok (record { ops = ops; presigner = presigner; bucket = bucket })
  ]

  -- `NewMinioStore`
  unfoldable pub new_minio_store :
      String → String → String → String → String → Bool → Result (MinioStore Client)
  new_minio_store internal_endpoint public_endpoint access_key secret_key bucket use_ssl =
      let opts : Options = record {
        access_key = access_key;
        secret_key = secret_key;
        secure = use_ssl;
        region = "us-east-1";
      } in
      elim (m.new_client internal_endpoint opts) [
        | err e ↦ err e
        | ok ops ↦ with_ops public_endpoint bucket opts ops
      ]

  module _ (store : MinioStore Client) where
    -- `EnsureBucket`
    unfoldable pub ensure_bucket : M W (Unit {0})
    ensure_bucket = do
      exists ← m.bucket_exists store.ops store.bucket
      if exists then pure tt else m.make_bucket store.ops store.bucket

    -- `Presign`
    unfoldable pub presign : String → String → ℕ → M W String
    presign key method ttl =
        if method == "PUT"
        then m.presigned_put_object store.presigner store.bucket key ttl
        else if method == "GET"
        then m.presigned_get_object store.presigner store.bucket key ttl
        else fail (message ("unsupported presign method: " <> method))

    -- `Get`
    unfoldable pub get : String → M W (List ℕ)
    get key = do obj ← m.get_object store.ops store.bucket key whole; m.read_all obj

    abbrev lift : {A : Type 0} → Result A → M W A
    lift r w = (r, w)

    -- `GetFirstNBytes`, for at least one byte.
    unfoldable pub get_first_n_bytes : String → ℕ → M W (List ℕ)
    get_first_n_bytes key n = do
      range ← lift (m.set_range 0 (n - 1))
      obj ← m.get_object store.ops store.bucket key range
      m.read_all obj

    -- `Put`
    unfoldable pub put : String → List ℕ → String → M W (Unit {0})
    put key content content_type =
        m.put_object store.ops store.bucket key content (length content) content_type

    -- `Head`
    unfoldable pub head : String → M W (ℕ × String)
    head key = m.stat_object store.ops store.bucket key

    -- `Delete`
    unfoldable pub delete : String → M W (Unit {0})
    delete key = m.remove_object store.ops store.bucket key

    -- `MinioStore` implements `ObjectStore`.
    abbrev pub object_store : ObjectStore W
    object_store = record {
      presign = presign;
      get = get;
      get_first_n_bytes = get_first_n_bytes;
      put = put;
      head = head;
      delete = delete;
    }
