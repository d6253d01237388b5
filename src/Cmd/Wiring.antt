-- ===== src/Cmd/Wiring.antt =====
-- What the main functions share: fatal errors, and how the components are put together.
use go_image_service.Base.{
  String, ◌<>◌, if◌then◌else◌, Result, message, error_text, catch, M, pure, fail,
}
use go_image_service.Config.{Config}
use go_image_service.Postgres.{Postgres}
use go_image_service.Metadata
use go_image_service.User
use go_image_service.Storage
use go_image_service.Storage.{Minio, MinioStore}
use go_image_service.Upload
use go_image_service.Auth.{UserRepo}
use go_image_service.Pipeline.Orchestrator
use go_image_service.Pipeline.Orchestrator.{Orchestrator}
use go_image_service.Transport.Server.{Uploads, UploadReader, ObjectGetter}

module _ {W : Type 0} where
  -- `if err != nil { log.Fatalf(note+"%v", err) }`
  abbrev pub fatal : {A : Type 0} → String → M W A → M W A
  fatal note m w = catch (m w) pure (λ e. fail (message (note <> error_text e)))

  -- A call that does not depend on the world.
  abbrev pub lift : {A : Type 0} → Result A → M W A
  lift r w = (r, w)

  -- `metadata.Repository` as the interfaces that its users take.
  abbrev pub upload_repository : Postgres W → Upload.Repository W
  upload_repository db = record { create = Metadata.create db }

  abbrev pub upload_reader : Postgres W → UploadReader W
  upload_reader db = record { get = Metadata.get db; list = Metadata.list db }

  -- `user.Repository` as `auth.UserRepo`.
  abbrev pub user_repo : Postgres W → UserRepo W
  user_repo db = record { create = User.create db; get_user_by_email = User.get_user_by_email db }

  -- `pipeline.Orchestrator` as `upload.Pipeline`.
  abbrev pub upload_pipeline : Orchestrator W → Upload.Pipeline W
  upload_pipeline o = record { start = Orchestrator.start o; signal = Orchestrator.signal o }

  -- `upload.Service` as `transport.Uploads`.
  abbrev pub uploads_of : Upload.Service W → Uploads W
  uploads_of s = record { negotiate = Upload.negotiate s; complete = Upload.complete s }

module _ {W Client Object : Type 0} (m : Minio W Client Object) where
  abbrev pub presigner_of : MinioStore Client → Upload.Presigner W
  presigner_of store = record { presign = Storage.presign m store }

  abbrev pub getter_of : MinioStore Client → ObjectGetter W
  getter_of store = record { get = Storage.get m store }

  -- The object store of the configuration.
  abbrev pub store_of : Config → Result (MinioStore Client)
  store_of cfg =
      Storage.new_minio_store m cfg.minio_endpoint cfg.minio_public_endpoint cfg.minio_access_key
        cfg.minio_secret_key cfg.minio_bucket cfg.object_store_use_ssl

  -- `if cfg.ObjectStoreEnsureBucket { … }`
  abbrev pub ensured : Config → MinioStore Client → M W (Unit {0})
  ensured cfg store =
      if cfg.object_store_ensure_bucket
      then fatal "ensure bucket: " (Storage.ensure_bucket m store)
      else pure tt
