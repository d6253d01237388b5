-- ===== src/Cmd/Created.antt =====
-- What an upload that the HTTP server accepts has set up in its real components.
pub mod Accepted
use mathlib.Core.Path.{subst, ap₂}
use go_image_service.Base.{
  ne_of_==, string_eq, ℕ, String, ◌<>◌, ◌≡◌, ◌≢◌, refl, sym, ap, ◌∙◌, [], ◌∷◌, some, none, Result,
  ok, err, arith,
}
use go_image_service.Config.{Config}
use go_image_service.Postgres.{Postgres}
use go_image_service.Metadata.Table.{Table, IsTable}
use go_image_service.Transport.Http.{Request, Writer, fresh, get_value, write_json}
use go_image_service.Transport.Server.{Server}
use go_image_service.Transport.Handlers.{Handler}
use go_image_service.Transport.Middleware.{allow_origin}
use go_image_service.Transport.Mux.{find_route}
use go_image_service.Transport.Routes.{routes}
use go_image_service.Transport.Routing.{find_route-fixed}
use go_image_service.Transport.Authentication.{as_user}
use go_image_service.Transport.Admission.{without_id, serve-IsAdmitted}
use go_image_service.Transport.Status.{http_error-ne, status-allow_origin}
use go_image_service.Cmd.HttpServer.{Libraries, server_of, main}
use go_image_service.Cmd.Startup.{IsUp, main-IsUp}
use go_image_service.Cmd.Caller.{IsCaller, IsVerified-IsCaller}
use go_image_service.Id.{new_id}
use go_image_service.Upload
use go_image_service.Upload.Outcome.{
  NegotiateOutcome, negotiated, no_id, no_row, no_workflow, no_url, negotiate-NegotiateOutcome,
  IsStarted,
}
use go_image_service.Metadata.Table.{Inserted, new_row, WriteSpec, done, undone, unconfirmed}
use go_image_service.Metadata.Refinement.{create-go}
use go_image_service.Storage
use go_image_service.Storage.{MinioStore}
use go_image_service.Pipeline.Orchestrator
use go_image_service.Pipeline.Orchestrator.{Orchestrator, workflow_id}
use go_image_service.TemporalClient
use go_image_service.Transport.Server.{CreateUploadRequest}
use go_image_service.Transport.Http.{create_upload_response}
use go_image_service.Transport.Handlers.{create_upload}
use go_image_service.Transport.Creation.{
  CreateOutcome, IsImageType, bad_body, no_filename, bad_type, failed, created,
  create_upload-CreateOutcome,
}
use go_image_service.Cmd.Wiring.{store_of, upload_repository, upload_pipeline, presigner_of}

module _ {W Source Conn Client Object : Type 0} (lib : Libraries W Source Conn Client Object)
    (cfg : Config) (find : W → Table) (r : Request) (world : W) where
  -- The row is in the table, the workflow was started on the configured task queue and the URL presigned on
  -- the public endpoint, in this order, for the caller and under the id that is answered.
  pub record IsCreated (temporal : Orchestrator.TemporalClient W) (result : Writer × W)
      : Type 0 where
    pub user_id : String
    pub verified_world : W
    pub caller : IsCaller lib cfg r world user_id verified_world
    pub req : CreateUploadRequest
    pub decoded : lib.decoder.create_upload r.body ≡ ok req
    pub named : req.filename ≢ ""
    pub image : IsImageType req.content_type
    pub id : String
    pub drawn_world : W
    pub drawn : new_id lib.rand_read verified_world ≡ (ok id, drawn_world)
    pub created_at : ℕ
    pub pending_world : W
    pub inserted :
        Inserted
          (new_row id req.filename req.content_type "pending" user_id created_at)
          (find drawn_world)
          (find pending_world)
    pub started_world : W
    pub started :
        temporal.execute_workflow
          (workflow_id id)
          cfg.task_queue
          (record { id = id; content_type = req.content_type; filename = req.filename })
          pending_world
        ≡ (ok tt, started_world)
    pub objects : MinioStore Client
    pub made : store_of lib.minio cfg ≡ ok objects
    pub url : String
    pub presigned_world : W
    pub presigned :
        lib.minio.presigned_put_object objects.presigner objects.bucket
          (id <> "/original")
          900
          started_world
        ≡ (ok url, presigned_world)
    pub response : result ≡ (
      write_json 201
          (create_upload_response id url 900)
          (allow_origin (get_value "Origin" r.headers) cfg.cors_allowed_origins fresh),
      presigned_world,
    )
