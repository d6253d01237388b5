-- ===== src/Tests/Owners.antt =====
-- What ann gets for her own upload: its status, and the completion that she reports.
use go_image_service.Base.{
  ◌∷◌, [], some, ◌≡◌, refl, ok, string_eq, nat_eq, has_prefix, cut_prefix, len,
}
use go_image_service.Metadata
use go_image_service.Storage
use go_image_service.Upload
use go_image_service.AuthGrpc.{client_verify, dial_client}
use go_image_service.TemporalClient
use go_image_service.GrpcAuth
use go_image_service.Pipeline.Orchestrator
use go_image_service.Transport.Http.{Request, fresh, get_value, write_json, write_header}
use go_image_service.Transport.Handlers.{image_status, complete_upload}
use go_image_service.Transport.Middleware.{require_auth}
use go_image_service.Transport.Mux.{find_route}
use go_image_service.Transport.Routes.{serve}
use go_image_service.Cmd.HttpServer.{main}
use go_image_service.Cmd.Owners.{IsReported, IsSignalled}
use go_image_service.Cmd.Owners.Answered.{main-IsReported, main-IsSignalled}
use go_image_service.Tests.Rows.{find}
use go_image_service.Tests.Commands.{
  Db, libraries, page, config, holding, the_handler, comes_up, the_id, the_request, slash, tables,
}

abbrev status_request : Request
status_request = record the_request { segments = "images" ∷ the_id ∷ "status" ∷ [] }

abbrev complete_request : Request
complete_request = record the_request {
  method = "POST";
  segments = "uploads" ∷ the_id ∷ "complete" ∷ [];
}

reports : (the_handler status_request fresh holding).0.status ≡ some 200
unfolding main TemporalClient.dial TemporalClient.options dial_client GrpcAuth.dial
    Storage.new_minio_store Storage.ensure_bucket string_eq GrpcAuth.is_cloud_run has_prefix nat_eq
    serve find_route require_auth cut_prefix get_value image_status len write_json client_verify
    Metadata.get
reports = refl

completes : (the_handler complete_request fresh holding).0.status ≡ some 200
unfolding main TemporalClient.dial TemporalClient.options dial_client GrpcAuth.dial
    Storage.new_minio_store Storage.ensure_bucket string_eq GrpcAuth.is_cloud_run has_prefix nat_eq
    serve find_route require_auth cut_prefix get_value complete_upload len write_header
    client_verify Metadata.get Upload.complete Orchestrator.signal
completes = refl

main-IsReported_example :
    IsReported libraries config find status_request the_id holding
      (the_handler status_request fresh holding)
main-IsReported_example =
    main-IsReported libraries config find status_request the_id holding page holding holding ":8080"
      the_handler comes_up tables refl refl slash reports

main-IsSignalled_example :
    (temporal : Orchestrator.TemporalClient Db) × (v : Db) × (TemporalClient.dial
        libraries.client_dial config holding
      ≡ (ok temporal, v))
    × IsSignalled libraries config find complete_request the_id holding temporal
        (the_handler complete_request fresh holding)
main-IsSignalled_example =
    main-IsSignalled libraries config find complete_request the_id holding page holding holding
      ":8080" the_handler comes_up tables refl refl slash completes
