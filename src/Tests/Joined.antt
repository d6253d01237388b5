-- ===== src/Tests/Joined.antt =====
-- The HTTP server and a worker of one configuration: an upload that the worker can take.
use go_image_service.Base.{
  String, none, refl, string_eq, nat_eq, has_prefix, ok, message, pure, fail, ◌≡◌,
}
use go_image_service.GrpcAuth
use go_image_service.Storage
use go_image_service.Storage.{MinioStore}
use go_image_service.TemporalClient
use go_image_service.Imaging.Client.{Client}
use go_image_service.Transport.Http.{fresh}
use go_image_service.Cmd.Worker.{Worker, activities_of}
use go_image_service.Cmd.Worker
use go_image_service.Cmd.Joined.{IsTaken, main-IsTaken}
use go_image_service.Tests.Rows.{find, one_row}
use go_image_service.Tests.Commands.{
  Db, local_minio, libraries, config, page, holding, the_handler, comes_up, create_request, tables,
  creates,
}

abbrev no_service : Client Db
no_service = record { grpc_resize = λ _. fail (message "down") }

abbrev worker_libraries : Worker.Libraries Db String String String String String
worker_libraries = record {
  client_dial = λ _. pure "temporal";
  new_token_source = λ audience. ok audience;
  new_client = λ target _. ok target;
  new_resizer_client = λ _. no_service;
  pool_new = λ _. pure one_row;
  minio = local_minio;
}

abbrev images_store : MinioStore String
images_store = record { ops = "minio:9000"; presigner = "localhost:9000"; bucket = "images" }

abbrev worker : Worker Db String
worker = record {
  client = "temporal";
  task_queue = "uploads";
  activities = activities_of worker_libraries no_service one_row images_store;
}

polls : Worker.main worker_libraries config holding ≡ (ok worker, holding)
unfolding Worker.main TemporalClient.dial TemporalClient.options GrpcAuth.dial GrpcAuth.is_cloud_run
    has_prefix Storage.new_minio_store Storage.ensure_bucket string_eq nat_eq
polls = refl

main-IsTaken_example :
    IsTaken libraries worker_libraries config worker holding holding holding holding create_request
      (the_handler create_request fresh none)
main-IsTaken_example =
    main-IsTaken libraries worker_libraries config refl find page holding holding ":8080"
      the_handler comes_up tables worker holding holding polls create_request none refl refl creates
