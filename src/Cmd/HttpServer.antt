-- ===== src/Cmd/HttpServer.antt =====
-- cmd/httpserver/main.go, up to the address and the handler that it listens with.
use go_image_service.Base.{ℕ, String, List, Result, M, ◌>>=◌, ◌>>◌, pure}
use go_image_service.Config.{Config}
use go_image_service.GrpcAuth.{Credentials}
use go_image_service.Postgres.{Postgres}
use go_image_service.Storage.{Minio, MinioStore}
use go_image_service.TemporalClient
use go_image_service.TemporalClient.{ClientOptions}
use go_image_service.Upload
use go_image_service.AuthGrpc.{AuthService, client, dial_client}
use go_image_service.Pipeline.Orchestrator.{Orchestrator}
use go_image_service.Pipeline.Orchestrator
use go_image_service.Transport.Server.{Server, Decoder}
use go_image_service.Transport.Handlers.{Handler}
use go_image_service.Transport.Routes.{serve}
use go_image_service.Cmd.Wiring.{
  fatal, lift, upload_repository, upload_reader, upload_pipeline, uploads_of, presigner_of,
  getter_of, store_of, ensured,
}

-- The libraries that the program calls.
pub record Libraries (W Source Conn Client Object : Type 0) : Type 0 where
  pub client_dial : ClientOptions → M W (Orchestrator.TemporalClient W)
  pub new_token_source : String → Result Source
  pub new_client : String → Credentials Source → Result Conn
  pub new_auth_service_client : Conn → AuthService W
  pub pool_new : String → M W (Postgres W)
  pub ping : Postgres W → M W (Unit {0})
  pub minio : Minio W Client Object
  pub rand_read : ℕ → M W (List ℕ)
  pub decoder : Decoder

module _ {W Source Conn Client Object : Type 0} (lib : Libraries W Source Conn Client Object) where
  -- The server that `main` puts together.
  abbrev pub server_of :
      Config
      → Orchestrator.TemporalClient W
      → AuthService W
      → Postgres W
      → MinioStore Client
      → Server W
  server_of cfg tc rpc pool objects =
      let upload_svc : Upload.Service W = record {
        repo = upload_repository pool;
        objects = presigner_of lib.minio objects;
        pipe = upload_pipeline (record { client = tc; task_queue = cfg.task_queue });
        rand_read = lib.rand_read;
      } in
      record {
        auth = client rpc;
        uploads = uploads_of upload_svc;
        reads = upload_reader pool;
        objects = getter_of lib.minio objects;
        decode = lib.decoder;
      }

  -- `main`; `web` is the demo page.
  unfoldable pub main : Handler W → Config → M W (String × Handler W)
  main web cfg = do
    tc ← fatal "dial temporal: " (TemporalClient.dial lib.client_dial cfg)
    rpc ← fatal "" (
        lift (
          dial_client lib.new_token_source lib.new_client lib.new_auth_service_client
            cfg.auth_service_addr))
    pool ← fatal "" (lib.pool_new cfg.database_url)
    fatal "cannot reach postgres: " (lib.ping pool)
    objects ← fatal "" (lift (store_of lib.minio cfg))
    ensured lib.minio cfg objects
    pure (cfg.http_addr, serve (server_of cfg tc rpc pool objects) web cfg.cors_allowed_origins)
