-- ===== src/Cmd/Worker.antt =====
-- cmd/worker/main.go, up to the task queue and the activities that the worker runs with.
use go_image_service.Base.{String, Result, M, ◌>>=◌, ◌>>◌, pure}
use go_image_service.Base.Integers.{pos}
use go_image_service.Config.{Config}
use go_image_service.GrpcAuth.{Credentials, dial}
use go_image_service.Postgres.{Postgres}
use go_image_service.Storage.{Minio, MinioStore, object_store}
use go_image_service.TemporalClient
use go_image_service.TemporalClient.{ClientOptions}
use go_image_service.Imaging.Client.{Client, client_resize}
use go_image_service.Pipeline.Activities.{Activities}
use go_image_service.Cmd.Wiring.{fatal, lift, store_of, ensured}

-- The libraries that the program calls. `Temporal` is the client that the worker polls through.
pub record Libraries (W Source Conn Temporal MinioClient Object : Type 0) : Type 0 where
  pub client_dial : ClientOptions → M W Temporal
  pub new_token_source : String → Result Source
  pub new_client : String → Credentials Source → Result Conn
  pub new_resizer_client : Conn → Client W
  pub pool_new : String → M W (Postgres W)
  pub minio : Minio W MinioClient Object

-- What is registered, and where: `UploadWorkflow` runs with these activities.
pub record Worker (W Temporal : Type 0) : Type 0 where
  pub client : Temporal
  pub task_queue : String
  pub activities : Activities W

module _ {W Source Conn Temporal MinioClient Object : Type 0}
    (lib : Libraries W Source Conn Temporal MinioClient Object) where
  abbrev pub activities_of : Client W → Postgres W → MinioStore MinioClient → Activities W
  activities_of resizer pool objects = record {
    resize = λ content width height. client_resize resizer content (pos width) (pos height);
    objects = object_store lib.minio objects;
    repo = pool;
  }

  -- `main`
  unfoldable pub main : Config → M W (Worker W Temporal)
  main cfg = do
    conn ← fatal "" (lift (dial lib.new_token_source lib.new_client cfg.image_service_addr))
    pool ← fatal "" (lib.pool_new cfg.database_url)
    objects ← fatal "" (lift (store_of lib.minio cfg))
    ensured lib.minio cfg objects
    c ← fatal "dial temporal: " (TemporalClient.dial lib.client_dial cfg)
    pure (record {
      client = c;
      task_queue = cfg.task_queue;
      activities = activities_of (lib.new_resizer_client conn) pool objects;
    })
