-- ===== src/Cmd/Registered.antt =====
-- When the worker comes up, and with what.
use go_image_service.Base.{◌≡◌, ap, ◌∙◌, Result, ok, M, ◌>>=◌, ◌>>◌, pure}
use go_image_service.Base.Inversion.{bind-IsBound}
use go_image_service.Config.{Config}
use go_image_service.GrpcAuth.{dial}
use go_image_service.Postgres.{Postgres}
use go_image_service.Storage.{MinioStore}
use go_image_service.TemporalClient
use go_image_service.Cmd.Wiring.{fatal, lift, store_of, ensured}
use go_image_service.Cmd.Worker.{Libraries, Worker, activities_of, main}
use go_image_service.Cmd.Startup.{after_fatal, after_lift}

module _ {W Source Conn Temporal MinioClient Object : Type 0}
    (lib : Libraries W Source Conn Temporal MinioClient Object) (cfg : Config) (w : W) where
  -- Every connection was made, each in the world that the one before left, and the worker runs the activities
  -- over these connections on the configured task queue.
  pub record IsRegistered (worker : Worker W Temporal) (w' : W) : Type 0 where
    pub conn : Conn
    pub pool : Postgres W
    pub objects : MinioStore MinioClient
    pub client : Temporal
    pub pool_world : W
    pub ensured_world : W
    pub dialled : dial lib.new_token_source lib.new_client cfg.image_service_addr ≡ ok conn
    pub connected : lib.pool_new cfg.database_url w ≡ (ok pool, pool_world)
    pub store : store_of lib.minio cfg ≡ ok objects
    pub bucket : ensured lib.minio cfg objects pool_world ≡ (ok tt, ensured_world)
    pub temporal : TemporalClient.dial lib.client_dial cfg ensured_world ≡ (ok client, w')
    pub same_worker : worker ≡ record {
      client = client;
      task_queue = cfg.task_queue;
      activities = activities_of lib (lib.new_resizer_client conn) pool objects;
    }

  -- The stages of `main`, from the last one.
  abbrev runs : Conn → Postgres W → MinioStore MinioClient → Temporal → M W (Worker W Temporal)
  runs conn pool objects c = pure (record {
    client = c;
    task_queue = cfg.task_queue;
    activities = activities_of lib (lib.new_resizer_client conn) pool objects;
  })

  abbrev polls : Conn → Postgres W → MinioStore MinioClient → M W (Worker W Temporal)
  polls conn pool objects =
      fatal "dial temporal: " (TemporalClient.dial lib.client_dial cfg) >>= runs conn pool objects

  abbrev ensures : Conn → Postgres W → MinioStore MinioClient → M W (Worker W Temporal)
  ensures conn pool objects = ensured lib.minio cfg objects >> polls conn pool objects

  abbrev stores : Conn → Postgres W → M W (Worker W Temporal)
  stores conn pool = fatal "" (lift (store_of lib.minio cfg)) >>= ensures conn pool

  abbrev pools : Conn → M W (Worker W Temporal)
  pools conn = fatal "" (lib.pool_new cfg.database_url) >>= stores conn

  -- A worker that comes up has made every connection, in the order of `main`, and, where the configuration asks
  -- for it, its bucket was ensured; it polls the configured task queue, and its activities resize
  -- through the image service of the configured address, store in the configured bucket and update the
  -- configured database.
  pub main-IsRegistered :
      {worker : Worker W Temporal} {w' : W}
      → main lib cfg w ≡ (ok worker, w')
      → IsRegistered worker w'
  unfolding main
  main-IsRegistered h =
      let (conn, a, h1) =
        after_lift "" pools (dial lib.new_token_source lib.new_client cfg.image_service_addr) w h in
      let (pool, x, b, h2) = after_fatal "" (stores conn) (lib.pool_new cfg.database_url) w h1 in
      let (objects, c, h3) = after_lift "" (ensures conn pool) (store_of lib.minio cfg) x h2 in
      let last = bind-IsBound (ensured lib.minio cfg objects) (λ _. polls conn pool objects) x h3 in
      let (client, y, d, h4) =
        after_fatal "dial temporal: " (runs conn pool objects)
          (TemporalClient.dial lib.client_dial cfg) last.world last.second in
      record {
        conn = conn;
        pool = pool;
        objects = objects;
        client = client;
        pool_world = x;
        ensured_world = last.world;
        dialled = a;
        connected = b;
        store = c;
        bucket = last.first;
        temporal = d ∙ ap (λ p. (ok client, p.1)) h4;
        same_worker = worker_inj (ap (λ p. p.0) h4);
      }
    where
      worker_inj :
          {p q : Worker W Temporal} → ◌≡◌ {A = Result (Worker W Temporal)} (ok p) (ok q) → q ≡ p
      worker_inj e = cc
