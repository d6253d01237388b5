-- ===== src/Cmd/Joined.antt =====
-- What cmd/httpserver/main.go and cmd/worker/main.go agree on when both run with one configuration.
pub mod Dialling
use mathlib.Core.Path.{subst}
use go_image_service.Base.{
  string_eq, ℕ, String, ◌<>◌, ◌≡◌, ◌≢◌, refl, sym, ap, ◌∙◌, [], ◌∷◌, some, Result, ok,
}
use go_image_service.Config.{Config}
use go_image_service.Postgres.{Postgres}
use go_image_service.Metadata.Table.{Table, IsTable}
use go_image_service.Storage.{MinioStore, object_store, presign}
use go_image_service.Storage.Endpoints.{IsSplit, new_minio_store-IsSplit}
use go_image_service.Transport.Http.{
  Request, Writer, fresh, get_value, write_json, create_upload_response,
}
use go_image_service.Transport.Handlers.{Handler}
use go_image_service.Transport.Middleware.{allow_origin}
use go_image_service.TemporalClient
use go_image_service.TemporalClient.{ClientOptions}
use go_image_service.Pipeline.Orchestrator
use go_image_service.Cmd.HttpServer.{Libraries, main}
use go_image_service.Cmd.Worker
use go_image_service.Cmd.Worker.{Worker}
use go_image_service.Cmd.Wiring.{store_of, ensured}
use go_image_service.Cmd.Startup.{IsUp, main-IsUp}
use go_image_service.Cmd.Registered.{main-IsRegistered}
use go_image_service.Cmd.Created.{IsCreated}
use go_image_service.Cmd.Created.Accepted.{main-IsCreated}
use go_image_service.Cmd.Joined.Dialling.{
  IsOptions, IsEnsured, options-IsOptions, ensured-IsEnsured,
}

module _ {W Source Conn Client Object Source' Conn' Polled : Type 0}
    (lib : Libraries W Source Conn Client Object)
    (worker_lib : Worker.Libraries W Source' Conn' Polled Client Object) (cfg : Config) where
  -- The calls of the two on their way up, each in the world that the one before left; then the upload's
  -- workflow, on the task queue at which the worker polls, and its URL, for the bucket that the
  -- worker's activities use.
  pub record IsTaken (worker : Worker W Polled) (w w' v v' : W) (r : Request) (result : Writer × W)
      : Type 0 where
    pub options : ClientOptions
    pub given : IsOptions cfg options
    pub client : Orchestrator.TemporalClient W
    pub dialled_world : W
    pub dialled : lib.client_dial options w ≡ (ok client, dialled_world)
    pub pool : Postgres W
    pub pool_world : W
    pub connected : lib.pool_new cfg.database_url dialled_world ≡ (ok pool, pool_world)
    pub pinged_world : W
    pub answered : lib.ping pool pool_world ≡ (ok tt, pinged_world)
    pub worker_world : W
    pub worker_connected :
        worker_lib.pool_new cfg.database_url v ≡ (ok worker.activities.repo, worker_world)
    pub polling_world : W
    pub polling : worker_lib.client_dial options polling_world ≡ (ok worker.client, v')
    pub objects : MinioStore Client
    pub clients :
        IsSplit lib.minio cfg.minio_endpoint cfg.minio_public_endpoint cfg.minio_access_key
          cfg.minio_secret_key cfg.minio_bucket cfg.object_store_use_ssl objects
    pub server_bucket : IsEnsured lib.minio cfg objects pinged_world w'
    pub worker_bucket : IsEnsured lib.minio cfg objects worker_world polling_world
    pub worker_objects : worker.activities.objects ≡ object_store lib.minio objects
    pub id : String
    pub filename : String
    pub content_type : String
    pub pending_world : W
    pub started_world : W
    pub started :
        client.execute_workflow
          ("upload-" <> id)
          worker.task_queue
          (record { id = id; content_type = content_type; filename = filename })
          pending_world
        ≡ (ok tt, started_world)
    pub url : String
    pub presigned_world : W
    pub presigned :
        lib.minio.presigned_put_object clients.presigner cfg.minio_bucket
          (id <> "/original")
          900
          started_world
        ≡ (ok url, presigned_world)
    pub response : result ≡ (
      write_json 201
          (create_upload_response id url 900)
          (allow_origin (get_value "Origin" r.headers) cfg.cors_allowed_origins fresh),
      presigned_world,
    )

  world_eq :
      {a b : Result (Orchestrator.TemporalClient W)} {x y : W}
      → ◌≡◌ {A = Result (Orchestrator.TemporalClient W) × W} (a, x) (b, y)
      → x ≡ y
  world_eq e = ap (λ p. p.1) e

  ok_eq : {a b : MinioStore Client} → ◌≡◌ {A = Result (MinioStore Client)} (ok a) (ok b) → a ≡ b
  ok_eq e = cc

  -- For a handler that `main` of the HTTP server comes up with and a worker that `main` of
  -- cmd/worker comes up with, from the same configuration and over the same minio library: a 201
  -- of `POST /uploads` has started the workflow `upload-{id}` on the task queue that the worker
  -- polls, through a Temporal client dialled with the options that the worker polls with, and has
  -- then presigned a PUT of `{id}/original` for 900 seconds for the configured bucket, through the
  -- client of the public endpoint; the worker's activities work on the objects of this bucket,
  -- through the client of the internal endpoint. The options hold the API key and TLS if a key is
  -- configured, and neither if none is. On its way up the server dialled Temporal, connected to
  -- the configured database, which answered, and ensured the bucket; the worker connected to the
  -- configured database, which its activities update, ensured the bucket and dialled Temporal:
  -- each in this order, and the bucket was looked up, and made where it was missing, if the
  -- configuration asks for it, and nothing was called for it otherwise. The pool is assumed to do
  -- to the table what its statements say.
  pub main-IsTaken :
      lib.minio ≡ worker_lib.minio
      → (find : W → Table) → (web : Handler W) (w w' : W) (addr : String) (handler : Handler W)
      → main lib web cfg w ≡ (ok (addr, handler), w')
      → ((pool : Postgres W) (x x' : W)
          → lib.pool_new cfg.database_url x ≡ (ok pool, x')
          → IsTable pool find)
      → (worker : Worker W Polled) (v v' : W) → Worker.main worker_lib cfg v ≡ (ok worker, v')
      → (r : Request) (world : W) → r.method ≡ "POST"
      → r.segments ≡ "uploads" ∷ []
      → (handler r fresh world).0.status ≡ some 201
      → IsTaken worker w w' v v' r (handler r fresh world)
  unfolding TemporalClient.dial presign string_eq
  main-IsTaken same find web w w' addr handler h tables worker v v' k r world post path e =
      let up = main-IsUp lib web cfg w h in
      let at_work = main-IsRegistered worker_lib cfg v k in
      let (client, dialled_world, dialled, c) =
        main-IsCreated lib cfg find r world web w w' addr handler h tables post path e in
      let made' = ap (λ m. store_of m cfg) same ∙ at_work.store in
      let served : up.objects ≡ c.objects = ok_eq (sym up.store ∙ c.made) in
      let worked : at_work.objects ≡ c.objects = ok_eq (sym made' ∙ c.made) in
      let split =
        new_minio_store-IsSplit lib.minio cfg.minio_endpoint cfg.minio_public_endpoint
          cfg.minio_access_key cfg.minio_secret_key cfg.minio_bucket cfg.object_store_use_ssl
          c.objects c.made in
      record {
        options = TemporalClient.options cfg;
        given = options-IsOptions cfg;
        client = client;
        dialled_world = dialled_world;
        dialled = dialled;
        pool = up.pool;
        pool_world = up.pool_world;
        connected =
            ap (lib.pool_new cfg.database_url) (world_eq (sym dialled ∙ up.dialled)) ∙ up.connected;
        pinged_world = up.pinged_world;
        answered = up.answered;
        worker_world = at_work.pool_world;
        worker_connected =
            at_work.connected
            ∙ ap (λ (x : Worker W Polled). (ok x.activities.repo, at_work.pool_world))
                (sym at_work.same_worker);
        polling_world = at_work.ensured_world;
        polling =
            at_work.temporal
            ∙ ap (λ (x : Worker W Polled). (ok x.client, v')) (sym at_work.same_worker);
        objects = c.objects;
        clients = split;
        server_bucket =
            ensured-IsEnsured lib.minio cfg c.objects up.pinged_world w'
              (subst (λ o. ensured lib.minio cfg o up.pinged_world ≡ (ok tt, w')) served up.bucket);
        worker_bucket =
            ensured-IsEnsured lib.minio cfg c.objects at_work.pool_world at_work.ensured_world (
              subst
                (λ o. ensured lib.minio cfg o at_work.pool_world ≡ (ok tt, at_work.ensured_world))
                worked
                (subst
                  (λ m.
                    ensured m cfg at_work.objects at_work.pool_world
                    ≡ (ok tt, at_work.ensured_world))
                  (sym same) at_work.bucket));
        worker_objects =
            ap (λ (x : Worker W Polled). x.activities.objects) at_work.same_worker
            ∙ ap (λ m. object_store m at_work.objects) (sym same)
            ∙ ap (object_store lib.minio) worked;
        id = c.id;
        filename = c.req.filename;
        content_type = c.req.content_type;
        pending_world = c.pending_world;
        started_world = c.started_world;
        started =
            ap
              (λ (x : Worker W Polled).
                client.execute_workflow ("upload-" <> c.id) x.task_queue
                  (record {
                    id = c.id;
                    content_type = c.req.content_type;
                    filename = c.req.filename;
                  })
                  c.pending_world)
              at_work.same_worker
            ∙ c.started;
        url = c.url;
        presigned_world = c.presigned_world;
        presigned = sym (split.presign-put (c.id <> "/original") 900 c.started_world) ∙ c.presigned;
        response = c.response;
      }
