-- ===== src/Tests/Commands.antt =====
-- The HTTP server's main function over libraries that connect, and a request to what it serves.
use mathlib.Core.Path.{subst}
use go_image_service.Base.{
  String, [], ◌∷◌, Option, none, some, ◌≡◌, ◌≢◌, refl, true, false, ◌==◌, string_eq, nat_eq, len,
  ne_of_==, cut_prefix, has_prefix, Result, ok, err, message, pure, if◌then◌else◌,
}
use go_image_service.Config.{Config}
use go_image_service.Postgres.{Postgres}
use go_image_service.Metadata
use go_image_service.Metadata.Table.{Row, new_row, IsTable}
use go_image_service.Storage
use go_image_service.Storage.{Minio, bytes}
use go_image_service.AuthGrpc.{AuthService, client_verify, dial_client}
use go_image_service.TemporalClient
use go_image_service.GrpcAuth
use go_image_service.Transport.Http.{write, write_json, set_header, Request, fresh, get_value}
use go_image_service.Transport.Handlers.{Handler, images, list_images, create_upload}
use go_image_service.Transport.Middleware.{require_auth}
use go_image_service.Transport.Mux.{find_route}
use go_image_service.Transport.Routes.{serve}
use go_image_service.Cmd.HttpServer.{Libraries, main}
use go_image_service.Upload
use go_image_service.Pipeline.Orchestrator
use go_image_service.Cmd.Listed.{IsListed, main-IsListed}
use go_image_service.Cmd.Created.{IsCreated}
use go_image_service.Cmd.Created.Accepted.{main-IsCreated}
use go_image_service.Cmd.Served.{IsServed, main-IsServed}
use go_image_service.Tests.Rows.{find, one_row, one_row-IsTable}

abbrev pub Db : Type 0
Db = Option Row

-- A client of minio is its endpoint, and an object its key.
abbrev pub local_minio : Minio Db String String
local_minio = record {
  new_client = λ endpoint _. ok endpoint;
  set_range = λ first last. ok (bytes first last);
  bucket_exists = λ _ _. pure true;
  make_bucket = λ _ _. pure tt;
  presigned_put_object = λ client _ key _. pure key;
  presigned_get_object = λ client _ key _. pure key;
  get_object = λ _ _ key _. pure key;
  read_all = λ _. pure (137 ∷ 80 ∷ []);
  put_object = λ _ _ _ _ _ _. pure tt;
  stat_object = λ _ _ _. pure (2, "image/png");
  remove_object = λ _ _ _. pure tt;
}

abbrev pub obliging : Orchestrator.TemporalClient Db
obliging = record { execute_workflow = λ _ _ _. pure tt; signal_workflow = λ _ _. pure tt }

-- The token "t1" is ann's.
abbrev pub anns : AuthService Db
anns = record {
  register = λ _ _. pure "ann";
  login = λ _ _. pure "t1";
  verify = λ token w. (if token == "t1" then ok "ann" else err (message "no"), w);
}

abbrev pub libraries : Libraries Db String String String String
libraries = record {
  client_dial = λ _. pure obliging;
  new_token_source = λ audience. ok audience;
  new_client = λ target _. ok target;
  new_auth_service_client = λ _. anns;
  pool_new = λ _. pure one_row;
  ping = λ _. pure tt;
  minio = local_minio;
  rand_read = λ _. pure (1 ∷ 2 ∷ []);
  decoder = record {
    credentials = λ _. err (message "JSON");
    create_upload = λ _. ok (record { filename = "f.png"; content_type = "image/png" });
  };
}

abbrev pub config : Config
config = record {
  http_addr = ":8080";
  image_service_addr = "image:50051";
  database_url = "postgres://";
  temporal_address = "temporal:7233";
  task_queue = "uploads";
  jwt_secret = "secret";
  auth_service_addr = "auth:50052";
  cors_allowed_origins = "http://localhost:3000" ∷ [];
  minio_endpoint = "minio:9000";
  minio_public_endpoint = "localhost:9000";
  minio_access_key = "key";
  minio_secret_key = "secret";
  minio_bucket = "images";
  temporal_namespace = "default";
  temporal_api_key = "";
  object_store_use_ssl = false;
  object_store_ensure_bucket = true;
}

abbrev pub page : Handler Db
page r w world = (w, world)

abbrev pub the_id : String
the_id = "0123456789abcdef0123456789abcdef"

abbrev pub holding : Db
holding = some (new_row the_id "f.png" "image/png" "complete" "ann" 7)

-- The handler that comes up.
abbrev up_or : Result (String × Handler Db) → Handler Db
up_or (ok (_, h)) = h
up_or (err _) = page

abbrev pub the_handler : Handler Db
the_handler = up_or (main libraries page config holding).0

pub comes_up : main libraries page config holding ≡ (ok (":8080", the_handler), holding)
unfolding main TemporalClient.dial TemporalClient.options dial_client GrpcAuth.dial
    Storage.new_minio_store Storage.ensure_bucket string_eq GrpcAuth.is_cloud_run has_prefix nat_eq
comes_up = refl

abbrev pub the_request : Request
the_request = record {
  method = "GET";
  segments = "images" ∷ the_id ∷ [];
  headers = ("Authorization", "Bearer t1") ∷ [];
  query = ("size", "12x12") ∷ [];
  body = "";
  path_id = "";
  user_id = none;
}

pub slash : the_id ≢ "/"
unfolding string_eq
slash = ne_of_== the_id "/" refl

sent : (the_handler the_request fresh holding).0.status ≡ some 200
unfolding main TemporalClient.dial TemporalClient.options dial_client GrpcAuth.dial
    Storage.new_minio_store Storage.ensure_bucket string_eq GrpcAuth.is_cloud_run has_prefix nat_eq
    serve find_route require_auth cut_prefix get_value images len write set_header client_verify
    Metadata.get Storage.get
sent = refl

pub tables :
    (pool : Postgres Db) (v v' : Db)
    → ◌≡◌ {A = Result (Postgres Db) × Db} (ok one_row, v) (ok pool, v')
    → IsTable pool find
tables pool v v' e = subst (λ p. IsTable p find) same one_row-IsTable
  where
    same : one_row ≡ pool
    same = cc

main-IsServed_example :
    IsServed libraries config find the_request the_id holding
      (the_handler the_request fresh holding)
main-IsServed_example =
    main-IsServed libraries config find the_request the_id holding page holding holding ":8080"
      the_handler comes_up tables refl refl slash sent

abbrev list_request : Request
list_request = record the_request { segments = "images" ∷ [] }

lists : (the_handler list_request fresh holding).0.status ≡ some 200
unfolding main TemporalClient.dial TemporalClient.options dial_client GrpcAuth.dial
    Storage.new_minio_store Storage.ensure_bucket string_eq GrpcAuth.is_cloud_run has_prefix nat_eq
    serve find_route require_auth cut_prefix get_value list_images write_json client_verify
    Metadata.list
lists = refl

main-IsListed_example :
    IsListed libraries config find list_request holding (the_handler list_request fresh holding)
main-IsListed_example =
    main-IsListed libraries config find list_request holding page holding holding ":8080"
      the_handler comes_up tables refl refl lists

abbrev pub create_request : Request
create_request = record the_request { method = "POST"; segments = "uploads" ∷ [] }

pub creates : (the_handler create_request fresh none).0.status ≡ some 201
unfolding main TemporalClient.dial TemporalClient.options dial_client GrpcAuth.dial
    Storage.new_minio_store Storage.ensure_bucket string_eq GrpcAuth.is_cloud_run has_prefix nat_eq
    serve find_route require_auth cut_prefix get_value create_upload write_json client_verify
    Upload.negotiate Metadata.create Orchestrator.start Storage.presign
creates = refl

main-IsCreated_example :
    (temporal : Orchestrator.TemporalClient Db) × (v : Db) × (TemporalClient.dial
        libraries.client_dial config holding
      ≡ (ok temporal, v))
    × IsCreated libraries config find create_request none temporal
        (the_handler create_request fresh none)
main-IsCreated_example =
    main-IsCreated libraries config find create_request none page holding holding ":8080"
      the_handler comes_up tables refl refl creates
