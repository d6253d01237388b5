-- ===== src/Cmd/Interleaved.antt =====
-- The server's requests and the worker's activities over one table, in any order.
pub mod Serving
pub mod Rows
use mathlib.Core.Path.{subst}
use go_image_service.Base.{
  ℕ, String, ◌<>◌, ◌≡◌, ◌≢◌, refl, sym, ap, ◌∙◌, ◌==◌, string_eq, List, [], ◌∷◌, Result, ok, err, M,
  Option, none, some, catch, pure, fail,
}
use go_image_service.Base.Inversion.{catch-pure}
use go_image_service.Base.Keeps.{Keeps, bind-Keeps, ended}
use go_image_service.Config.{Config}
use go_image_service.Postgres.{Postgres}
use go_image_service.Metadata
use go_image_service.Metadata.{update_status}
use go_image_service.Metadata.Table.{
  Row, Table, Same, Inserted, Updated, new_row, set_status, IsTable,
}
use go_image_service.Metadata.Refinement.{create-go, update-go, get-Same, list-Same}
use go_image_service.Storage
use go_image_service.Storage.{MinioStore, Range}
use go_image_service.AuthGrpc.{
  AuthService, client, client_register, client_login, client_verify, dial_client,
}
use go_image_service.Upload
use go_image_service.Upload.Framing.{negotiate-Keeps}
use go_image_service.Pipeline.Activities.{Activities}
use go_image_service.Pipeline.Workflow.{Call, run, UploadInput}
use go_image_service.Pipeline.Workflow.Framing
use go_image_service.Pipeline.Workflow.Apart.{IsApart}
use go_image_service.Pipeline.Orchestrator
use go_image_service.TemporalClient
use go_image_service.Transport.Http.{Request, Writer, fresh}
use go_image_service.Transport.Server.{Server}
use go_image_service.Transport.Handlers.{Handler}
use go_image_service.Transport.Creation.{IsImageType}
use go_image_service.Transport.Routes.{serve}
use go_image_service.Transport.Framing.{IsUser, IsServing, IsKept}
use go_image_service.Transport.Kept.{serve-IsKept}
use go_image_service.Cmd.Caller.{verify-eq}
use go_image_service.Cmd.HttpServer.{Libraries, server_of, main}
use go_image_service.Cmd.Startup.{IsUp, main-IsUp}
use go_image_service.Cmd.Evolution.{
  IsEvolved, refl-IsEvolved, Same-IsEvolved, Updated-IsEvolved, Inserted-IsEvolved, Write-IsEvolved,
}

module _ {W : Type 0} (handler : Handler W) (a : Activities W) (find : W → Table) where
  -- The worlds that follow from one: requests, attempts of activities and whatever leaves the
  -- table alone, in any order.
  pub data Reach (first : W) : W → Type 0 where
    start : Reach first first
    request :
        {w w' : W} (r : Request) (response : Writer)
        → Reach first w
        → handler r fresh w ≡ (response, w')
        → Reach first w'
    attempt :
        {w w' : W} (c : Call) (result : Result (Unit {0}))
        → Reach first w
        → run a c w ≡ (result, w')
        → Reach first w'
    elsewhere : {w w' : W} → Reach first w → Same (find w) (find w') → Reach first w'

-- What the server relies on: the table, and other services that leave it as it is.
pub record IsHttpApart {W Source Conn Client Object : Type 0}
    (lib : Libraries W Source Conn Client Object) (find : W → Table)
    (temporal : Orchestrator.TemporalClient W) (rpc : AuthService W) (pool : Postgres W)
    : Type 0 where
  pub table : IsTable pool find
  pub execute_same :
      (id queue : String) (i : UploadInput) (w : W)
      → Same (find w) (find (temporal.execute_workflow id queue i w).1)
  pub signal_same :
      (id name : String) (w : W) → Same (find w) (find (temporal.signal_workflow id name w).1)
  pub register_same :
      (email password : String) (w : W) → Same (find w) (find (rpc.register email password w).1)
  pub login_same :
      (email password : String) (w : W) → Same (find w) (find (rpc.login email password w).1)
  pub verify_same : (token : String) (w : W) → Same (find w) (find (rpc.verify token w).1)
  pub rand_same : (n : ℕ) (w : W) → Same (find w) (find (lib.rand_read n w).1)
  pub presign_same :
      (c : Client) (bucket key : String) (ttl : ℕ) (w : W)
      → Same (find w) (find (lib.minio.presigned_put_object c bucket key ttl w).1)
  pub get_object_same :
      (c : Client) (bucket key : String) (r : Range) (w : W)
      → Same (find w) (find (lib.minio.get_object c bucket key r w).1)
  pub read_all_same : (o : Object) (w : W) → Same (find w) (find (lib.minio.read_all o w).1)

module _ {W Source Conn Client Object : Type 0} (lib : Libraries W Source Conn Client Object)
    (cfg : Config) (find : W → Table) where
  -- A user whom the configured auth service names for some token, a file name, and an image type.
  pub record IsAuthored (user_id filename content_type : String) : Type 0 where
    pub rpc : AuthService W
    pub dialled :
        dial_client lib.new_token_source lib.new_client lib.new_auth_service_client
          cfg.auth_service_addr
        ≡ ok rpc
    pub token : String
    pub before : W
    pub after : W
    pub verified : rpc.verify token before ≡ (ok user_id, after)
    pub named : filename ≢ ""
    pub image : IsImageType content_type
