-- ===== src/Cmd/Interleaved/Rows.antt =====
-- What no order of requests and activities can do to the uploads table.
use mathlib.Core.Path.{subst}
use go_image_service.Base.{String, ◌≡◌, refl, sym, string_eq, Result, ok}
use go_image_service.Config.{Config}
use go_image_service.Postgres.{Postgres}
use go_image_service.Metadata.Table.{Table, Same}
use go_image_service.Metadata.Refinement.{update-go}
use go_image_service.AuthGrpc.{AuthService, dial_client}
use go_image_service.Pipeline.Activities.{Activities}
use go_image_service.Pipeline.Workflow.{run}
use go_image_service.Pipeline.Workflow.Framing
use go_image_service.Pipeline.Workflow.Apart.{IsApart}
use go_image_service.Pipeline.Orchestrator
use go_image_service.TemporalClient
use go_image_service.Transport.Http.{Request, Writer, fresh}
use go_image_service.Transport.Handlers.{Handler}
use go_image_service.Transport.Kept.{serve-IsKept}
use go_image_service.Cmd.HttpServer.{Libraries, server_of, main}
use go_image_service.Cmd.Startup.{main-IsUp}
use go_image_service.Cmd.Evolution.{
  IsEvolved, refl-IsEvolved, Same-IsEvolved, Updated-IsEvolved, Write-IsEvolved,
}
use go_image_service.Cmd.Interleaved.{
  Reach, start, request, attempt, elsewhere, IsHttpApart, IsAuthored,
}
use go_image_service.Pipeline.Workflow.Framing.{call_id, run-Keeps}
use go_image_service.Cmd.Interleaved.Serving.{Since, server-IsServing}

module _ {W Source Conn Client Object : Type 0} (lib : Libraries W Source Conn Client Object)
    (cfg : Config) (find : W → Table) (a : Activities W) (apart : IsApart a find) where
  kept : (first : W) (id : String) → Framing.IsKept a id (Since lib cfg find first)
  unfolding Since
  kept first id = record {
    update-Keeps = λ s. record {
      at = λ w h.
          Write-IsEvolved (IsAuthored lib cfg find)
            (Updated-IsEvolved (IsAuthored lib cfg find) id s) h
            (update-go a.repo find apart.table w id s _ refl);
    };
    get-Keeps = λ key. record { at = λ w h. Same-IsEvolved _ h (apart.get_same key w) };
    sniff-Keeps = λ key n. record { at = λ w h. Same-IsEvolved _ h (apart.sniff_same key n w) };
    head-Keeps = λ key. record { at = λ w h. Same-IsEvolved _ h (apart.head_same key w) };
    put-Keeps = λ key content ct. record {
      at = λ w h. Same-IsEvolved _ h (apart.put_same key content ct w);
    };
    delete-Keeps = λ key. record { at = λ w h. Same-IsEvolved _ h (apart.delete_same key w) };
    resize-Keeps =
        λ content x y. record { at = λ w h. Same-IsEvolved _ h (apart.resize_same content x y w) };
  }

  module _ (handler : Handler W) (first : W)
      (serves : (r : Request) (w : W)
        → Since lib cfg find first w
        → Since lib cfg find first (handler r fresh w).1) where
    Reach-Since : {w : W} → Reach handler a find first w → Since lib cfg find first w
    unfolding Since
    Reach-Since start = refl-IsEvolved (IsAuthored lib cfg find) (find first)
    Reach-Since (request {w} r _ run e) =
        subst (λ (x : Writer × W). Since lib cfg find first x.1) e (serves r w (Reach-Since run))
    Reach-Since (attempt {w} c _ run e) =
        subst (λ (x : Result (Unit {0}) × W). Since lib cfg find first x.1) e
          ((run-Keeps a (Since lib cfg find first) c (kept first (call_id c))).at w
            (Reach-Since run))
    Reach-Since (elsewhere run same) =
        Same-IsEvolved (IsAuthored lib cfg find) (Reach-Since run) same

  -- In whatever order requests come to the handler that `main` comes up with and activities of the
  -- worker are attempted, for whatever ids and however they end: a row of the uploads table is
  -- never removed and never changes but for its status, so that its owner stays its owner; and
  -- every new row belongs to a user whom the auth service named for some token, under its own id,
  -- with a file name and one of the two image types. A request and an attempt are one step each.
  -- The pool is assumed to do to the table what its statements say, and the other services and the
  -- demo page to leave it alone.
  pub Reach-IsEvolved :
      (web : Handler W)
      → ((r : Request) (response : Writer) (w : W) → Same (find w) (find (web r response w).1))
      → (w w' : W) (addr : String) (handler : Handler W)
      → main lib web cfg w ≡ (ok (addr, handler), w')
      → ((temporal : Orchestrator.TemporalClient W) (rpc : AuthService W) (pool : Postgres W)
            (u v v' : W)
          → TemporalClient.dial lib.client_dial cfg u ≡ (ok temporal, v)
          → dial_client lib.new_token_source lib.new_client lib.new_auth_service_client
              cfg.auth_service_addr
            ≡ ok rpc
          → lib.pool_new cfg.database_url v ≡ (ok pool, v')
          → IsHttpApart lib find temporal rpc pool)
      → (first last : W) → Reach handler a find first last
      → IsEvolved (IsAuthored lib cfg find) (find first) (find last)
  unfolding Since
  Reach-IsEvolved web page w w' addr handler h laws first last run =
      let up = main-IsUp lib web cfg w h in
      let quiet =
        laws up.temporal up.rpc up.pool w up.dialled_world up.pool_world up.dialled up.auth
          up.connected in
      let serving =
        server-IsServing lib cfg find first up.temporal up.rpc up.pool up.objects up.auth quiet in
      let served =
        serve-IsKept (server_of lib cfg up.temporal up.rpc up.pool up.objects)
          (Since lib cfg find first) serving web
          (record { at = λ r response v k. Same-IsEvolved _ k (page r response v) })
          cfg.cors_allowed_origins in
      Reach-Since handler first
        (λ r v k.
          subst (λ (h : Handler W). Since lib cfg find first (h r fresh v).1) (sym up.same_handler)
            (served.at r fresh v k))
        run
