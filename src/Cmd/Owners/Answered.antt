-- ===== src/Cmd/Owners/Answered.antt =====
-- `GET /images/{id}/status` and `POST /uploads/{id}/complete` of the server that comes up.
use mathlib.Core.Path.{subst, ap₂}
use go_image_service.Base.{String, ◌≡◌, ◌≢◌, sym, ap, ◌∙◌, [], ◌∷◌, some, ok}
use go_image_service.Config.{Config}
use go_image_service.Postgres.{Postgres}
use go_image_service.Metadata.Table.{Table, IsTable}
use go_image_service.TemporalClient
use go_image_service.Pipeline.Orchestrator
use go_image_service.Transport.Http.{Request, fresh}
use go_image_service.Transport.Server.{Server}
use go_image_service.Transport.Handlers.{Handler, complete_upload, image_status}
use go_image_service.Transport.Mux.{find_route}
use go_image_service.Transport.Routes.{routes, serve}
use go_image_service.Transport.Routing.{find_route-id}
use go_image_service.Transport.Disclosure.{get_ne_options}
use go_image_service.Transport.Granted.{serve-IsGranted}
use go_image_service.Cmd.HttpServer.{Libraries, server_of, main}
use go_image_service.Cmd.Startup.{IsUp, main-IsUp}
use go_image_service.Cmd.Owners.{
  post_ne_options, report, hand_on, IsReported, IsSignalled, granted-IsReported,
  granted-IsSignalled,
}

module _ {W Source Conn Client Object : Type 0} (lib : Libraries W Source Conn Client Object)
    (cfg : Config) (find : W → Table) (r : Request) (id : String) (world : W) (web : Handler W)
    (w w' : W) (addr : String) (handler : Handler W) where
  module _ (up : IsUp lib web cfg w addr handler w') where
    abbrev server : Server W
    server = server_of lib cfg up.temporal up.rpc up.pool up.objects

    answered :
        (handler r fresh world).0.status ≡ some 200
        → (serve server web cfg.cors_allowed_origins r fresh world).0.status ≡ some 200
    answered e = ap (λ (h : Handler W). (h r fresh world).0.status) (sym up.same_handler) ∙ e

  -- Whatever handler `main` comes up with: its `GET /images/{id}/status`, for an id that is not "/", answers 200
  -- only to a user whom the auth service names for the token and who owns the row of the id in the
  -- uploads table, and then with the status of that row. The pool is assumed to do to the table
  -- what its statements say.
  pub main-IsReported :
      main lib web cfg w ≡ (ok (addr, handler), w')
      → ((pool : Postgres W) (v v' : W)
          → lib.pool_new cfg.database_url v ≡ (ok pool, v')
          → IsTable pool find)
      → r.method ≡ "GET"
      → r.segments ≡ "images" ∷ id ∷ "status" ∷ []
      → id ≢ "/"
      → (handler r fresh world).0.status ≡ some 200
      → IsReported lib cfg find r id world (handler r fresh world)
  unfolding image_status
  main-IsReported h tables get path slash e =
      let up = main-IsUp lib web cfg w h in
      let s = server up in
      let found =
        ap₂ (λ m p. find_route m p (routes s web)) get path ∙ (find_route-id s web id slash).1 in
      subst (IsReported lib cfg find r id world)
        (sym (ap (λ (h : Handler W). h r fresh world) up.same_handler))
        (granted-IsReported lib cfg find r id world web w w' addr handler up
          (tables up.pool up.dialled_world up.pool_world up.connected)
          (serve-IsGranted s report web cfg.cors_allowed_origins r world id
            (λ o. get_ne_options (sym get ∙ o)) found (answered up e)))

  -- Whatever handler `main` comes up with: its `POST /uploads/{id}/complete`, for an id that is not "/", answers
  -- 200 only to a user whom the auth service names for the token and who owns the row of the id in the
  -- uploads table. Then `upload-complete` was signalled to the workflow `upload-{id}` of the Temporal
  -- client that `main` dialled, and it was delivered or the workflow was gone. The pool is assumed
  -- to do to the table what its statements say.
  pub main-IsSignalled :
      main lib web cfg w ≡ (ok (addr, handler), w')
      → ((pool : Postgres W) (v v' : W)
          → lib.pool_new cfg.database_url v ≡ (ok pool, v')
          → IsTable pool find)
      → r.method ≡ "POST"
      → r.segments ≡ "uploads" ∷ id ∷ "complete" ∷ []
      → id ≢ "/"
      → (handler r fresh world).0.status ≡ some 200
      → (temporal : Orchestrator.TemporalClient W) × (v : W) × (TemporalClient.dial lib.client_dial
            cfg w
          ≡ (ok temporal, v))
        × IsSignalled lib cfg find r id world temporal (handler r fresh world)
  unfolding complete_upload
  main-IsSignalled h tables post path slash e =
      let up = main-IsUp lib web cfg w h in
      let s = server up in
      let found =
        ap₂ (λ m p. find_route m p (routes s web)) post path ∙ (find_route-id s web id slash).2 in
      let e' = answered up e in
      (
        up.temporal,
        up.dialled_world,
        up.dialled,
        subst (IsSignalled lib cfg find r id world up.temporal)
            (sym (ap (λ (h : Handler W). h r fresh world) up.same_handler))
            (granted-IsSignalled lib cfg find r id world web w w' addr handler up
              (tables up.pool up.dialled_world up.pool_world up.connected)
              (serve-IsGranted s (hand_on s) web cfg.cors_allowed_origins r world id
                (λ o. post_ne_options (sym post ∙ o)) found e')
              e'),
      )
