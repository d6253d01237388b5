-- ===== src/Cmd/Served.antt =====
-- The HTTP server over its real components: the bytes that it sends belong to a row of the table.
use mathlib.Core.Path.{subst}
use go_image_service.Base.{ℕ, String, ◌<>◌, ◌≡◌, ◌≢◌, sym, ap, ◌∙◌, true, List, [], ◌∷◌, some, ok}
use go_image_service.Config.{Config}
use go_image_service.Postgres.{Postgres}
use go_image_service.Metadata.Table.{Row, Table, IsTable}
use go_image_service.Metadata.Found.{row_of}
use go_image_service.Metadata.Refinement.{get-GetSpec}
use go_image_service.Storage
use go_image_service.Storage.{MinioStore}
use go_image_service.AuthGrpc.{AuthService, dial_client}
use go_image_service.Transport.Http.{Request, Writer, fresh, raw, get_value, set_header, write}
use go_image_service.Transport.Handlers.{Handler, is_image_size}
use go_image_service.Transport.Middleware.{allow_origin}
use go_image_service.Transport.Authentication.{authorization}
use go_image_service.Transport.Disclosure.{IsDisclosed, serve_image-IsDisclosed}
use go_image_service.Cmd.Wiring.{store_of}
use go_image_service.Cmd.HttpServer.{Libraries, server_of, main}
use go_image_service.Cmd.Caller.{verify-eq}
use go_image_service.Cmd.Startup.{IsUp, main-IsUp}

module _ {W Source Conn Client Object : Type 0} (lib : Libraries W Source Conn Client Object)
    (cfg : Config) (find : W → Table) (r : Request) (id : String) (world : W) where
  -- The bytes of the object `{id}/{size}` of the configured bucket go to the user who owns the row of the
  -- id, as the auth service says by the request's token.
  pub record IsServed (result : Writer × W) : Type 0 where
    pub rpc : AuthService W
    pub dialled :
        dial_client lib.new_token_source lib.new_client lib.new_auth_service_client
          cfg.auth_service_addr
        ≡ ok rpc
    pub token : String
    pub header : authorization r ≡ "Bearer " <> token
    pub row : Row
    pub verified_world : W
    pub verified : rpc.verify token world ≡ (ok row.user_id, verified_world)
    pub there : find verified_world id ≡ some row
    pub objects : MinioStore Client
    pub made : store_of lib.minio cfg ≡ ok objects
    pub size : is_image_size (get_value "size" r.query) ≡ true
    pub bytes : List ℕ
    pub read_world : W
    pub got_world : W
    pub read :
        Storage.get lib.minio objects (id <> "/" <> get_value "size" r.query) read_world
        ≡ (ok bytes, got_world)
    pub response : result ≡ (
      write (raw bytes) (
          set_header "Content-Type" row.content_type
            (allow_origin (get_value "Origin" r.headers) cfg.cors_allowed_origins fresh)),
      got_world,
    )

  module _ (web : Handler W) (w w' : W) (addr : String) (handler : Handler W)
      (up : IsUp lib web cfg w addr handler w') (table : IsTable up.pool find) where
    disclosed-IsServed :
        {result : Writer × W}
        → IsDisclosed
            (server_of lib cfg up.temporal up.rpc up.pool up.objects)
            r
            world
            id
            (allow_origin (get_value "Origin" r.headers) cfg.cors_allowed_origins fresh)
            result
        → IsServed result
    disclosed-IsServed d =
        let (row, here, _, owner, type) =
          row_of (get-GetSpec up.pool find table d.verified_world id) d.status d.user_id
            d.content_type (ap (λ p. p.0) d.row) in
        record {
          rpc = up.rpc;
          dialled = up.auth;
          token = d.verified.token;
          header = d.verified.header;
          row = row;
          verified_world = d.verified_world;
          verified =
              sym (verify-eq up.rpc d.verified.token world)
              ∙ d.verified.accepted
              ∙ ap (λ u. (ok u, d.verified_world)) (sym owner);
          there = here;
          objects = up.objects;
          made = up.store;
          size = d.size;
          bytes = d.bytes;
          read_world = d.read_world;
          got_world = d.got_world;
          read = d.object;
          response =
              d.response
              ∙ ap
                  (λ t. (
                    write (raw d.bytes) (
                        set_header "Content-Type" t (
                          allow_origin (get_value "Origin" r.headers) cfg.cors_allowed_origins
                            fresh)),
                    d.got_world,
                  ))
                  (sym type);
        }

  -- Whatever handler `main` comes up with: its `GET /images/{id}`, for an id that is not "/",
  -- answers 200 only to a user whom the auth service names for the token, who owns the row of the
  -- id in the uploads table; the response is then the object `{id}/{size}` of the configured
  -- store, for one of the three sizes, with the content type of that row. The pool is assumed to
  -- do to the table what its statements say.
  pub main-IsServed :
      (web : Handler W) (w w' : W) (addr : String) (handler : Handler W)
      → main lib web cfg w ≡ (ok (addr, handler), w')
      → ((pool : Postgres W) (v v' : W)
          → lib.pool_new cfg.database_url v ≡ (ok pool, v')
          → IsTable pool find)
      → r.method ≡ "GET"
      → r.segments ≡ "images" ∷ id ∷ []
      → id ≢ "/"
      → (handler r fresh world).0.status ≡ some 200
      → IsServed (handler r fresh world)
  main-IsServed web w w' addr handler h tables get path slash e =
      let up = main-IsUp lib web cfg w h in
      let s = server_of lib cfg up.temporal up.rpc up.pool up.objects in
      let same = ap (λ (h : Handler W). h r fresh world) up.same_handler in
      let d =
        serve_image-IsDisclosed s web cfg.cors_allowed_origins r world id get path slash
          (ap (λ (p : Writer × W). p.0.status) (sym same) ∙ e) in
      subst IsServed (sym same) (
        disclosed-IsServed web w w' addr handler up
          (tables up.pool up.dialled_world up.pool_world up.connected) d)
