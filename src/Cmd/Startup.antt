-- ===== src/Cmd/Startup.antt =====
-- When the HTTP server comes up, and as what.
use go_image_service.Base.{
  String, ◌<>◌, ◌≡◌, refl, ap, ◌∙◌, Result, ok, err, message, error_text, M, ◌>>=◌, ◌>>◌, pure,
  fail, catch,
}
use go_image_service.Base.Inversion.{bind-IsBound}
use go_image_service.Config.{Config}
use go_image_service.Postgres.{Postgres}
use go_image_service.Storage.{MinioStore}
use go_image_service.TemporalClient
use go_image_service.AuthGrpc.{AuthService, dial_client}
use go_image_service.Pipeline.Orchestrator
use go_image_service.Transport.Handlers.{Handler}
use go_image_service.Transport.Routes.{serve}
use go_image_service.Cmd.Wiring.{fatal, lift, store_of, ensured}
use go_image_service.Cmd.HttpServer.{Libraries, server_of, main}

module _ {W A B : Type 0} (note : String) (f : A → M W B) {b : B} {w' : W} where
  fatal-go :
      (m : M W A) (w : W) (r : Result A × W)
      → m w ≡ r
      → catch {X = Result B × W}
          (catch {X = Result A × W} r pure (λ e. fail (message (note <> error_text e))))
          f
          fail
        ≡ (ok b, w')
      → (a : A) × (v : W) × (m w ≡ (ok a, v)) × (f a v ≡ (ok b, w'))
  fatal-go m w (ok a, v) e h = (a, v, e, h)
  fatal-go m w (err _, _) e h = cc

  -- What was not fatal succeeded, and the rest went on from there.
  pub after_fatal :
      (m : M W A) (w : W)
      → (fatal note m >>= f) w ≡ (ok b, w')
      → (a : A) × (v : W) × (m w ≡ (ok a, v)) × (f a v ≡ (ok b, w'))
  after_fatal m w h = fatal-go m w (m w) refl h

  pub after_lift :
      (r : Result A) (w : W)
      → (fatal note (lift r) >>= f) w ≡ (ok b, w')
      → (a : A) × (r ≡ ok a) × (f a w ≡ (ok b, w'))
  after_lift (ok a) w h = (a, refl, h)
  after_lift (err _) w h = cc

module _ {W Source Conn Client Object : Type 0} (lib : Libraries W Source Conn Client Object)
    (web : Handler W) (cfg : Config) (w : W) where
  -- Every connection was made in this order, each in the world that the one before left, the database
  -- answered, and the handler is that of the server over these connections.
  pub record IsUp (addr : String) (handler : Handler W) (w' : W) : Type 0 where
    pub temporal : Orchestrator.TemporalClient W
    pub rpc : AuthService W
    pub pool : Postgres W
    pub objects : MinioStore Client
    pub dialled_world : W
    pub pool_world : W
    pub pinged_world : W
    pub dialled : TemporalClient.dial lib.client_dial cfg w ≡ (ok temporal, dialled_world)
    pub auth :
        dial_client lib.new_token_source lib.new_client lib.new_auth_service_client
          cfg.auth_service_addr
        ≡ ok rpc
    pub connected : lib.pool_new cfg.database_url dialled_world ≡ (ok pool, pool_world)
    pub answered : lib.ping pool pool_world ≡ (ok tt, pinged_world)
    pub store : store_of lib.minio cfg ≡ ok objects
    pub bucket : ensured lib.minio cfg objects pinged_world ≡ (ok tt, w')
    pub same_addr : addr ≡ cfg.http_addr
    pub same_handler :
        handler ≡ serve (server_of lib cfg temporal rpc pool objects) web cfg.cors_allowed_origins

  abbrev dial_auth : Result (AuthService W)
  dial_auth =
      dial_client lib.new_token_source lib.new_client lib.new_auth_service_client
        cfg.auth_service_addr

  -- The stages of `main`, from the last one.
  abbrev listens :
      Orchestrator.TemporalClient W
      → AuthService W
      → Postgres W
      → MinioStore Client
      → M W (String × Handler W)
  listens tc rpc pool objects = do
    ensured lib.minio cfg objects
    pure (cfg.http_addr, serve (server_of lib cfg tc rpc pool objects) web cfg.cors_allowed_origins)

  abbrev stores :
      Orchestrator.TemporalClient W → AuthService W → Postgres W → M W (String × Handler W)
  stores tc rpc pool = fatal "" (lift (store_of lib.minio cfg)) >>= listens tc rpc pool

  abbrev pings :
      Orchestrator.TemporalClient W → AuthService W → Postgres W → M W (String × Handler W)
  pings tc rpc pool = fatal "cannot reach postgres: " (lib.ping pool) >> stores tc rpc pool

  abbrev pools : Orchestrator.TemporalClient W → AuthService W → M W (String × Handler W)
  pools tc rpc = fatal "" (lib.pool_new cfg.database_url) >>= pings tc rpc

  abbrev dials : Orchestrator.TemporalClient W → M W (String × Handler W)
  dials tc = fatal "" (lift dial_auth) >>= pools tc

  module _ {addr : String} {handler : Handler W} {w' : W} where
    listens-IsUp :
        (v x y : W) (tc : Orchestrator.TemporalClient W) (rpc : AuthService W) (pool : Postgres W)
        (objects : MinioStore Client)
        → TemporalClient.dial lib.client_dial cfg w ≡ (ok tc, v)
        → dial_auth ≡ ok rpc
        → lib.pool_new cfg.database_url v ≡ (ok pool, x)
        → lib.ping pool x ≡ (ok tt, y)
        → store_of lib.minio cfg ≡ ok objects
        → listens tc rpc pool objects y ≡ (ok (addr, handler), w')
        → IsUp addr handler w'
    listens-IsUp v x y tc rpc pool objects a b c d e h =
        let last = bind-IsBound (ensured lib.minio cfg objects) _ y h in
        record {
          temporal = tc;
          rpc = rpc;
          pool = pool;
          objects = objects;
          dialled_world = v;
          pool_world = x;
          pinged_world = y;
          dialled = a;
          auth = b;
          connected = c;
          answered = d;
          store = e;
          bucket = last.first ∙ ap (λ p. (ok tt, p.1)) last.second;
          same_addr = addr_inj (ap (λ p. p.0) last.second);
          same_handler = handler_inj (ap (λ p. p.0) last.second);
        }
      where
        addr_inj :
            {p q : String × Handler W}
            → ◌≡◌ {A = Result (String × Handler W)} (ok p) (ok q)
            → q.0 ≡ p.0
        addr_inj e = cc

        handler_inj :
            {p q : String × Handler W}
            → ◌≡◌ {A = Result (String × Handler W)} (ok p) (ok q)
            → q.1 ≡ p.1
        handler_inj e = cc

    stores-IsUp :
        (v x y : W) (tc : Orchestrator.TemporalClient W) (rpc : AuthService W) (pool : Postgres W)
        → TemporalClient.dial lib.client_dial cfg w ≡ (ok tc, v)
        → dial_auth ≡ ok rpc
        → lib.pool_new cfg.database_url v ≡ (ok pool, x)
        → lib.ping pool x ≡ (ok tt, y)
        → stores tc rpc pool y ≡ (ok (addr, handler), w')
        → IsUp addr handler w'
    stores-IsUp v x y tc rpc pool a b c d h =
        let (objects, e, next) = after_lift "" (listens tc rpc pool) (store_of lib.minio cfg) y h in
        listens-IsUp v x y tc rpc pool objects a b c d e next

    pools-IsUp :
        (v : W) (tc : Orchestrator.TemporalClient W) (rpc : AuthService W)
        → TemporalClient.dial lib.client_dial cfg w ≡ (ok tc, v)
        → dial_auth ≡ ok rpc
        → pools tc rpc v ≡ (ok (addr, handler), w')
        → IsUp addr handler w'
    pools-IsUp v tc rpc a b h =
        let (pool, x, c, next) =
          after_fatal "" (pings tc rpc) (lib.pool_new cfg.database_url) v h in
        let (_, y, d, last) =
          after_fatal "cannot reach postgres: " (λ _. stores tc rpc pool) (lib.ping pool) x next in
        stores-IsUp v x y tc rpc pool a b c d last

    -- A server that comes up has made every connection, in the order of `main`, with its database
    -- answering and, where the configuration asks for it, its bucket ensured; and it listens on the
    -- configured address with the routes over these very connections.
    pub main-IsUp : main lib web cfg w ≡ (ok (addr, handler), w') → IsUp addr handler w'
    unfolding main
    main-IsUp h =
        let (tc, v, a, next) =
          after_fatal "dial temporal: " dials (TemporalClient.dial lib.client_dial cfg) w h in
        let (rpc, b, last) = after_lift "" (pools tc) dial_auth v next in
        pools-IsUp v tc rpc a b last
