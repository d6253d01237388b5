-- ===== src/Cmd/EndToEnd/Sent.antt =====
-- A success of `GET /images/{id}` sends what the object store held when the request came.
use go_image_service.Base.{ℕ, String, ◌≡◌, sym, ap, ◌∙◌, List, [], ◌∷◌, some, Result}
use go_image_service.Config.{Config}
use go_image_service.Postgres.{Postgres}
use go_image_service.Metadata.{select_sql, get}
use go_image_service.Metadata.Refinement.{result-world}
use go_image_service.Storage.{object_store}
use go_image_service.Storage.Contents.{Contents, IsStore, Unchanged}
use go_image_service.AuthGrpc.{AuthService}
use go_image_service.Transport.Http.{Request, fresh, raw, get_value, set_header, write}
use go_image_service.Transport.Handlers.{Handler}
use go_image_service.Transport.Middleware.{allow_origin}
use go_image_service.Transport.Disclosure.{IsDisclosed}
use go_image_service.Pipeline.Activities.{object_key}
use go_image_service.Cmd.Caller.{verify-eq}
use go_image_service.Cmd.HttpServer.{Libraries, server_of}
use go_image_service.Cmd.Startup.{IsUp}

-- What the server's other calls leave alone on the way to an object.
pub record IsStoreApart {W : Type 0} (rpc : AuthService W) (pool : Postgres W)
    (stored : W → Contents) : Type 0 where
  pub verify_same : (token : String) (w : W) → Unchanged (stored w) (stored (rpc.verify token w).1)
  pub select_same :
      (id : String) (w : W)
      → Unchanged (stored w) (stored (pool.query_row select_sql (id ∷ []) w).1)

module _ {W Source Conn Client Object : Type 0} (lib : Libraries W Source Conn Client Object)
    (cfg : Config) (r : Request) (id : String) (world : W) (stored : W → Contents) where
  -- What the response sends is what the store held when the request came.
  abbrev pub IsSent : Handler W → Type 0
  IsSent handler =
      (bytes : List ℕ) × (row_type : String) × (object_type : String) × (v : W) × (stored world
          (object_key id (get_value "size" r.query))
        ≡ some (bytes, object_type))
      × (handler r fresh world ≡ (
        write (raw bytes) (
            set_header "Content-Type" row_type
              (allow_origin (get_value "Origin" r.headers) cfg.cors_allowed_origins fresh)),
        v,
      ))

  module _ (web : Handler W) (w w' : W) (addr : String) (handler : Handler W)
      (up : IsUp lib web cfg w addr handler w')
      (store : IsStore (object_store lib.minio up.objects) stored)
      (apart : IsStoreApart up.rpc up.pool stored) where
    get-world :
        (id : String) (v : W) → (get up.pool id v).1 ≡ (up.pool.query_row select_sql (id ∷ []) v).1
    unfolding get
    get-world id v = result-world _ _ (up.pool.query_row select_sql (id ∷ []) v)

    get_same : (id : String) (v : W) → Unchanged (stored v) (stored (get up.pool id v).1)
    get_same id v = rw (get-world id v) (apart.select_same id v)

    pub disclosed-IsSent :
        IsDisclosed
          (server_of lib cfg up.temporal up.rpc up.pool up.objects)
          r
          world
          id
          (allow_origin (get_value "Origin" r.headers) cfg.cors_allowed_origins fresh)
          (handler r fresh world)
        → IsSent handler
    disclosed-IsSent d =
        let key = object_key id (get_value "size" r.query) in
        let (ct, held) = store.get_ok key d.read_world d.got_world d.bytes d.object in
        let verified : stored d.verified_world key ≡ stored world key =
          ap (λ (x : Result String × W). stored x.1 key)
            (sym (sym (verify-eq up.rpc d.verified.token world) ∙ d.verified.accepted))
          ∙ apart.verify_same d.verified.token world key in
        let read : stored d.read_world key ≡ stored d.verified_world key =
          ap (λ (x : Result (String × String × String) × W). stored x.1 key) (sym d.row)
          ∙ get_same id d.verified_world key in
        (d.bytes, d.content_type, ct, d.got_world, sym (read ∙ verified) ∙ held, d.response)
