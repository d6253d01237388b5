-- ===== src/Cmd/EndToEnd.antt =====
-- The worker and the HTTP server over one object store: a thumbnail from the workflow to the response.
pub mod Sent
use mathlib.Core.Path.{subst}
use go_image_service.Base.{
  ℕ, String, ◌≡◌, ◌≢◌, sym, ap, ◌∙◌, true, List, [], ◌∷◌, Option, some, Result, ok,
}
use go_image_service.Base.Integers.{pos}
use go_image_service.Config.{Config}
use go_image_service.Postgres.{Postgres}
use go_image_service.Metadata.{select_sql, get}
use go_image_service.Metadata.Refinement.{result-world}
use go_image_service.Storage.{MinioStore, object_store}
use go_image_service.Storage.Contents.{Contents, IsStore, Unchanged}
use go_image_service.AuthGrpc.{AuthService, dial_client}
use go_image_service.Transport.Http.{Request, Writer, fresh, raw, get_value, set_header, write}
use go_image_service.Transport.Handlers.{Handler}
use go_image_service.Transport.Middleware.{allow_origin}
use go_image_service.Transport.Disclosure.{IsDisclosed, serve_image-IsDisclosed}
use go_image_service.Imaging.{Codec, resize}
use go_image_service.Imaging.Client.{Client}
use go_image_service.Pipeline.Activities.{object_key}
use go_image_service.Pipeline.Workflow.{Temporal, UploadInput, upload_workflow, upload_timeout}
use go_image_service.Pipeline.Workflow.Attempts.{IsTemporal}
use go_image_service.Pipeline.Workflow.Thumbnails.{Source}
use go_image_service.Cmd.Caller.{verify-eq}
use go_image_service.Cmd.HttpServer.{Libraries, server_of, main}
use go_image_service.Cmd.Startup.{IsUp, main-IsUp}
use go_image_service.Cmd.Thumbnailed.{IsDelivered, IsScaled, workflow-resize}
use go_image_service.Cmd.Wiring.{store_of}
use go_image_service.Cmd.Worker
use go_image_service.Cmd.EndToEnd.Sent.{IsStoreApart, IsSent, disclosed-IsSent}

bytes_eq :
    {a b : List ℕ} {s t : String}
    → ◌≡◌ {A = Option (List ℕ × String)} (some (a, s)) (some (b, t))
    → a ≡ b
bytes_eq e = cc

-- The sizes of the workflow, with what is asked for in a request.
pub data ThumbnailSize : String → ℕ → Type 0 where
  small : {name : String} {n : ℕ} → name ≡ "12x12" → n ≡ 12 → ThumbnailSize name n
  large : {name : String} {n : ℕ} → name ≡ "25x25" → n ≡ 25 → ThumbnailSize name n

module _ {W Source' Conn Client' Object Conn' Source'' Polled Image : Type 0}
    (lib : Libraries W Source' Conn Client' Object)
    (worker_lib : Worker.Libraries W Source'' Conn' Polled Client' Object)
    (same_minio : lib.minio ≡ worker_lib.minio) (cfg : Config) (objects : MinioStore Client')
    (made : store_of worker_lib.minio cfg ≡ ok objects) (c : Codec Image) (resizer : Client W)
    (delivered : IsDelivered c resizer) (pool : Postgres W) (i : UploadInput)
    (o : Source (Worker.activities_of worker_lib resizer pool objects)) where
  same_objects :
      (objects' : MinioStore Client') → store_of lib.minio cfg ≡ ok objects' → objects ≡ objects'
  same_objects objects' e = ok_inj (sym made ∙ ap (λ m. store_of m cfg) (sym same_minio) ∙ e)
    where
      ok_inj :
          {a b : MinioStore Client'} → ◌≡◌ {A = Result (MinioStore Client')} (ok a) (ok b) → a ≡ b
      ok_inj e = cc

  same_bucket :
      (objects' : MinioStore Client')
      → store_of lib.minio cfg ≡ ok objects'
      → IsStore (object_store lib.minio objects') o.stored
  same_bucket objects' e =
      subst (λ m. IsStore (object_store m objects') o.stored) (sym same_minio)
        (subst (λ b. IsStore (object_store worker_lib.minio b) o.stored) (same_objects objects' e)
          o.store)

  scaled :
      {name : String} {n : ℕ}
      → ThumbnailSize name n
      → (v : W)
      → IsScaled worker_lib c resizer delivered pool objects i o "12x12" 12 12 v
        × IsScaled worker_lib c resizer delivered pool objects i o "25x25" 25 25 v
      → IsScaled worker_lib c resizer delivered pool objects i o name n n v
  scaled (small a b) v (s, l) = rw (a, b) s
  scaled (large a b) v (s, l) = rw (a, b) l

  -- The object of the size that is asked for, as the workflow left it, is sent.
  sent_scaled :
      (r : Request) (world v : W) (n : ℕ) (handler : Handler W)
      → IsScaled worker_lib c resizer delivered pool objects i o (get_value "size" r.query) n n v
      → o.stored world (object_key i.id (get_value "size" r.query))
        ≡ o.stored v (object_key i.id (get_value "size" r.query))
      → IsSent lib cfg r i.id world o.stored handler
      → (bytes : List ℕ) × (row_type : String) × (v : W) × (resize c o.content (pos n) (pos n)
          ≡ ok bytes)
        × (handler r fresh world ≡ (
          write (raw bytes) (
              set_header "Content-Type" row_type
                (allow_origin (get_value "Origin" r.headers) cfg.cors_allowed_origins fresh)),
          v,
        ))
  sent_scaled r world v n handler (bytes, resized, there) kept
        (sent, row_type, ct, end, held, response) =
      let same : bytes ≡ sent = bytes_eq (sym there ∙ sym kept ∙ held) in
      (sent, row_type, end, resized ∙ ap ok same, response)

  -- For a worker and a handler that `main` of the HTTP server comes up with, over the same bucket of the same
  -- configuration: if the workflow of an upload succeeded, after the signal and with the original
  -- there, and nothing has replaced the thumbnail since, then a 200 of `GET /images/{id}` for the
  -- size 12x12 or 25x25 sends the bytes that `Resize` of imaging.go makes of the original for that
  -- size. The object store is assumed to keep what is written; the table, the image service, the
  -- auth service and the timer to leave the objects as they are; the responses of the image
  -- service to arrive as it answers them; and Temporal to attempt an activity as its policy says.
  pub main-thumbnail :
      (t : Temporal W) (status_of : W → Option String)
      → IsTemporal t (Worker.activities_of worker_lib resizer pool objects) status_of
      → ((w : W) → Unchanged (o.stored w) (o.stored (t.cancel_timer w)))
      → (u v u' : W) → t.wait (t.new_timer upload_timeout u) ≡ (true, v)
      → o.stored v (object_key i.id "original") ≡ some (o.content, o.content_type)
      → upload_workflow t i u ≡ (ok tt, u')
      → (web : Handler W) (w w' : W) (addr : String) (handler : Handler W)
      → main lib web cfg w ≡ (ok (addr, handler), w')
      → ((rpc : AuthService W) (table : Postgres W) (x x' : W)
          → dial_client lib.new_token_source lib.new_client lib.new_auth_service_client
              cfg.auth_service_addr
            ≡ ok rpc
          → lib.pool_new cfg.database_url x ≡ (ok table, x')
          → IsStoreApart rpc table o.stored)
      → (r : Request) (world : W) (n : ℕ) → ThumbnailSize (get_value "size" r.query) n
      → o.stored world (object_key i.id (get_value "size" r.query))
        ≡ o.stored u' (object_key i.id (get_value "size" r.query))
      → r.method ≡ "GET"
      → r.segments ≡ "images" ∷ i.id ∷ []
      → i.id ≢ "/"
      → (handler r fresh world).0.status ≡ some 200
      → (bytes : List ℕ) × (row_type : String) × (v : W) × (resize c o.content (pos n) (pos n)
          ≡ ok bytes)
        × (handler r fresh world ≡ (
          write (raw bytes) (
              set_header "Content-Type" row_type
                (allow_origin (get_value "Origin" r.headers) cfg.cors_allowed_origins fresh)),
          v,
        ))
  main-thumbnail t status_of temporal timer u v u' signaled there done web w w' addr handler h laws
        r world n size kept get path slash e =
      let up = main-IsUp lib web cfg w h in
      let s = server_of lib cfg up.temporal up.rpc up.pool up.objects in
      let same = ap (λ (h : Handler W). h r fresh world) up.same_handler in
      let d =
        serve_image-IsDisclosed s web cfg.cors_allowed_origins r world i.id get path slash
          (ap (λ (p : Writer × W). p.0.status) (sym same) ∙ e) in
      let apart = laws up.rpc up.pool up.dialled_world up.pool_world up.auth up.connected in
      sent_scaled r world u' n handler
        (scaled size u' (
          workflow-resize worker_lib c resizer delivered pool objects i o t status_of temporal timer
            u v u' signaled there done))
        kept
        (disclosed-IsSent lib cfg r i.id world o.stored web w w' addr handler up
          (same_bucket up.objects up.store) apart
          (subst
            (IsDisclosed s r world i.id
              (allow_origin (get_value "Origin" r.headers) cfg.cors_allowed_origins fresh))
            (sym same) d))
