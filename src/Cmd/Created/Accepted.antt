-- ===== src/Cmd/Created/Accepted.antt =====
-- An upload that the HTTP server accepts was set up in its real components.
use mathlib.Core.Path.{subst, ap₂}
use go_image_service.Base.{
  ne_of_==, string_eq, String, ◌<>◌, ◌≡◌, ◌≢◌, refl, sym, ap, ◌∙◌, [], ◌∷◌, some, none, Result, ok,
  err, arith,
}
use go_image_service.Config.{Config}
use go_image_service.Postgres.{Postgres}
use go_image_service.Metadata.Table.{Table, IsTable}
use go_image_service.Transport.Http.{Request, Writer, fresh, get_value, write_json}
use go_image_service.Transport.Server.{Server}
use go_image_service.Transport.Handlers.{Handler}
use go_image_service.Transport.Middleware.{allow_origin}
use go_image_service.Transport.Mux.{find_route}
use go_image_service.Transport.Routes.{routes}
use go_image_service.Transport.Routing.{find_route-fixed}
use go_image_service.Transport.Authentication.{as_user}
use go_image_service.Transport.Admission.{without_id, serve-IsAdmitted}
use go_image_service.Transport.Status.{http_error-ne, status-allow_origin}
use go_image_service.Cmd.HttpServer.{Libraries, server_of, main}
use go_image_service.Cmd.Startup.{IsUp, main-IsUp}
use go_image_service.Cmd.Caller.{IsCaller, IsVerified-IsCaller}
use go_image_service.Upload
use go_image_service.Upload.Outcome.{
  NegotiateOutcome, negotiated, no_id, no_row, no_workflow, no_url, negotiate-NegotiateOutcome,
  IsStarted,
}
use go_image_service.Metadata.Table.{WriteSpec, done, undone, unconfirmed}
use go_image_service.Metadata.Refinement.{create-go}
use go_image_service.Storage
use go_image_service.Storage.{MinioStore}
use go_image_service.Pipeline.Orchestrator
use go_image_service.Pipeline.Orchestrator.{Orchestrator, workflow_id}
use go_image_service.TemporalClient
use go_image_service.Transport.Server.{CreateUploadRequest}
use go_image_service.Transport.Http.{create_upload_response}
use go_image_service.Transport.Handlers.{create_upload}
use go_image_service.Transport.Creation.{
  CreateOutcome, IsImageType, bad_body, no_filename, bad_type, failed, created,
  create_upload-CreateOutcome,
}
use go_image_service.Cmd.Wiring.{upload_repository, upload_pipeline, presigner_of}
use go_image_service.Cmd.Created.{IsCreated}

post_ne_options : ◌≢◌ {A = String} "POST" "OPTIONS"
unfolding string_eq
post_ne_options = ne_of_== "POST" "OPTIONS" refl

module _ {W Source Conn Client Object : Type 0} (lib : Libraries W Source Conn Client Object)
    (cfg : Config) (find : W → Table) (r : Request) (world : W) where
  inserted_by :
      {Effect : Table → Table → Type 0} {t t' : Table} {result : Result (Unit {0})}
      → WriteSpec Effect t t' result
      → result ≡ ok tt
      → Effect t t'
  inserted_by (done h) e = h
  inserted_by (undone x _) e = cc
  inserted_by (unconfirmed x _) e = cc

  module _ (web : Handler W) (w w' : W) (addr : String) (handler : Handler W)
      (up : IsUp lib web cfg w addr handler w') (table : IsTable up.pool find) where
    abbrev server : Server W
    server = server_of lib cfg up.temporal up.rpc up.pool up.objects

    abbrev uploads : Upload.Service W
    uploads = record {
      repo = upload_repository up.pool;
      objects = presigner_of lib.minio up.objects;
      pipe = upload_pipeline (record { client = up.temporal; task_queue = cfg.task_queue });
      rand_read = lib.rand_read;
    }

    abbrev writer : Writer
    writer = allow_origin (get_value "Origin" r.headers) cfg.cors_allowed_origins fresh

    abbrev answer : Result (String × String) × W → Writer × W
    answer (ok (id, url), v) = (write_json 201 (create_upload_response id url 900) writer, v)
    answer (err _, v) = (writer, v)

    started-IsCreated :
        {user_id : String} {v : W} (caller : IsCaller lib cfg r world user_id v)
        (req : CreateUploadRequest)
        → lib.decoder.create_upload r.body ≡ ok req
        → req.filename ≢ ""
        → IsImageType req.content_type
        → (id url : String) (x y : W)
        → IsStarted uploads req.filename req.content_type user_id v id x
        → uploads.objects.presign (id <> "/original") "PUT" Upload.presign_ttl x ≡ (ok url, y)
        → IsCreated lib cfg find r world up.temporal (answer (ok (id, url), y))
    unfolding Storage.presign string_eq Orchestrator.start
    started-IsCreated {user_id} {v} caller req decoded named image id url x y st presigned =
        let (at, spec) =
          create-go up.pool find table st.pending.drawn_world id req.filename req.content_type
            "pending" user_id _ st.pending.stored in
        record {
          user_id = user_id;
          verified_world = v;
          caller = caller;
          req = req;
          decoded = decoded;
          named = named;
          image = image;
          id = id;
          drawn_world = st.pending.drawn_world;
          drawn = st.pending.drawn;
          created_at = at;
          pending_world = st.pending_world;
          inserted = inserted_by spec refl;
          started_world = x;
          started = st.started;
          objects = up.objects;
          made = up.store;
          url = url;
          presigned_world = y;
          presigned = presigned;
          response = refl;
        }

    negotiated-IsCreated :
        {user_id : String} {v : W} (caller : IsCaller lib cfg r world user_id v)
        (req : CreateUploadRequest)
        → lib.decoder.create_upload r.body ≡ ok req
        → req.filename ≢ ""
        → IsImageType req.content_type
        → {p : Result (String × String) × W}
        → NegotiateOutcome uploads req.filename req.content_type user_id v p
        → (id url : String) (v' : W) → p ≡ (ok (id, url), v')
        → IsCreated lib cfg find r world up.temporal (answer p)
    negotiated-IsCreated caller req d n t (no_id _ _ _) id url v' e = cc
    negotiated-IsCreated caller req d n t (no_row _ _ _ _ _ _) id url v' e = cc
    negotiated-IsCreated caller req d n t (no_workflow _ _ _ _ _ _) id url v' e = cc
    negotiated-IsCreated caller req d n t (no_url _ _ _ _ _ _) id url v' e = cc
    negotiated-IsCreated caller req d n t (negotiated i u x y st presigned) id url v' e =
        started-IsCreated caller req d n t i u x y st presigned

    unsent : writer.status ≡ none
    unsent = status-allow_origin (get_value "Origin" r.headers) cfg.cors_allowed_origins fresh

    accepted-IsCreated :
        {user_id : String} {v : W} (caller : IsCaller lib cfg r world user_id v)
        {result : Writer × W}
        → CreateOutcome server (as_user user_id (without_id r)) writer v result
        → result.0.status ≡ some 201
        → IsCreated lib cfg find r world up.temporal result
    accepted-IsCreated caller (bad_body _ _) e =
        absurd (http_error-ne _ 400 201 writer unsent (omega arith) e)
    accepted-IsCreated caller (no_filename _ _ _) e =
        absurd (http_error-ne _ 400 201 writer unsent (omega arith) e)
    accepted-IsCreated caller (bad_type _ _ _ _) e =
        absurd (http_error-ne _ 400 201 writer unsent (omega arith) e)
    accepted-IsCreated caller (failed _ _ _ _ _ _ _) e =
        absurd (http_error-ne _ 500 201 writer unsent (omega arith) e)
    accepted-IsCreated {user_id} {v} caller (created req id url v' d n t answered) e =
        subst (λ p. IsCreated lib cfg find r world up.temporal (answer p)) answered
          (negotiated-IsCreated caller req d n t
            (negotiate-NegotiateOutcome uploads req.filename req.content_type user_id v) id url v'
            answered)

  -- Whatever handler `main` comes up with: its `POST /uploads` answers 201 only to a user whom the
  -- auth service names for the token, for a body with a file name and one of the two image types.
  -- Then a pending row of this user was added to the uploads table under the id that was drawn,
  -- which was free, the workflow of the id was started on the configured task queue, and a PUT of
  -- `{id}/original` was presigned for 900 seconds through the public client; the response is this
  -- id, this URL and its lifetime. The pool is assumed to do to the table what its statements say.
  pub main-IsCreated :
      (web : Handler W) (w w' : W) (addr : String) (handler : Handler W)
      → main lib web cfg w ≡ (ok (addr, handler), w')
      → ((pool : Postgres W) (v v' : W)
          → lib.pool_new cfg.database_url v ≡ (ok pool, v')
          → IsTable pool find)
      → r.method ≡ "POST"
      → r.segments ≡ "uploads" ∷ []
      → (handler r fresh world).0.status ≡ some 201
      → (temporal : Orchestrator.TemporalClient W) × (v : W) × (TemporalClient.dial lib.client_dial
            cfg w
          ≡ (ok temporal, v))
        × IsCreated lib cfg find r world temporal (handler r fresh world)
  main-IsCreated web w w' addr handler h tables post path e =
      let up = main-IsUp lib web cfg w h in
      let s = server_of lib cfg up.temporal up.rpc up.pool up.objects in
      let same = ap (λ (h : Handler W). h r fresh world) up.same_handler in
      let e' = ap (λ (p : Writer × W). p.0.status) (sym same) ∙ e in
      let found =
        ap₂ (λ m p. find_route m p (routes s web)) post path ∙ (find_route-fixed s web).3 in
      let d =
        serve-IsAdmitted s web cfg.cors_allowed_origins r world (create_upload s) 201 (omega arith)
          (λ o. post_ne_options (sym post ∙ o)) found e' in
      let table = tables up.pool up.dialled_world up.pool_world up.connected in
      let caller = IsVerified-IsCaller lib cfg r world web w w' addr handler up d.verified in
      let outcome =
        create_upload-CreateOutcome s (as_user d.user_id (without_id r))
          (allow_origin (get_value "Origin" r.headers) cfg.cors_allowed_origins fresh)
          d.verified_world in
      let status = ap (λ (p : Writer × W). p.0.status) (sym d.answer) ∙ e' in
      (
        up.temporal,
        up.dialled_world,
        up.dialled,
        subst (λ p. IsCreated lib cfg find r world up.temporal p) (sym (same ∙ d.answer))
            (accepted-IsCreated web w w' addr handler up table caller outcome status),
      )
