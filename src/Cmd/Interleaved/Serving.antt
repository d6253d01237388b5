-- ===== src/Cmd/Interleaved/Serving.antt =====
-- Every call of the HTTP server lets the table evolve as it may.
use go_image_service.Base.{String, ◌≡◌, ◌≢◌, refl, sym, ◌∙◌, string_eq, ok, M}
use go_image_service.Base.Inversion.{catch-pure}
use go_image_service.Base.Keeps.{Keeps, bind-Keeps, ended}
use go_image_service.Config.{Config}
use go_image_service.Postgres.{Postgres}
use go_image_service.Metadata
use go_image_service.Metadata.{update_status}
use go_image_service.Metadata.Table.{Table, Same, new_row}
use go_image_service.Metadata.Refinement.{create-go, get-Same, list-Same}
use go_image_service.Storage
use go_image_service.Storage.{MinioStore, Range}
use go_image_service.AuthGrpc.{
  AuthService, client_register, client_login, client_verify, dial_client,
}
use go_image_service.Upload
use go_image_service.Upload.Framing.{negotiate-Keeps}
use go_image_service.Pipeline.Orchestrator
use go_image_service.Transport.Server.{Server}
use go_image_service.Transport.Creation.{IsImageType}
use go_image_service.Transport.Framing.{IsUser, IsServing}
use go_image_service.Cmd.Caller.{verify-eq}
use go_image_service.Cmd.HttpServer.{Libraries, server_of}
use go_image_service.Cmd.Evolution.{IsEvolved, Same-IsEvolved, Inserted-IsEvolved, Write-IsEvolved}
use go_image_service.Cmd.Interleaved.{IsHttpApart, IsAuthored}

module _ {W Source Conn Client Object : Type 0} (lib : Libraries W Source Conn Client Object)
    (cfg : Config) (find : W → Table) (first : W) where
  abbrev Author : String → String → String → Type 0
  Author = IsAuthored lib cfg find

  unfoldable pub Since : W → Type 0
  Since w = IsEvolved Author (find first) (find w)

  Same-Keeps : {A : Type 0} (m : M W A) → ((w : W) → Same (find w) (find (m w).1)) → Keeps Since m
  unfolding Since
  Same-Keeps m f = record { at = λ w h. Same-IsEvolved Author h (f w) }

  module _ (temporal : Orchestrator.TemporalClient W) (rpc : AuthService W) (pool : Postgres W)
      (objects : MinioStore Client)
      (dialled : dial_client lib.new_token_source lib.new_client lib.new_auth_service_client
          cfg.auth_service_addr
        ≡ ok rpc)
      (apart : IsHttpApart lib find temporal rpc pool) where
    abbrev server : Server W
    server = server_of lib cfg temporal rpc pool objects

    signal-Keeps : (id : String) → Keeps Since (server.uploads.complete id)
    unfolding Upload.complete Orchestrator.signal
    signal-Keeps id = record {
      at = λ w h.
          let name = Orchestrator.workflow_id id in
          ended (Since (server.uploads.complete id w).1)
            (Same-Keeps (temporal.signal_workflow name Orchestrator.complete_signal)
              (apart.signal_same name Orchestrator.complete_signal))
            w h (λ _ v e p. rw e p) (λ x v e p. rw e p);
    }

    login-Keeps : (email password : String) → Keeps Since (server.auth.login email password)
    unfolding client_login
    login-Keeps email password = record {
      at = λ w h.
          ended (Since (client_login rpc email password w).1)
            (Same-Keeps (rpc.login email password) (apart.login_same email password)) w h
            (λ _ v e p. rw e p) (λ x v e p. rw e p);
    }

    register-Keeps : (email password : String) → Keeps Since (server.auth.register email password)
    unfolding client_register
    register-Keeps email password = Same-Keeps _ (λ w.
        rw (catch-pure (rpc.register email password w)) (apart.register_same email password w))

    verify-Keeps : (token : String) → Keeps Since (server.auth.verify token)
    unfolding client_verify
    verify-Keeps token =
        Same-Keeps _ (λ w. rw (catch-pure (rpc.verify token w)) (apart.verify_same token w))

    create-Keeps :
        (filename content_type user_id : String)
        → Author user_id filename content_type
        → (id : String)
        → Keeps Since (Metadata.create pool id filename content_type "pending" user_id)
    unfolding Since
    create-Keeps filename content_type user_id author id = record {
      at = λ w h.
          let (at, spec) =
            create-go pool find apart.table w id filename content_type "pending" user_id _ refl in
          Write-IsEvolved Author
            (Inserted-IsEvolved Author (new_row id filename content_type "pending" user_id at)
              author)
            h spec;
    }

    start-Keeps :
        (filename content_type id : String)
        → Keeps Since (
            Orchestrator.start
              (record { client = temporal; task_queue = cfg.task_queue })
              id
              content_type
              filename)
    unfolding Orchestrator.start
    start-Keeps filename content_type id =
        Same-Keeps _ (apart.execute_same (Orchestrator.workflow_id id) cfg.task_queue _)

    object-Keeps : (key : String) → Keeps Since (Storage.get lib.minio objects key)
    unfolding Storage.get
    object-Keeps key =
        bind-Keeps
          (Same-Keeps (lib.minio.get_object objects.ops objects.bucket key Storage.whole)
            (apart.get_object_same objects.ops objects.bucket key Storage.whole))
          (λ o. Same-Keeps (lib.minio.read_all o) (apart.read_all_same o))

    presign-Keeps :
        (key : String)
        → Keeps Since (Storage.presign lib.minio objects key "PUT" Upload.presign_ttl)
    unfolding Storage.presign string_eq
    presign-Keeps key =
        Same-Keeps _ (apart.presign_same objects.presigner objects.bucket key Upload.presign_ttl)

    user-IsAuthored :
        {user_id filename content_type : String}
        → filename ≢ ""
        → IsImageType content_type
        → IsUser server user_id
        → Author user_id filename content_type
    user-IsAuthored named image user = record {
      rpc = rpc;
      dialled = dialled;
      token = user.token;
      before = user.before;
      after = user.after;
      verified = sym (verify-eq rpc user.token user.before) ∙ user.accepted;
      named = named;
      image = image;
    }

    pub server-IsServing : IsServing server Since
    unfolding Since
    server-IsServing = record {
      register-Keeps = register-Keeps;
      login-Keeps = login-Keeps;
      verify-Keeps = verify-Keeps;
      negotiate-Keeps = λ filename content_type user_id named image user.
          negotiate-Keeps _ filename content_type user_id (Same-Keeps _ (apart.rand_same 16))
            (create-Keeps filename content_type user_id (user-IsAuthored named image user))
            (start-Keeps filename content_type) presign-Keeps;
      complete-Keeps = signal-Keeps;
      get-Keeps = λ id. Same-Keeps _ (λ w. get-Same pool find apart.table w id);
      list-Keeps = λ user_id. Same-Keeps _ (λ w. list-Same pool find apart.table w user_id);
      object-Keeps = object-Keeps;
    }
