-- ===== src/Tests/EndToEnd.antt =====
-- An upload of ann's: the worker resizes it, and the server sends her the thumbnail.
use mathlib.Core.Path.{subst}
use go_image_service.Base.{
  ℕ, String, List, [], ◌∷◌, none, some, ◌≡◌, refl, sym, ◌∙◌, true, ◌==◌, if◌then◌else◌, string_eq,
  nat_eq, has_prefix, cut_prefix, len, Result, ok, err, message, pure,
}
use go_image_service.Base.Integers.{pos, int32, signed32}
use go_image_service.Postgres.{Postgres, text}
use go_image_service.Metadata
use go_image_service.Metadata.{update_status}
use go_image_service.Storage
use go_image_service.AuthGrpc.{AuthService, client_verify, dial_client}
use go_image_service.TemporalClient
use go_image_service.GrpcAuth
use go_image_service.Imaging.{answer, resize}
use go_image_service.Imaging.Client.{client_resize}
use go_image_service.Pipeline.Activities as Acts
use go_image_service.Pipeline.Workflow.{UploadInput, upload_workflow}
use go_image_service.Transport.Http.{fresh, raw, get_value, write, set_header}
use go_image_service.Transport.Handlers.{Handler, images}
use go_image_service.Transport.Middleware.{require_auth, allow_origin}
use go_image_service.Transport.Mux.{find_route}
use go_image_service.Transport.Routes.{serve}
use go_image_service.Cmd.HttpServer.{Libraries, main}
use go_image_service.Cmd.Wiring.{store_of}
use go_image_service.Cmd.EndToEnd.Sent.{IsStoreApart}
use go_image_service.Cmd.EndToEnd.{small, main-thumbnail}
use go_image_service.Tests.Schedule.{simple_temporal, simple-IsTemporal, execute_all}
use go_image_service.Tests.Stored.{Objects, stored, photo, jpeg, silent}
use go_image_service.Tests.Worked
use go_image_service.Tests.Worked.{
  minio, bucket, registered, source, codec, image_service, image_service-IsDelivered,
}
use go_image_service.Tests.Commands.{config, the_id, the_request, slash}

abbrev anns_upload : UploadInput
anns_upload = record jpeg { id = the_id }

abbrev before : Objects
before = ("0123456789abcdef0123456789abcdef/original", photo, "image/jpeg") ∷ []

abbrev afterwards : Objects
afterwards =
    ("0123456789abcdef0123456789abcdef/25x25", 25 ∷ photo, "image/jpeg")
    ∷ ("0123456789abcdef0123456789abcdef/12x12", 12 ∷ photo, "image/jpeg")
    ∷ before

-- Every row is ann's.
abbrev anns_rows : Postgres Objects
anns_rows = record {
  exec = λ _ _. pure tt;
  query_row = λ _ _. pure (text "complete" ∷ text "ann" ∷ text "image/jpeg" ∷ []);
  query = λ _ _. pure (record { rows = []; failure = none });
}

abbrev anns : AuthService Objects
anns = record {
  register = λ _ _. pure "ann";
  login = λ _ _. pure "t1";
  verify = λ token w. (if token == "t1" then ok "ann" else err (message "no"), w);
}

abbrev libraries : Libraries Objects String String String String
libraries = record {
  client_dial =
      λ _. pure (record { execute_workflow = λ _ _ _. pure tt; signal_workflow = λ _ _. pure tt });
  new_token_source = λ audience. ok audience;
  new_client = λ target _. ok target;
  new_auth_service_client = λ _. anns;
  pool_new = λ _. pure anns_rows;
  ping = λ _. pure tt;
  minio = minio;
  rand_read = λ _. pure (1 ∷ 2 ∷ []);
  decoder = record {
    credentials = λ _. err (message "JSON");
    create_upload = λ _. err (message "JSON");
  };
}

abbrev page : Handler Objects
page r w world = (w, world)

abbrev up_or : Result (String × Handler Objects) → Handler Objects
up_or (ok (_, h)) = h
up_or (err _) = page

abbrev the_handler : Handler Objects
the_handler = up_or (main libraries page config before).0

comes_up : main libraries page config before ≡ (ok (":8080", the_handler), before)
unfolding main TemporalClient.dial TemporalClient.options dial_client GrpcAuth.dial
    Storage.new_minio_store Storage.ensure_bucket string_eq GrpcAuth.is_cloud_run has_prefix nat_eq
comes_up = refl

succeeds :
    upload_workflow (simple_temporal registered true) anns_upload before ≡ (ok tt, afterwards)
unfolding upload_workflow execute_all Acts.validate Acts.processing Acts.resize Acts.complete
    string_eq nat_eq Storage.get Storage.get_first_n_bytes Storage.put Storage.head client_resize
    answer int32 signed32 resize
succeeds = refl

sent : (the_handler the_request fresh afterwards).0.status ≡ some 200
unfolding main TemporalClient.dial TemporalClient.options dial_client GrpcAuth.dial
    Storage.new_minio_store Storage.ensure_bucket string_eq GrpcAuth.is_cloud_run has_prefix nat_eq
    serve find_route require_auth cut_prefix get_value images len write set_header client_verify
    Metadata.get Storage.get
sent = refl

there : stored before "0123456789abcdef0123456789abcdef/original" ≡ some (photo, "image/jpeg")
unfolding string_eq
there = refl

made : store_of minio config ≡ ok bucket
unfolding Storage.new_minio_store
made = refl

asked : get_value "size" the_request.query ≡ "12x12"
unfolding get_value string_eq
asked = refl

dialled :
    dial_client libraries.new_token_source libraries.new_client libraries.new_auth_service_client
      config.auth_service_addr
    ≡ ok anns
unfolding dial_client GrpcAuth.dial GrpcAuth.is_cloud_run has_prefix nat_eq string_eq
dialled = refl

same_rpc :
    (x y : AuthService Objects) → ◌≡◌ {A = Result (AuthService Objects)} (ok x) (ok y) → x ≡ y
same_rpc x y e = cc

same_pool :
    (x y : Postgres Objects) (u v : Objects)
    → ◌≡◌ {A = Result (Postgres Objects) × Objects} (ok x, u) (ok y, v)
    → x ≡ y
same_pool x y u v e = cc

apart :
    (rpc : AuthService Objects) (table : Postgres Objects) (x x' : Objects)
    → dial_client libraries.new_token_source libraries.new_client libraries.new_auth_service_client
        config.auth_service_addr
      ≡ ok rpc
    → libraries.pool_new config.database_url x ≡ (ok table, x')
    → IsStoreApart rpc table stored
apart rpc table x x' d p =
    subst (λ a. IsStoreApart a table stored) (same_rpc anns rpc (sym dialled ∙ d))
      (subst (λ t. IsStoreApart anns t stored) (same_pool anns_rows table x x' p)
        (record { verify_same = λ _ _ _. refl; select_same = λ _ _ _. refl }))

main-thumbnail_example :
    (bytes : List ℕ) × (row_type : String) × (v : Objects) × (resize codec photo (pos 12) (pos 12)
      ≡ ok bytes)
    × (the_handler the_request fresh afterwards ≡ (
      write (raw bytes) (
          set_header "Content-Type" row_type (
            allow_origin
              (get_value "Origin" the_request.headers)
              config.cors_allowed_origins
              fresh)),
      v,
    ))
unfolding update_status
main-thumbnail_example =
    main-thumbnail libraries Worked.libraries refl config bucket made codec image_service
      image_service-IsDelivered silent anns_upload source (simple_temporal registered true)
      (λ _. none) (simple-IsTemporal registered (λ _. none) true) (λ _ _. refl) before before
      afterwards refl there succeeds page before before ":8080" the_handler comes_up apart
      the_request afterwards 12 (small asked refl) refl refl refl slash sent
