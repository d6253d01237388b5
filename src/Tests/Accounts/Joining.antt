-- ===== src/Tests/Accounts/Joining.antt =====
-- A user joins, logs in under another spelling of the email, and lists the images, over HTTP and gRPC.
use mathlib.Core.Path.{subst}
use go_image_service.Base.{
  true, nat_eq, String, ◌<>◌, List, [], ◌∷◌, map, Option, none, some, ◌≡◌, refl, sym, ap, ◌∙◌, ◌==◌,
  string_eq, rune_count, arith, inl, has_prefix, cut_prefix, Result, ok, err, message, pure, fail,
  if◌then◌else◌,
}
use go_image_service.Postgres.{Postgres}
use go_image_service.Metadata
use go_image_service.Metadata.Table.{Row, Table, new_row, IsTable, IsListing, upload_of}
use go_image_service.Storage
use go_image_service.Storage.{Minio, bytes}
use go_image_service.User
use go_image_service.Id.{new_id}
use go_image_service.Id.Hex.{hex_encode}
use go_image_service.Auth
use go_image_service.Auth.{token_ttl}
use go_image_service.AuthGrpc.{
  AuthService, server_register, server_login, server_verify, client_register, client_login,
  client_verify, dial_client,
}
use go_image_service.AuthGrpc.Faithful.{Delivers}
use go_image_service.GrpcAuth
use go_image_service.TemporalClient
use go_image_service.Transport.Http.{
  Request, Writer, fresh, json, get_value, write_json, register_response, login_response,
  list_images_response,
}
use go_image_service.Transport.Handlers
use go_image_service.Transport.Handlers.{Handler, list_images}
use go_image_service.Transport.Middleware.{require_auth, allow_origin}
use go_image_service.Transport.Mux.{find_route}
use go_image_service.Transport.Routes.{serve}
use go_image_service.Transport.Status.{status-write_json, status-allow_origin}
use go_image_service.Transport.Entry.{body-write_json, body-allow_origin}
use go_image_service.Cmd.HttpServer.{Libraries, main}
use go_image_service.Cmd.Signup.{main-signup}
use go_image_service.Cmd.Accounts.{IsAuthApart}
use go_image_service.Tests.Rows
use go_image_service.Tests.Rows.{one_row, one_row-IsTable}
use go_image_service.Tests.Commands.{config}
use go_image_service.Tests.Accounts.Fixtures.{World, seven_id, demo_crypto, demo-IsCrypto}
use go_image_service.Tests.Accounts.Signups.{
  fold, find, one_account-IsAuthApart, keyed, listen, connect, the_service, empty, joined, next_day,
  served, same_spelling, the_pool,
}

abbrev hers : Option Row
hers = some (new_row "7a" "f.png" "image/png" "complete" seven_id 3)

-- An uploads table that does not change.
abbrev gallery : World → Table
gallery _ = Rows.find hers

abbrev read_only : Postgres World
read_only = record {
  exec = λ _ _. fail (message "read only");
  query_row = λ sql args w. ((one_row.query_row sql args hers).0, w);
  query = λ sql args w. ((one_row.query sql args hers).0, w);
}

read_only-IsTable : IsTable read_only gallery
read_only-IsTable = record {
  insert_ok = λ _ _ _ _ _ _ _ e. cc;
  insert_err = λ _ _ _ _ _ _ _ _ _. inl (λ _. refl);
  update_ok = λ _ _ _ _ e. cc;
  update_err = λ _ _ _ _ _ _. inl (λ _. refl);
  select_same = λ _ _ _. refl;
  select_ok =
      λ id w w' columns e. one_row-IsTable.select_ok id hers hers columns (ap (λ x. (x.0, hers)) e);
  select_err = λ id w w' x e. one_row-IsTable.select_err id hers hers x (ap (λ x. (x.0, hers)) e);
  list_same = λ _ _ _. refl;
  list_ok = λ user w w' cursor e whole.
      one_row-IsTable.list_ok user hers hers cursor (ap (λ x. (x.0, hers)) e) whole;
}

abbrev libraries : Libraries World String String String String
libraries = record {
  client_dial =
      λ _. pure (record { execute_workflow = λ _ _ _. pure tt; signal_workflow = λ _ _. pure tt });
  new_token_source = λ audience. ok audience;
  new_client = λ target _. ok target;
  new_auth_service_client = λ _. the_service;
  pool_new = λ _. pure read_only;
  ping = λ _. pure tt;
  minio = record {
    new_client = λ endpoint _. ok endpoint;
    set_range = λ first last. ok (bytes first last);
    bucket_exists = λ _ _. pure true;
    make_bucket = λ _ _. pure tt;
    presigned_put_object = λ client _ key _. pure key;
    presigned_get_object = λ client _ key _. pure key;
    get_object = λ _ _ key _. pure key;
    read_all = λ _. pure [];
    put_object = λ _ _ _ _ _ _. pure tt;
    stat_object = λ _ _ _. pure (2, "image/png");
    remove_object = λ _ _ _. pure tt;
  };
  rand_read = λ _. pure (1 ∷ 2 ∷ []);
  decoder = record {
    credentials = λ body.
        if body == "up"
        then ok (record { email = "A@B"; password = "secret12" })
        else ok (record { email = "a@b"; password = "secret12" });
    create_upload = λ _. err (message "JSON");
  };
}

abbrev page : Handler World
page r w world = (w, world)

abbrev up_or : Result (String × Handler World) → Handler World
up_or (ok (_, h)) = h
up_or (err _) = page

abbrev the_handler : Handler World
the_handler = up_or (main libraries page config empty).0

comes_up : main libraries page config empty ≡ (ok (":8080", the_handler), empty)
unfolding main TemporalClient.dial TemporalClient.options dial_client GrpcAuth.dial
    Storage.new_minio_store Storage.ensure_bucket string_eq GrpcAuth.is_cloud_run has_prefix nat_eq
comes_up = refl

abbrev start : Writer
start = allow_origin "" config.cors_allowed_origins fresh

abbrev post : String → String → Request
post path body = record {
  method = "POST";
  segments = path ∷ [];
  headers = [];
  query = [];
  body = body;
  path_id = "";
  user_id = none;
}

abbrev list_request : Request
list_request = record (post "images" "") {
  method = "GET";
  headers = ("Authorization", "Bearer t") ∷ [];
}

joins :
    the_handler (post "register" "up") fresh empty
    ≡ (write_json 201 (register_response seven_id) start, joined)
unfolding main TemporalClient.dial TemporalClient.options dial_client GrpcAuth.dial
    Storage.new_minio_store Storage.ensure_bucket string_eq GrpcAuth.is_cloud_run has_prefix nat_eq
    serve find_route get_value Handlers.register rune_count write_json allow_origin client_register
    server_register Auth.register User.create new_id hex_encode
joins = refl

logs_in :
    the_handler (post "login" "in") fresh joined
    ≡ (write_json 200 (login_response "t") start, joined)
unfolding main TemporalClient.dial TemporalClient.options dial_client GrpcAuth.dial
    Storage.new_minio_store Storage.ensure_bucket string_eq GrpcAuth.is_cloud_run has_prefix nat_eq
    serve find_route get_value Handlers.login write_json allow_origin client_login server_login
    Auth.login User.get_user_by_email
logs_in = refl

lists : (the_handler list_request fresh next_day).0.status ≡ some 200
unfolding main TemporalClient.dial TemporalClient.options dial_client GrpcAuth.dial
    Storage.new_minio_store Storage.ensure_bucket string_eq GrpcAuth.is_cloud_run has_prefix nat_eq
    serve find_route require_auth cut_prefix get_value list_images write_json client_verify
    server_verify Auth.verify_token Metadata.list
lists = refl

unsent : start.status ≡ none
unsent = status-allow_origin "" config.cors_allowed_origins fresh

world_after : (the_handler (post "register" "up") fresh empty).1 ≡ joined
world_after = ap (λ (o : Writer × World). o.1) joins

known_pool :
    (pool : Postgres World) (v v' : World)
    → ◌≡◌ {A = Result (Postgres World) × World} (ok read_only, v) (ok pool, v')
    → IsTable pool gallery
known_pool pool v v' e = subst (λ p. IsTable p gallery) same read_only-IsTable
  where
    same : read_only ≡ pool
    same = cc

dialled :
    dial_client libraries.new_token_source libraries.new_client libraries.new_auth_service_client
      config.auth_service_addr
    ≡ ok the_service
unfolding dial_client GrpcAuth.dial GrpcAuth.is_cloud_run has_prefix nat_eq string_eq
dialled = refl

same_rpc : (x y : AuthService World) → ◌≡◌ {A = Result (AuthService World)} (ok x) (ok y) → x ≡ y
same_rpc x y e = cc

connected :
    (rpc : AuthService World)
    → dial_client libraries.new_token_source libraries.new_client libraries.new_auth_service_client
        config.auth_service_addr
      ≡ ok rpc
    → Delivers rpc the_service
connected rpc d =
    subst (λ a. Delivers a the_service) (same_rpc the_service rpc (sym dialled ∙ d))
      (record { register = λ _ _ _. refl; login = λ _ _ _. refl; verify = λ _ _. refl })

reads_up : libraries.decoder.credentials "up" ≡ ok (record { email = "A@B"; password = "secret12" })
unfolding string_eq
reads_up = refl

reads_in : libraries.decoder.credentials "in" ≡ ok (record { email = "a@b"; password = "secret12" })
unfolding string_eq
reads_in = refl

asked : get_value "Authorization" list_request.headers ≡ "Bearer " <> "t"
unfolding get_value string_eq
asked = refl

main-signup_example :
    (id : String) × ((the_handler (post "register" "up") fresh empty).0.body
      ≡ json (register_response id) ∷ [])
    × (rows : List Row) × IsListing (gallery next_day) id rows
    × ((the_handler list_request fresh next_day).0.body
        ≡ json (list_images_response (map upload_of rows)) ∷ [])
main-signup_example =
    main-signup libraries config keyed gallery listen demo_crypto connect (λ _. pure tt) fold find
      demo-IsCrypto (λ _. "") empty empty ":50052" the_service served
      (λ pool v e.
        subst (λ p. IsAuthApart demo_crypto fold find p) (the_pool pool v e)
          one_account-IsAuthApart)
      page empty empty ":8080" the_handler comes_up known_pool connected (post "register" "up")
      (post "login" "in") list_request (record { email = "A@B"; password = "secret12" })
      (record { email = "a@b"; password = "secret12" }) empty joined next_day "t" refl refl reads_up
      (ap (λ o. o.0.status) joins ∙ status-write_json 201 _ start unsent) refl refl reads_in
      same_spelling refl (ap (λ w. find w (fold "A@B")) (sym world_after))
      (ap (λ o. o.0.status) logs_in ∙ status-write_json 200 _ start unsent)
      (ap (λ o. o.0.body) logs_in
        ∙ body-write_json 200 _ start unsent (body-allow_origin "" config.cors_allowed_origins))
      (rw logs_in (omega arith)) refl refl asked lists
