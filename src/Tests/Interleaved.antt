-- ===== src/Tests/Interleaved.antt =====
-- A request and an activity, one after the other, over a table that has room for one row.
use mathlib.Core.Path.{subst}
use go_image_service.Base.{◌≡◌, refl, sym, ◌∙◌, none, string_eq, nat_eq, has_prefix, Result, ok}
use go_image_service.Postgres.{Postgres}
use go_image_service.AuthGrpc.{AuthService, dial_client}
use go_image_service.GrpcAuth
use go_image_service.TemporalClient
use go_image_service.Pipeline.Orchestrator
use go_image_service.Pipeline.Workflow.{processing, run}
use go_image_service.Transport.Http.{fresh}
use go_image_service.Cmd.Evolution.{IsEvolved}
use go_image_service.Cmd.Interleaved.{Reach, start, request, attempt, IsHttpApart, IsAuthored}
use go_image_service.Cmd.Interleaved.Rows.{Reach-IsEvolved}
use go_image_service.Tests.Rows.{find, one_row, one_row-IsTable}
use go_image_service.Tests.Apart.{over_one_row, over_one_row-IsApart}
use go_image_service.Tests.Commands.{
  Db, libraries, obliging, anns, config, page, the_handler, create_request, holding, comes_up,
}

abbrev created : Db
created = (the_handler create_request fresh none).1

abbrev later : Db
later = (run over_one_row (processing "0102") created).1

there : Reach the_handler over_one_row find none later
there = attempt (processing "0102") _ (request create_request _ start refl) refl

one_row-IsHttpApart : IsHttpApart libraries find obliging anns one_row
one_row-IsHttpApart = record {
  table = one_row-IsTable;
  execute_same = λ _ _ _ _ _. refl;
  signal_same = λ _ _ _ _. refl;
  register_same = λ _ _ _ _. refl;
  login_same = λ _ _ _ _. refl;
  verify_same = λ _ _ _. refl;
  rand_same = λ _ _ _. refl;
  presign_same = λ _ _ _ _ _ _. refl;
  get_object_same = λ _ _ _ _ _ _. refl;
  read_all_same = λ _ _ _. refl;
}

dialled :
    dial_client libraries.new_token_source libraries.new_client libraries.new_auth_service_client
      config.auth_service_addr
    ≡ ok anns
unfolding dial_client GrpcAuth.dial GrpcAuth.is_cloud_run has_prefix nat_eq string_eq
dialled = refl

-- What one call answers is one value.
same_ok : {A : Type 0} (x y : A) (u v : Db) → ◌≡◌ {A = Result A × Db} (ok x, u) (ok y, v) → x ≡ y
same_ok x y u v e = cc

same_value : {A : Type 0} (x y : A) → ◌≡◌ {A = Result A} (ok x) (ok y) → x ≡ y
same_value x y e = cc

laws :
    (temporal : Orchestrator.TemporalClient Db) (rpc : AuthService Db) (pool : Postgres Db)
    (u v v' : Db)
    → TemporalClient.dial libraries.client_dial config u ≡ (ok temporal, v)
    → dial_client libraries.new_token_source libraries.new_client libraries.new_auth_service_client
        config.auth_service_addr
      ≡ ok rpc
    → libraries.pool_new config.database_url v ≡ (ok pool, v')
    → IsHttpApart libraries find temporal rpc pool
unfolding TemporalClient.dial
laws temporal rpc pool u v v' a b c =
    subst (λ t. IsHttpApart libraries find t rpc pool) (same_ok obliging temporal u v a)
      (subst (λ r. IsHttpApart libraries find obliging r pool)
        (same_value anns rpc (sym dialled ∙ b))
        (subst (λ p. IsHttpApart libraries find obliging anns p) (same_ok one_row pool v v' c)
          one_row-IsHttpApart))

Reach-IsEvolved_example : IsEvolved (IsAuthored libraries config find) (find none) (find later)
Reach-IsEvolved_example =
    Reach-IsEvolved libraries config find over_one_row over_one_row-IsApart page (λ _ _ _ _. refl)
      holding holding ":8080" the_handler comes_up laws none later there
