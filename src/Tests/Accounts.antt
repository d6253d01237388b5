-- ===== src/Tests/Accounts.antt =====
-- Registration, login and tokens, directly and through gRPC.
mod Fixtures
mod Signups
mod Joining
use mathlib.Core.Path.{ap₂}
use go_image_service.Base.{
  ℕ, zero, suc, nat_eq, eq_of_==, ◌+◌, ◌<◌, ◌≤◌, String, ◌<>◌, List, [], ◌∷◌, Option, none, some,
  ◌≡◌, ◌≢◌, refl, ap, ◌∙◌, sym, Bool, true, false, ◌==◌, string_eq, ==_refl, Result, ok, err, Err,
  sentinel, user_not_found, invalid_credentials, message, M, if◌then◌else◌, fail, pure, ltb, arith,
  Bool-cases, inl, inr, wrapped, errors_is,
}
use go_image_service.User.{User}
use go_image_service.Auth.{
  Method, hmac, other, Claims, Crypto, UserRepo, key_func, register, login, verify_token,
  issue_token, parse_token, token_ttl,
}
use go_image_service.Auth.Tokens.{IsCrypto, parse-issue, parse_token-other}
use go_image_service.Auth.Login.{Rejected, no_account, LoginOutcome, login-LoginOutcome}
use go_image_service.Auth.RoundTrip.{IsUserRepo, verify-register}
use go_image_service.AuthGrpc.{
  AuthService, server, client, client_register, client_login, client_verify,
}
use go_image_service.AuthGrpc.Faithful.{
  Delivers, map_error, register_error, login_error, verify_error, client-faithful, login_alike,
}
use go_image_service.Id.{new_id}
use go_image_service.Id.Hex.{hex_encode}
use go_image_service.Transport.Http.{Request, Writer, fresh, http_error}
use go_image_service.Transport.Server.{Credentials, Server}
use go_image_service.Transport.Handlers
use Fixtures.{World, seven_id, demo_crypto, demo_method, demo_users, demo-IsCrypto, demo-IsUserRepo}

abbrev empty : World
empty = record { time = 100; row = none }

abbrev joined : World
joined = record {
  time = 100;
  row = some (record { id = seven_id; email = "a@b"; password_hash = "secret12" });
}

abbrev next_day : World
next_day = record { time = 86000; row = none }

registered : register demo_crypto demo_users "k" "a@b" "secret12" empty ≡ (ok seven_id, joined)
unfolding register new_id hex_encode
registered = refl

logged_in : login demo_crypto demo_users "k" "a@b" "secret12" joined ≡ (ok "t", joined)
unfolding login string_eq nat_eq
logged_in = refl

login-LoginOutcome_example :
    LoginOutcome demo_crypto demo_users "k" "a@b" "secret12" joined
      (login demo_crypto demo_users "k" "a@b" "secret12" joined)
login-LoginOutcome_example = login-LoginOutcome demo_crypto demo_users "k" "a@b" "secret12" joined

issued : (issue_token demo_crypto seven_id "k" empty).0 ≡ ok "t"
unfolding issue_token string_eq nat_eq
issued = refl

parse-issue_example :
    (86000 < 100 + token_ttl → parse_token demo_crypto "t" "k" next_day ≡ (ok seven_id, next_day))
    × (100 + token_ttl ≤ 86000
        → (e : Err) × (parse_token demo_crypto "t" "k" next_day ≡ (err e, next_day)))
parse-issue_example = parse-issue demo_crypto demo-IsCrypto seven_id "k" "t" empty next_day issued

other_method : demo_method "x" ≡ other "none"
unfolding string_eq
other_method = refl

parse_token-other_example : (e : Err) × (parse_token demo_crypto "x" "k" empty ≡ (err e, empty))
parse_token-other_example =
    parse_token-other demo_crypto demo-IsCrypto "x" "k" "none" empty other_method

abbrev demo_rpc : AuthService World
demo_rpc = server demo_crypto demo_users "k"

demo-Delivers : Delivers demo_rpc (server demo_crypto demo_users "k")
demo-Delivers = record { register = λ _ _ _. refl; login = λ _ _ _. refl; verify = λ _ _. refl }

client-faithful_example :
    (client_register demo_rpc "a@b" "secret12" empty ≡ (
      map_error register_error (register demo_crypto demo_users "k" "a@b" "secret12" empty).0,
      (register demo_crypto demo_users "k" "a@b" "secret12" empty).1,
    ))
    × (client_login demo_rpc "a@b" "secret12" empty ≡ (
      map_error login_error (login demo_crypto demo_users "k" "a@b" "secret12" empty).0,
      (login demo_crypto demo_users "k" "a@b" "secret12" empty).1,
    ))
    × (client_verify demo_rpc "t" empty ≡ (
      map_error verify_error (verify_token demo_crypto demo_users "k" "t" empty).0,
      (verify_token demo_crypto demo_users "k" "t" empty).1,
    ))
client-faithful_example =
    client-faithful demo_crypto demo_users "k" demo_rpc demo-Delivers "a@b" "secret12" "t" empty

abbrev the_credentials : Credentials
the_credentials = record { email = "a@b"; password = "secret12" }

abbrev login_server : Server World
login_server = record {
  auth = client demo_rpc;
  uploads = record { negotiate = λ _ _ _. pure ("id", "url"); complete = λ _. pure tt };
  reads = record { get = λ _. pure ("pending", "ann", "image/png"); list = λ _. pure [] };
  objects = record { get = λ _. pure [] };
  decode = record {
    credentials = λ _. ok the_credentials;
    create_upload = λ _. err (message "not asked");
  };
}

abbrev login_request : Request
login_request = record {
  method = "POST";
  segments = "login" ∷ [];
  headers = [];
  query = [];
  body = "{}";
  path_id = "";
  user_id = none;
}

login_alike_example :
    Handlers.login login_server login_request fresh empty
    ≡ (http_error "invalid email or password" 401 fresh, empty)
login_alike_example =
    login_alike demo_crypto demo_users "k" demo_rpc demo-Delivers login_server login_request
      the_credentials fresh empty empty refl refl (no_account (sentinel user_not_found) refl refl)
