-- ===== src/AuthGrpc.antt =====
-- internal/authgrpc/server.go and internal/authclient/client.go: the auth service behind gRPC, and its
-- client, which is the HTTP server's `Authenticator`.
pub mod Faithful
use go_image_service.Base.{
  String, ◌<>◌, Bool, true, false, if◌then◌else◌, Result, ok, err, Err, message, wrapped, sentinel,
  status, workflow_gone, non_retryable, invalid_credentials, errors_is, status_code,
  is_unauthenticated, unauthenticated, internal, catch, M, fail, pure,
}
use go_image_service.Base.{error_text}
use go_image_service.Auth.{Crypto, UserRepo}
use go_image_service.GrpcAuth.{Credentials, dial}
use go_image_service.Auth
use go_image_service.Transport.Server.{Authenticator}

-- The calls of the generated `AuthServiceServer` and `AuthServiceClient`. A message of one or two
-- texts is written as its texts.
pub record AuthService (W : Type 0) : Type 0 where
  pub register : String → String → M W String
  pub login : String → String → M W String
  pub verify : String → M W String

module _ {W : Type 0} (c : Crypto W) (users : UserRepo W) (secret : String) where
  -- `Server.Register`
  unfoldable pub server_register : String → String → M W String
  server_register email password w =
      catch (Auth.register c users secret email password w) pure
        (λ e. fail (status internal ("register: " <> error_text e)))

  -- `Server.Login`
  unfoldable pub server_login : String → String → M W String
  server_login email password w = catch (Auth.login c users secret email password w) pure (λ e.
      fail (
        if errors_is e invalid_credentials
        then status unauthenticated "invalid email or password"
        else status internal ("login: " <> error_text e)))

  -- `Server.Verify`
  unfoldable pub server_verify : String → M W String
  server_verify token w =
      catch (Auth.verify_token c users secret token w) pure
        (λ _. fail (status unauthenticated "invalid token"))

  -- `authgrpc.Server`
  abbrev pub server : AuthService W
  server = record { register = server_register; login = server_login; verify = server_verify }

module _ {W Source Conn : Type 0} (new_token_source : String → Result Source)
    (new_client : String → Credentials Source → Result Conn)
    (new_auth_service_client : Conn → AuthService W) where
  -- `Dial` of client.go: the connection, wrapped in the generated client.
  unfoldable pub dial_client : String → Result (AuthService W)
  dial_client addr = elim (dial new_token_source new_client addr) [
    | ok conn ↦ ok (new_auth_service_client conn)
    | err e ↦ err e
  ]

module _ {W : Type 0} (rpc : AuthService W) where
  -- `Client.Register`
  unfoldable pub client_register : String → String → M W String
  client_register email password w = catch (rpc.register email password w) pure fail

  -- `Client.Login`
  unfoldable pub client_login : String → String → M W String
  client_login email password w =
      catch (rpc.login email password w) pure
        (λ e. fail (if is_unauthenticated (status_code e) then sentinel invalid_credentials else e))

  -- `Client.Verify`
  unfoldable pub client_verify : String → M W String
  client_verify token w = catch (rpc.verify token w) pure fail

  -- `authclient.Client`
  abbrev pub client : Authenticator W
  client = record { register = client_register; login = client_login; verify = client_verify }
