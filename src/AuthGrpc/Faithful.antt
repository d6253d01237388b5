-- ===== src/AuthGrpc/Faithful.antt =====
-- What the HTTP server sees of the auth service through gRPC.
use go_image_service.Base.{
  String, ◌<>◌, ◌≡◌, refl, if◌then◌else◌, Result, ok, err, Err, sentinel, status,
  invalid_credentials, errors_is, error_text, is_unauthenticated, status_code, internal,
  unauthenticated, catch, fail, pure, Bool-cases, inl, inr,
}
use go_image_service.Auth
use go_image_service.Auth.{Crypto, UserRepo}
use go_image_service.Auth.Login.{Rejected, login-Rejected}
use go_image_service.AuthGrpc.{
  AuthService, server, client, server_register, server_login, server_verify, client_register,
  client_login, client_verify,
}
use go_image_service.Transport.Http.{Request, Writer, http_error}
use go_image_service.Transport.Server.{Server, Credentials}
use go_image_service.Transport.Handlers

-- The connection delivers each call to the server and its answer back.
pub record Delivers {W : Type 0} (rpc srv : AuthService W) : Type 0 where
  pub register :
      (email password : String) (w : W)
      → rpc.register email password w ≡ srv.register email password w
  pub login :
      (email password : String) (w : W) → rpc.login email password w ≡ srv.login email password w
  pub verify : (token : String) (w : W) → rpc.verify token w ≡ srv.verify token w

-- The errors after the two translations.
abbrev pub register_error : Err → Err
register_error e = status internal ("register: " <> error_text e)

abbrev pub login_error : Err → Err
login_error e =
    if errors_is e invalid_credentials
    then sentinel invalid_credentials
    else status internal ("login: " <> error_text e)

abbrev pub verify_error : Err → Err
verify_error _ = status unauthenticated "invalid token"

abbrev pub map_error : {A : Type 0} → (Err → Err) → Result A → Result A
map_error f (ok a) = ok a
map_error f (err e) = err (f e)

module _ {W : Type 0} where
  translate-register :
      (r : Result String × W)
      → catch (catch r pure (λ e. fail (register_error e))) pure fail
        ≡ (map_error register_error r.0, r.1)
  translate-register (ok _, _) = refl
  translate-register (err _, _) = refl

  translate-login :
      (r : Result String × W)
      → catch
          (catch r pure (λ e. fail (
            if errors_is e invalid_credentials
            then status unauthenticated "invalid email or password"
            else status internal ("login: " <> error_text e))))
          pure
          (λ e.
            fail (if is_unauthenticated (status_code e) then sentinel invalid_credentials else e))
        ≡ (map_error login_error r.0, r.1)
  translate-login (ok _, _) = refl
  translate-login (err e, w) = elim (Bool-cases (errors_is e invalid_credentials)) [
    | inl same ↦ rw same
    | inr other ↦ rw other
  ]

  translate-verify :
      (r : Result String × W)
      → catch (catch r pure (λ e. fail (verify_error e))) pure fail
        ≡ (map_error verify_error r.0, r.1)
  translate-verify (ok _, _) = refl
  translate-verify (err _, _) = refl

module _ {W : Type 0} (c : Crypto W) (users : UserRepo W) (secret : String) (rpc : AuthService W)
    (delivered : Delivers rpc (server c users secret)) where
  -- Through the client and the server each call gives what the service gives: the same value and the
  -- same world, and for an error the gRPC status that it is translated to, except that invalid
  -- credentials come back as themselves; for a connection that delivers each call to the server.
  pub client-faithful :
      (email password token : String) (w : W)
      → (client_register rpc email password w ≡ (
        map_error register_error (Auth.register c users secret email password w).0,
        (Auth.register c users secret email password w).1,
      ))
        × (client_login rpc email password w ≡ (
          map_error login_error (Auth.login c users secret email password w).0,
          (Auth.login c users secret email password w).1,
        ))
        × (client_verify rpc token w ≡ (
          map_error verify_error (Auth.verify_token c users secret token w).0,
          (Auth.verify_token c users secret token w).1,
        ))
  client-faithful email password token w = (
    unfold client_register server_register in rw delivered.register (translate-register _),
    unfold client_login server_login in rw delivered.login (translate-login _),
    unfold client_verify server_verify in rw delivered.verify (translate-verify _),
  )

  client_login-eq :
      (email password : String) (w : W)
      → client_login rpc email password w ≡ (
        map_error login_error (Auth.login c users secret email password w).0,
        (Auth.login c users secret email password w).1,
      )
  client_login-eq email password w = (client-faithful email password "" w).1

  -- `POST /login` with a body that decodes answers an unknown email and a wrong password alike, by the
  -- same 401, where the server's authenticator is the gRPC client of the auth service.
  pub login_alike :
      (s : Server W) (r : Request) (req : Credentials) (w : Writer) (world world' : W)
      → s.auth ≡ client rpc
      → s.decode.credentials r.body ≡ ok req
      → Rejected c users secret req.email req.password world world'
      → Handlers.login s r w world ≡ (http_error "invalid email or password" 401 w, world')
  unfolding Handlers.login
  login_alike s r req w world world' auth decoded h = rw (
    decoded,
    auth,
    (client_login-eq req.email req.password world),
    login-Rejected c users secret req.email req.password world h,
  )
