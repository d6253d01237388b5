-- ===== src/Cmd/Caller.antt =====
-- Who calls the HTTP server, as its auth service says.
use go_image_service.Base.{String, ◌<>◌, ◌≡◌, sym, ◌∙◌, ok}
use go_image_service.Base.Inversion.{catch-pure}
use go_image_service.Config.{Config}
use go_image_service.AuthGrpc.{AuthService, client_verify, dial_client}
use go_image_service.Transport.Http.{Request}
use go_image_service.Transport.Handlers.{Handler}
use go_image_service.Transport.Authentication.{IsVerified, authorization}
use go_image_service.Transport.Admission.{without_id}
use go_image_service.Cmd.HttpServer.{Libraries, server_of}
use go_image_service.Cmd.Startup.{IsUp}

pub verify-eq :
    {W : Type 0} (rpc : AuthService W) (token : String) (w : W)
    → client_verify rpc token w ≡ rpc.verify token w
unfolding client_verify
verify-eq rpc token w = catch-pure (rpc.verify token w)

module _ {W Source Conn Client Object : Type 0} (lib : Libraries W Source Conn Client Object)
    (cfg : Config) (r : Request) (world : W) where
  -- The request carries a token that the configured auth service accepts for the user.
  pub record IsCaller (user_id : String) (verified_world : W) : Type 0 where
    pub rpc : AuthService W
    pub dialled :
        dial_client lib.new_token_source lib.new_client lib.new_auth_service_client
          cfg.auth_service_addr
        ≡ ok rpc
    pub token : String
    pub header : authorization r ≡ "Bearer " <> token
    pub verified : rpc.verify token world ≡ (ok user_id, verified_world)

  pub IsVerified-IsCaller :
      (web : Handler W) (w w' : W) (addr : String) (handler : Handler W)
      (up : IsUp lib web cfg w addr handler w') {user_id : String} {verified_world : W}
      → IsVerified
          (server_of lib cfg up.temporal up.rpc up.pool up.objects)
          (without_id r)
          world
          user_id
          verified_world
      → IsCaller user_id verified_world
  IsVerified-IsCaller web w w' addr handler up h = record {
    rpc = up.rpc;
    dialled = up.auth;
    token = h.token;
    header = h.header;
    verified = sym (verify-eq up.rpc h.token world) ∙ h.accepted;
  }
