-- ===== src/Cmd/Services.antt =====
-- cmd/authservice/main.go and cmd/imageservice/main.go, up to the listener and the service that they
-- serve on it.
use go_image_service.Base.{ℕ, ◌*◌, String, M, ◌>>=◌, ◌>>◌, pure}
use go_image_service.Base.Integers.{pos}
use go_image_service.Config.{Config, listen_addr}
use go_image_service.Postgres.{Postgres}
use go_image_service.Auth.{Crypto}
use go_image_service.AuthGrpc.{AuthService, server}
use go_image_service.Imaging.Server.{ImageServer, new_server}
use go_image_service.Cmd.Wiring.{fatal, user_repo}

module _ {W Listener : Type 0} (listen : String → M W Listener) where
  module _ (c : Crypto W) (pool_new : String → M W (Postgres W))
      (ping : Postgres W → M W (Unit {0})) where
    -- `main` of authservice.
    unfoldable pub auth_main : (String → String) → Config → M W (Listener × AuthService W)
    unfolding listen_addr
    auth_main env cfg = do
      pool ← fatal "" (pool_new cfg.database_url)
      fatal "cannot reach postgres: " (ping pool)
      lis ← fatal "failed to listen: " (listen (listen_addr env "50052"))
      pure (lis, server c (user_repo pool) cfg.jwt_secret)

  -- `grpc.MaxRecvMsgSize`: 300 MB.
  abbrev pub max_message_bytes : ℕ
  max_message_bytes = 300 * 1024 * 1024

  -- `main` of imageservice: the listener, the size of the largest request, and the service.
  unfoldable pub image_main : (String → String) → M W (Listener × ℕ × ImageServer)
  unfolding listen_addr
  image_main env = do
    lis ← fatal "failed to listen: " (listen (listen_addr env "50051"))
    pure (lis, max_message_bytes, new_server (pos 1))
