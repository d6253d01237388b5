-- ===== src/GrpcAuth.antt =====
-- internal/grpcauth/grpcauth.go: dialling a gRPC service, on Cloud Run or by host and port.
-- `idtoken.NewTokenSource` and `grpc.NewClient` are arguments of `dial`.
pub mod Laws
use Prim.Native.String
use go_image_service.Base.{
  String, ◌<>◌, Bool, if◌then◌else◌, has_prefix, trim_prefix, trim_suffix_char, Result, ok, err,
  Err, wrapped,
}

abbrev pub scheme : String
scheme = "https://"

-- `IsCloudRun`
unfoldable pub is_cloud_run : String → Bool
is_cloud_run addr = has_prefix scheme addr

-- `DialTarget`
unfoldable pub dial_target : String → String
unfolding is_cloud_run
dial_target addr =
    if is_cloud_run addr then trim_suffix_char "/" (trim_prefix scheme addr) <> ":443" else addr

-- What secures a connection: nothing, or TLS with a token of the source on every call.
pub data Credentials (Source : Type 0) : Type 0 where
  insecure : Credentials Source
  tls_with_token : Source → Credentials Source

module _ {Source Conn : Type 0} (new_token_source : String → Result Source)
    (new_client : String → Credentials Source → Result Conn) where
  connect : String → Result Source → Result Conn
  connect addr (err e) = err (wrapped ("id token source for " <> trim_suffix_char "/" addr) e)
  connect addr (ok source) = new_client (dial_target addr) (tls_with_token source)

  -- `Dial`
  unfoldable pub dial : String → Result Conn
  unfolding connect
  dial addr =
      if is_cloud_run addr
      then connect addr (new_token_source (trim_suffix_char "/" addr))
      else new_client addr insecure
