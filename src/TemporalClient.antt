-- ===== src/TemporalClient.antt =====
-- internal/temporalclient/temporalclient.go: how Temporal is dialled. `client.Dial` is an argument of `dial`.
use go_image_service.Base.{
  String, Bool, true, false, Option, none, some, ◌==◌, string_eq, if◌then◌else◌, M,
}
use go_image_service.Config.{Config}

-- `client.Options`: the API key of the credentials and whether a TLS configuration is given.
pub record ClientOptions : Type 0 where
  pub host_port : String
  pub namespace : String
  pub credentials : Option String
  pub tls : Bool

-- `Options`
unfoldable pub options : Config → ClientOptions
options cfg =
    let opts : ClientOptions = record {
      host_port = cfg.temporal_address;
      namespace = cfg.temporal_namespace;
      credentials = none;
      tls = false;
    } in
    if cfg.temporal_api_key == ""
    then opts
    else record opts { credentials = some cfg.temporal_api_key; tls = true }

-- `Dial`
unfoldable pub dial : {W Client : Type 0} → (ClientOptions → M W Client) → Config → M W Client
unfolding options
dial client_dial cfg = client_dial (options cfg)
