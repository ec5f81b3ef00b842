-- ===== src/Transport/Config.antt =====
-- packages/rust/armonik-transport/src/config.rs: `ClientConfig`, `from_config_args` and `from_env`.
-- The `Clone` implementation is the identity, and the tracing span is left out.
pub mod Accepts
use armoni_k_api.Common.{ℕ, ◌≡◌, ◌↔◌, ◌∙◌, ap, subst, Bool, Option}
use armoni_k_api.Common.Outcome.{Result, ok, ◌>>=◌, bind_ok, ok-injective}
use armoni_k_api.Transport.Env.{Env}
use armoni_k_api.Transport.External.{External, Duration}
use armoni_k_api.Transport.Error.{ConfigError}
use armoni_k_api.Transport.Args
use armoni_k_api.Transport.Args.{ClientConfigArgs}
use armoni_k_api.Transport.Options.{
  read_cacert, read_identity, read_endpoint, read_override_target, read_connect_timeout,
  read_duration, read_rate_limit, read_u32, read_user_agent,
}

pub record ClientConfig (x : External) : Type 0 where
  pub endpoint : x.Uri
  pub allow_unsafe_connection : Bool
  pub identity : Option (x.CertificateDer × x.PrivateKeyDer)
  pub cacert : Option x.CertificateDer
  pub override_target : Option x.Uri
  pub connect_timeout : Option Duration
  pub timeout : Option Duration
  pub rate_limit : Option (ℕ × Duration)
  pub tcp_keepalive : Option Duration
  pub tcp_keepalive_interval : Option Duration
  pub tcp_keepalive_retries : Option ℕ
  pub tcp_nagle_algorithm : Bool
  pub http2_keep_alive_interval : Option Duration
  pub http2_keep_alive_timeout : Option Duration
  pub http2_keep_alive_while_idle : Bool
  pub http2_max_header_list_size : Option ℕ
  pub user_agent : Option x.HeaderValue

module _ (x : External) where
  unfoldable pub from_config_args : ClientConfigArgs → Result (ClientConfig x) (ConfigError x)
  from_config_args args = do
    cacert ← read_cacert x args.ca_cert
    identity ← read_identity x args.cert_pem args.key_pem
    endpoint ← read_endpoint x args.endpoint
    override_target ← read_override_target x endpoint args.override_target_name
    connect_timeout ← read_connect_timeout x args.connect_timeout
    timeout ← read_duration x args.timeout
    rate_limit ← read_rate_limit x args.rate_limit
    tcp_keepalive ← read_duration x args.tcp_keepalive
    tcp_keepalive_interval ← read_duration x args.tcp_keepalive_interval
    tcp_keepalive_retries ← read_u32 x args.tcp_keepalive_retries
    http2_keep_alive_interval ← read_duration x args.http2_keep_alive_interval
    http2_keep_alive_timeout ← read_duration x args.http2_keep_alive_timeout
    http2_max_header_list_size ← read_u32 x args.http2_max_header_list_size
    user_agent ← read_user_agent x args.user_agent
    ok (record {
      endpoint = endpoint;
      allow_unsafe_connection = args.allow_unsafe_connection;
      identity = identity;
      cacert = cacert;
      override_target = override_target;
      connect_timeout = connect_timeout;
      timeout = timeout;
      rate_limit = rate_limit;
      tcp_keepalive = tcp_keepalive;
      tcp_keepalive_interval = tcp_keepalive_interval;
      tcp_keepalive_retries = tcp_keepalive_retries;
      tcp_nagle_algorithm = args.tcp_nagle_algorithm;
      http2_keep_alive_interval = http2_keep_alive_interval;
      http2_keep_alive_timeout = http2_keep_alive_timeout;
      http2_keep_alive_while_idle = args.http2_keep_alive_while_idle;
      http2_max_header_list_size = http2_max_header_list_size;
      user_agent = user_agent;
    })

  unfoldable pub from_env : Env → Result (ClientConfig x) (ConfigError x)
  from_env vars = do args ← Args.from_env x vars; from_config_args args
