-- ===== src/Transport/Args.antt =====
-- packages/rust/armonik-transport/src/config.rs: `ClientConfigArgs`, the options as they are given
-- in the environment, and `ClientConfigArgs::from_env`.
pub mod Reads
use armoni_k_api.Common.{String, ◌≡◌, ◌↔◌, Bool, false, subst}
use armoni_k_api.Common.Outcome.{Result, ok, ◌>>=◌, map_err, map_err-eq-ok, ok-injective}
use armoni_k_api.Transport.Env.{Env, read_env, read_env_bool}
use armoni_k_api.Transport.External.{External}
use armoni_k_api.Transport.Error.{ConfigError, env}

pub record ClientConfigArgs : Type 0 where
  pub endpoint : String
  pub cert_pem : String
  pub key_pem : String
  pub ca_cert : String
  pub allow_unsafe_connection : Bool
  pub override_target_name : String
  pub connect_timeout : String
  pub timeout : String
  pub rate_limit : String
  pub tcp_keepalive : String
  pub tcp_keepalive_interval : String
  pub tcp_keepalive_retries : String
  pub tcp_nagle_algorithm : Bool
  pub http2_keep_alive_interval : String
  pub http2_keep_alive_timeout : String
  pub http2_keep_alive_while_idle : Bool
  pub http2_max_header_list_size : String
  pub user_agent : String

-- `ClientConfigArgs::default()`.
abbrev pub default_args : ClientConfigArgs
default_args = record {
  endpoint = "";
  cert_pem = "";
  key_pem = "";
  ca_cert = "";
  allow_unsafe_connection = false;
  override_target_name = "";
  connect_timeout = "";
  timeout = "";
  rate_limit = "";
  tcp_keepalive = "";
  tcp_keepalive_interval = "";
  tcp_keepalive_retries = "";
  tcp_nagle_algorithm = false;
  http2_keep_alive_interval = "";
  http2_keep_alive_timeout = "";
  http2_keep_alive_while_idle = false;
  http2_max_header_list_size = "";
  user_agent = "";
}

module _ (x : External) (vars : Env) where
  -- `read_env(name).context(EnvSnafu {})`, and the same of `read_env_bool`.
  pub text_option : String → Result String (ConfigError x)
  text_option name = map_err env (read_env vars name)

  pub bool_option : String → Result Bool (ConfigError x)
  bool_option name = map_err env (read_env_bool vars name)

  unfoldable pub from_env : Result ClientConfigArgs (ConfigError x)
  unfolding text_option bool_option
  from_env = do
    endpoint ← text_option "GrpcClient__Endpoint"
    cert_pem ← text_option "GrpcClient__CertPem"
    key_pem ← text_option "GrpcClient__KeyPem"
    ca_cert ← text_option "GrpcClient__CaCert"
    allow_unsafe_connection ← bool_option "GrpcClient__AllowUnsafeConnection"
    override_target_name ← text_option "GrpcClient__OverrideTargetName"
    connect_timeout ← text_option "GrpcClient__ConnectTimeout"
    timeout ← text_option "GrpcClient__Timeout"
    rate_limit ← text_option "GrpcClient__RateLimit"
    tcp_keepalive ← text_option "GrpcClient__TcpKeepalive"
    tcp_keepalive_interval ← text_option "GrpcClient__TcpKeepaliveInterval"
    tcp_keepalive_retries ← text_option "GrpcClient__TcpKeepaliveRetries"
    tcp_nagle_algorithm ← bool_option "GrpcClient__TcpNagleAlgorithm"
    http2_keep_alive_interval ← text_option "GrpcClient__Http2KeepAliveInterval"
    http2_keep_alive_timeout ← text_option "GrpcClient__Http2KeepAliveTimeout"
    http2_keep_alive_while_idle ← bool_option "GrpcClient__Http2KeepAliveWhileIdle"
    http2_max_header_list_size ← text_option "GrpcClient__Http2MaxHeaderListSize"
    user_agent ← text_option "GrpcClient__UserAgent"
    ok (record {
      endpoint = endpoint;
      cert_pem = cert_pem;
      key_pem = key_pem;
      ca_cert = ca_cert;
      allow_unsafe_connection = allow_unsafe_connection;
      override_target_name = override_target_name;
      connect_timeout = connect_timeout;
      timeout = timeout;
      rate_limit = rate_limit;
      tcp_keepalive = tcp_keepalive;
      tcp_keepalive_interval = tcp_keepalive_interval;
      tcp_keepalive_retries = tcp_keepalive_retries;
      tcp_nagle_algorithm = tcp_nagle_algorithm;
      http2_keep_alive_interval = http2_keep_alive_interval;
      http2_keep_alive_timeout = http2_keep_alive_timeout;
      http2_keep_alive_while_idle = http2_keep_alive_while_idle;
      http2_max_header_list_size = http2_max_header_list_size;
      user_agent = user_agent;
    })
