-- ===== src/Transport/Config/Accepts.antt =====
-- packages/rust/armonik-transport/src/config.rs: which configuration
-- `ClientConfig::from_config_args` returns.
use armoni_k_api.Common.{◌≡◌, ◌↔◌, refl, subst}
use armoni_k_api.Common.Outcome.{ok, ok-injective}
use armoni_k_api.Common.Outcome.Chain.{◌>>=◌}
use armoni_k_api.Transport.External.{External}
use armoni_k_api.Transport.Args.{ClientConfigArgs}
use armoni_k_api.Transport.Options.{
  read_cacert, read_identity, read_endpoint, read_override_target, read_connect_timeout,
  read_duration, read_rate_limit, read_u32, read_user_agent,
}
use armoni_k_api.Transport.Config.{ClientConfig, from_config_args}

module _ (x : External) where
  -- Every field of the configuration is what its own options read as.
  pub record Accepts (args : ClientConfigArgs) (c : ClientConfig x) : Type 0 where
    pub cacert : read_cacert x args.ca_cert ≡ ok c.cacert
    pub identity : read_identity x args.cert_pem args.key_pem ≡ ok c.identity
    pub endpoint : read_endpoint x args.endpoint ≡ ok c.endpoint
    pub override_target :
        read_override_target x c.endpoint args.override_target_name ≡ ok c.override_target
    pub connect_timeout : read_connect_timeout x args.connect_timeout ≡ ok c.connect_timeout
    pub timeout : read_duration x args.timeout ≡ ok c.timeout
    pub rate_limit : read_rate_limit x args.rate_limit ≡ ok c.rate_limit
    pub tcp_keepalive : read_duration x args.tcp_keepalive ≡ ok c.tcp_keepalive
    pub tcp_keepalive_interval :
        read_duration x args.tcp_keepalive_interval ≡ ok c.tcp_keepalive_interval
    pub tcp_keepalive_retries : read_u32 x args.tcp_keepalive_retries ≡ ok c.tcp_keepalive_retries
    pub http2_keep_alive_interval :
        read_duration x args.http2_keep_alive_interval ≡ ok c.http2_keep_alive_interval
    pub http2_keep_alive_timeout :
        read_duration x args.http2_keep_alive_timeout ≡ ok c.http2_keep_alive_timeout
    pub http2_max_header_list_size :
        read_u32 x args.http2_max_header_list_size ≡ ok c.http2_max_header_list_size
    pub user_agent : read_user_agent x args.user_agent ≡ ok c.user_agent
    pub allow_unsafe_connection : args.allow_unsafe_connection ≡ c.allow_unsafe_connection
    pub tcp_nagle_algorithm : args.tcp_nagle_algorithm ≡ c.tcp_nagle_algorithm
    pub http2_keep_alive_while_idle :
        args.http2_keep_alive_while_idle ≡ c.http2_keep_alive_while_idle

  from_config_args_complete :
      (args : ClientConfigArgs) (c : ClientConfig x)
      → Accepts args c
      → from_config_args x args ≡ ok c
  unfolding from_config_args
  from_config_args_complete args c h = rw (
    h.cacert, h.identity, h.endpoint, h.override_target, h.connect_timeout, h.timeout, h.rate_limit,
    h.tcp_keepalive, h.tcp_keepalive_interval, h.tcp_keepalive_retries, h.http2_keep_alive_interval,
    h.http2_keep_alive_timeout, h.http2_max_header_list_size, h.user_agent,
    h.allow_unsafe_connection, h.tcp_nagle_algorithm, h.http2_keep_alive_while_idle,
  )

  from_config_args_sound :
      (args : ClientConfigArgs) (c : ClientConfig x)
      → from_config_args x args ≡ ok c
      → Accepts args c
  unfolding from_config_args
  from_config_args_sound args c = do
    _ ← read_cacert x args.ca_cert
    _ ← read_identity x args.cert_pem args.key_pem
    endpoint ← read_endpoint x args.endpoint
    _ ← read_override_target x endpoint args.override_target_name
    _ ← read_connect_timeout x args.connect_timeout
    _ ← read_duration x args.timeout
    _ ← read_rate_limit x args.rate_limit
    _ ← read_duration x args.tcp_keepalive
    _ ← read_duration x args.tcp_keepalive_interval
    _ ← read_u32 x args.tcp_keepalive_retries
    _ ← read_duration x args.http2_keep_alive_interval
    _ ← read_duration x args.http2_keep_alive_timeout
    _ ← read_u32 x args.http2_max_header_list_size
    _ ← read_user_agent x args.user_agent
    λ done e13 e12 e11 e10 e9 e8 e7 e6 e5 e4 e3 e2 e1 e0.
        subst (Accepts args) (ok-injective done) (record {
          cacert = e0;
          identity = e1;
          endpoint = e2;
          override_target = e3;
          connect_timeout = e4;
          timeout = e5;
          rate_limit = e6;
          tcp_keepalive = e7;
          tcp_keepalive_interval = e8;
          tcp_keepalive_retries = e9;
          http2_keep_alive_interval = e10;
          http2_keep_alive_timeout = e11;
          http2_max_header_list_size = e12;
          user_agent = e13;
          allow_unsafe_connection = refl;
          tcp_nagle_algorithm = refl;
          http2_keep_alive_while_idle = refl;
        })

  -- The options give the configuration `c` exactly if every field of `c` is what the options behind it
  -- read as, the override target against the endpoint of `c`.
  pub from_config_args-iff-Accepts :
      (args : ClientConfigArgs) (c : ClientConfig x)
      → (from_config_args x args ≡ ok c) ↔ Accepts args c
  from_config_args-iff-Accepts args c =
      (from_config_args_sound args c, from_config_args_complete args c)
