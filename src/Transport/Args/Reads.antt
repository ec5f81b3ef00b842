-- ===== src/Transport/Args/Reads.antt =====
-- packages/rust/armonik-transport/src/config.rs: which options `ClientConfigArgs::from_env` returns.
use armoni_k_api.Common.{◌≡◌, ◌↔◌, subst}
use armoni_k_api.Common.Outcome.{ok, map_err-eq-ok, ok-injective}
use armoni_k_api.Common.Outcome.Chain.{◌>>=◌}
use armoni_k_api.Transport.Env.{Env, read_env, read_env_bool}
use armoni_k_api.Transport.External.{External}
use armoni_k_api.Transport.Error.{env}
use armoni_k_api.Transport.Args.{ClientConfigArgs, text_option, bool_option, from_env}

module _ (x : External) (vars : Env) where
  -- Every option holds what its own variable reads as.
  pub record Reads (args : ClientConfigArgs) : Type 0 where
    pub endpoint : read_env vars "GrpcClient__Endpoint" ≡ ok args.endpoint
    pub cert_pem : read_env vars "GrpcClient__CertPem" ≡ ok args.cert_pem
    pub key_pem : read_env vars "GrpcClient__KeyPem" ≡ ok args.key_pem
    pub ca_cert : read_env vars "GrpcClient__CaCert" ≡ ok args.ca_cert
    pub allow_unsafe_connection :
        read_env_bool vars "GrpcClient__AllowUnsafeConnection" ≡ ok args.allow_unsafe_connection
    pub override_target_name :
        read_env vars "GrpcClient__OverrideTargetName" ≡ ok args.override_target_name
    pub connect_timeout : read_env vars "GrpcClient__ConnectTimeout" ≡ ok args.connect_timeout
    pub timeout : read_env vars "GrpcClient__Timeout" ≡ ok args.timeout
    pub rate_limit : read_env vars "GrpcClient__RateLimit" ≡ ok args.rate_limit
    pub tcp_keepalive : read_env vars "GrpcClient__TcpKeepalive" ≡ ok args.tcp_keepalive
    pub tcp_keepalive_interval :
        read_env vars "GrpcClient__TcpKeepaliveInterval" ≡ ok args.tcp_keepalive_interval
    pub tcp_keepalive_retries :
        read_env vars "GrpcClient__TcpKeepaliveRetries" ≡ ok args.tcp_keepalive_retries
    pub tcp_nagle_algorithm :
        read_env_bool vars "GrpcClient__TcpNagleAlgorithm" ≡ ok args.tcp_nagle_algorithm
    pub http2_keep_alive_interval :
        read_env vars "GrpcClient__Http2KeepAliveInterval" ≡ ok args.http2_keep_alive_interval
    pub http2_keep_alive_timeout :
        read_env vars "GrpcClient__Http2KeepAliveTimeout" ≡ ok args.http2_keep_alive_timeout
    pub http2_keep_alive_while_idle :
        read_env_bool vars "GrpcClient__Http2KeepAliveWhileIdle"
        ≡ ok args.http2_keep_alive_while_idle
    pub http2_max_header_list_size :
        read_env vars "GrpcClient__Http2MaxHeaderListSize" ≡ ok args.http2_max_header_list_size
    pub user_agent : read_env vars "GrpcClient__UserAgent" ≡ ok args.user_agent

  from_env_complete : (args : ClientConfigArgs) → Reads args → from_env x vars ≡ ok args
  unfolding from_env text_option bool_option
  from_env_complete args r = rw (
    r.endpoint, r.cert_pem, r.key_pem, r.ca_cert, r.allow_unsafe_connection, r.override_target_name,
    r.connect_timeout, r.timeout, r.rate_limit, r.tcp_keepalive, r.tcp_keepalive_interval,
    r.tcp_keepalive_retries, r.tcp_nagle_algorithm, r.http2_keep_alive_interval,
    r.http2_keep_alive_timeout, r.http2_keep_alive_while_idle, r.http2_max_header_list_size,
    r.user_agent,
  )

  from_env_sound : (args : ClientConfigArgs) → from_env x vars ≡ ok args → Reads args
  unfolding from_env text_option bool_option
  from_env_sound args = do
    _ ← text_option x vars "GrpcClient__Endpoint"
    _ ← text_option x vars "GrpcClient__CertPem"
    _ ← text_option x vars "GrpcClient__KeyPem"
    _ ← text_option x vars "GrpcClient__CaCert"
    _ ← bool_option x vars "GrpcClient__AllowUnsafeConnection"
    _ ← text_option x vars "GrpcClient__OverrideTargetName"
    _ ← text_option x vars "GrpcClient__ConnectTimeout"
    _ ← text_option x vars "GrpcClient__Timeout"
    _ ← text_option x vars "GrpcClient__RateLimit"
    _ ← text_option x vars "GrpcClient__TcpKeepalive"
    _ ← text_option x vars "GrpcClient__TcpKeepaliveInterval"
    _ ← text_option x vars "GrpcClient__TcpKeepaliveRetries"
    _ ← bool_option x vars "GrpcClient__TcpNagleAlgorithm"
    _ ← text_option x vars "GrpcClient__Http2KeepAliveInterval"
    _ ← text_option x vars "GrpcClient__Http2KeepAliveTimeout"
    _ ← bool_option x vars "GrpcClient__Http2KeepAliveWhileIdle"
    _ ← text_option x vars "GrpcClient__Http2MaxHeaderListSize"
    _ ← text_option x vars "GrpcClient__UserAgent"
    λ done e17 e16 e15 e14 e13 e12 e11 e10 e9 e8 e7 e6 e5 e4 e3 e2 e1 e0.
        subst Reads (ok-injective done) (record {
          endpoint = map_err-eq-ok env _ e0;
          cert_pem = map_err-eq-ok env _ e1;
          key_pem = map_err-eq-ok env _ e2;
          ca_cert = map_err-eq-ok env _ e3;
          allow_unsafe_connection = map_err-eq-ok env _ e4;
          override_target_name = map_err-eq-ok env _ e5;
          connect_timeout = map_err-eq-ok env _ e6;
          timeout = map_err-eq-ok env _ e7;
          rate_limit = map_err-eq-ok env _ e8;
          tcp_keepalive = map_err-eq-ok env _ e9;
          tcp_keepalive_interval = map_err-eq-ok env _ e10;
          tcp_keepalive_retries = map_err-eq-ok env _ e11;
          tcp_nagle_algorithm = map_err-eq-ok env _ e12;
          http2_keep_alive_interval = map_err-eq-ok env _ e13;
          http2_keep_alive_timeout = map_err-eq-ok env _ e14;
          http2_keep_alive_while_idle = map_err-eq-ok env _ e15;
          http2_max_header_list_size = map_err-eq-ok env _ e16;
          user_agent = map_err-eq-ok env _ e17;
        })

  -- Reading the environment gives `args` exactly if every one of the eighteen variables is readable
  -- and each option of `args` holds what its own variable reads as.
  pub from_env-iff-Reads : (args : ClientConfigArgs) → (from_env x vars ≡ ok args) ↔ Reads args
  from_env-iff-Reads args = (from_env_sound args, from_env_complete args)
