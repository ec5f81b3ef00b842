-- ===== src/Transport/Accepted.antt =====
-- packages/rust/armonik-transport/src/config.rs: what holds of every configuration that
-- `ClientConfig::from_config_args` accepts, and which options it refuses.
use armoni_k_api.Common.{
  ℕ, ◌≤◌, ◌<◌, String, ◌≡◌, ◌≢◌, ◌∙◌, ap, refl, false, Option, some, none, arith, Holds,
  Holds-intro,
}
use armoni_k_api.Common.Text.{is_empty, parse_uint_bound}
use armoni_k_api.Common.Outcome.{ok, err, map_err-eq-ok}
use armoni_k_api.Transport.External.{External, Duration, is_zero}
use armoni_k_api.Transport.Error.{incompatible_options}
use armoni_k_api.Transport.Args.{ClientConfigArgs, default_args}
use armoni_k_api.Transport.Options.{
  u64_max, u32_max, integer, optional-some, half_identity, read_cacert, read_identity,
  read_endpoint, read_override_target, read_connect_timeout, read_duration, read_rate_limit,
  read_u32, read_user_agent,
}
use armoni_k_api.Transport.Identity.{read_identity_half}
use armoni_k_api.Transport.RateLimit.{read_rate_limit_bounds}
use armoni_k_api.Transport.Config.{ClientConfig, from_config_args}
use armoni_k_api.Transport.Config.Accepts.{from_config_args-iff-Accepts}

-- The connection asserts that neither half of a rate limit is zero.
abbrev pub RateInRange : ℕ × Duration → Type 0
RateInRange (n, d) = (0 < n) × (n ≤ u64_max) × (is_zero d ≡ false)

module _ (x : External) where
  -- What the connection relies on: a time limit for connecting, and numbers in the range of their
  -- types; a rate limit is not zero in either half.
  pub record IsUsable (c : ClientConfig x) : Type 0 where
    pub connects_in_time : (d : Duration) × (c.connect_timeout ≡ some d)
    pub rate_in_range : Holds RateInRange c.rate_limit
    pub retries_in_range : Holds (λ n. n ≤ u32_max) c.tcp_keepalive_retries
    pub header_list_in_range : Holds (λ n. n ≤ u32_max) c.http2_max_header_list_size

  connect_timeout_some :
      (value : String) (o : Option Duration)
      → read_connect_timeout x value ≡ ok o
      → (d : Duration) × (o ≡ some d)
  unfolding read_connect_timeout
  connect_timeout_some value (some d) h = (d, refl)
  connect_timeout_some value none h = ground arith

  read_u32_bound : (value : String) (n : ℕ) → read_u32 x value ≡ ok (some n) → n ≤ u32_max
  unfolding read_u32
  read_u32_bound value n h =
      parse_uint_bound u32_max value n (map_err-eq-ok _ _ (optional-some x (integer x) value h).1)

  -- Every configuration that is accepted has a time limit for connecting, a rate limit with neither
  -- half zero, and counts that fit their 64-bit and 32-bit types.
  pub from_config_args-IsUsable :
      (args : ClientConfigArgs) (c : ClientConfig x) → from_config_args x args ≡ ok c → IsUsable c
  from_config_args-IsUsable args c h =
      let a = (from_config_args-iff-Accepts x args c).0 h in
      record {
        connects_in_time =
            connect_timeout_some args.connect_timeout c.connect_timeout a.connect_timeout;
        rate_in_range =
            Holds-intro RateInRange c.rate_limit
              λ (n, d) e. read_rate_limit_bounds x args.rate_limit n d (a.rate_limit ∙ ap ok e);
        retries_in_range =
            Holds-intro _ c.tcp_keepalive_retries λ n e.
              read_u32_bound args.tcp_keepalive_retries n (a.tcp_keepalive_retries ∙ ap ok e);
        header_list_in_range = Holds-intro _ c.http2_max_header_list_size λ n e.
            read_u32_bound args.http2_max_header_list_size n
              (a.http2_max_header_list_size ∙ ap ok e);
      }

  -- Half an identity is refused before the endpoint or any later option is read, whatever the other
  -- options and the two files hold, if the CA certificate is readable or not given.
  pub from_config_args-half_identity :
      (args : ClientConfigArgs) (ca : Option x.CertificateDer)
      → read_cacert x args.ca_cert ≡ ok ca
      → is_empty args.cert_pem ≢ is_empty args.key_pem
      → from_config_args x args
        ≡ err (incompatible_options (half_identity x args.cert_pem args.key_pem))
  unfolding from_config_args
  from_config_args-half_identity args ca e h =
      rw (e, read_identity_half x args.cert_pem args.key_pem h)

  -- The configuration of an endpoint with no other option.
  abbrev pub minimal : x.Uri → ClientConfig x
  minimal endpoint = record {
    endpoint = endpoint;
    allow_unsafe_connection = false;
    identity = none;
    cacert = none;
    override_target = none;
    connect_timeout = some (record { secs = 60; nanos = 0 });
    timeout = none;
    rate_limit = none;
    tcp_keepalive = none;
    tcp_keepalive_interval = none;
    tcp_keepalive_retries = none;
    tcp_nagle_algorithm = false;
    http2_keep_alive_interval = none;
    http2_keep_alive_timeout = none;
    http2_keep_alive_while_idle = false;
    http2_max_header_list_size = none;
    user_agent = none;
  }

  -- An endpoint that is a URI is enough, and everything else takes its default: a minute to connect,
  -- the system's certificates, no identity, no limits.
  pub from_config_args-minimal :
      (endpoint : String) (u : x.Uri)
      → x.parse_uri endpoint ≡ ok u
      → from_config_args x (record default_args { endpoint = endpoint }) ≡ ok (minimal u)
  unfolding from_config_args read_cacert read_identity read_endpoint read_override_target
      read_connect_timeout read_duration read_rate_limit read_u32 read_user_agent
  from_config_args-minimal endpoint u e = rw e
