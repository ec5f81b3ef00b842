-- ===== src/Transport/Options.antt =====
-- packages/rust/armonik-transport/src/config.rs: how `ClientConfig::from_config_args` reads each
-- group of options. An empty text is an option that is not given.
use armoni_k_api.Common.{
  ℕ, ◌-◌, ◌^◌, String, ◌<>◌, ◌≡◌, true, false, arith, ◌||◌, Option, none, some, List, [], ◌∷◌, ◌==◌,
  if◌then◌else◌,
}
use armoni_k_api.Common.Text.{is_empty, split, parse_uint}
use armoni_k_api.Common.Outcome.{Result, ok, err, ◌>>=◌, map_err}
use armoni_k_api.Transport.External.{External, Duration, is_zero}
use armoni_k_api.Transport.Error.{
  ConfigError, tls, uri, http, io, incompatible_options, invalid_duration, invalid_rate_limit_count,
  invalid_integer, invalid_user_agent,
}

abbrev pub u64_max : ℕ
u64_max = 2 ^ 64 - 1

abbrev pub u32_max : ℕ
u32_max = 2 ^ 32 - 1

module _ (x : External) where
  open x use {
    CertificateDer, PrivateKeyDer, Uri, Authority, PathAndQuery, HeaderValue, read_to_string, read,
    cert_from_pem, key_from_pem, parse_uri, parse_authority, uri_to_string, scheme, authority,
    path_and_query, build_uri, header_from_str, parse_duration,
  }

  -- An option that is absent when its text is empty.
  abbrev pub optional {ℓ} :
      {A : Type ℓ}
      → (String → Result A (ConfigError x))
      → String
      → Result (Option A) (ConfigError x)
  optional parse value = if is_empty value then ok none else (do a ← parse value; ok (some a))

  pub optional-some {ℓ} :
      {A : Type ℓ} (parse : String → Result A (ConfigError x)) (value : String) {a : A}
      → optional parse value ≡ ok (some a)
      → (is_empty value ≡ false) × (parse value ≡ ok a)
  optional-some parse value h = ground arith

  pub optional-none {ℓ} :
      {A : Type ℓ} (parse : String → Result A (ConfigError x)) (value : String)
      → optional parse value ≡ ok none
      → is_empty value ≡ true
  optional-none parse value h = ground arith

  load_cert : String → Result CertificateDer (ConfigError x)
  load_cert path = do
    pem ← map_err (λ e. io e path) (read_to_string path)
    map_err tls (cert_from_pem pem)

  -- The CA certificate.
  unfoldable pub read_cacert : String → Result (Option CertificateDer) (ConfigError x)
  unfolding load_cert
  read_cacert = optional load_cert

  unfoldable pub half_identity : String → String → String
  half_identity cert_path key_path =
      "`GrpcClient__CertPem="
      <> (cert_path
          <> ("` and `GrpcClient__KeyPem="
              <> (key_path <> "` must be either both empty or both set")))

  -- Both files are read before either is decoded.
  unfoldable pub load_identity :
      String → String → Result (CertificateDer × PrivateKeyDer) (ConfigError x)
  load_identity cert_path key_path = do
    cert_pem ← map_err (λ e. io e cert_path) (read_to_string cert_path)
    key_pem ← map_err (λ e. io e key_path) (read key_path)
    cert ← map_err tls (cert_from_pem cert_pem)
    key ← map_err tls (key_from_pem key_pem)
    ok (cert, key)

  -- The client certificate and its key.
  unfoldable pub read_identity :
      String → String → Result (Option (CertificateDer × PrivateKeyDer)) (ConfigError x)
  read_identity cert_path key_path =
      if is_empty cert_path
      then (if is_empty key_path
          then ok none
          else err (incompatible_options (half_identity cert_path key_path)))
      else if is_empty key_path
      then err (incompatible_options (half_identity cert_path key_path))
      else (do identity ← load_identity cert_path key_path; ok (some identity))

  unfoldable pub read_endpoint : String → Result Uri (ConfigError x)
  read_endpoint endpoint = map_err (λ e. uri e endpoint) (parse_uri endpoint)

  -- The authority and the path of the name: a host alone keeps the path of the endpoint.
  unfoldable pub override_parts :
      Uri → String → Result (Option Authority × Option PathAndQuery) (ConfigError x)
  override_parts endpoint name = elim (parse_authority name) [
    | ok auth ↦ ok (some auth, path_and_query endpoint)
    | err _ ↦ do
      parsed ← map_err (λ e. uri e (uri_to_string endpoint)) (parse_uri name)
      ok (authority parsed, path_and_query parsed)
  ]

  -- `authority.or_else(|| endpoint.authority().cloned())`
  abbrev pub or_else {ℓ} : {A : Type ℓ} → Option A → Option A → Option A
  or_else none d = d
  or_else (some a) d = some a

  unfoldable pub override_uri : Uri → String → Result Uri (ConfigError x)
  unfolding override_parts
  override_uri endpoint name = do
    parts ← override_parts endpoint name
    map_err (λ e. http e name)
        (build_uri (scheme endpoint) (or_else parts.0 (authority endpoint)) parts.1)

  -- The name under which the server is verified.
  unfoldable pub read_override_target : Uri → String → Result (Option Uri) (ConfigError x)
  unfolding override_uri
  read_override_target endpoint = optional (override_uri endpoint)

  duration : String → Result Duration (ConfigError x)
  duration value = map_err (λ e. invalid_duration e value) (parse_duration value)

  unfoldable pub read_duration : String → Result (Option Duration) (ConfigError x)
  unfolding duration
  read_duration = optional duration

  unfoldable pub read_connect_timeout : String → Result (Option Duration) (ConfigError x)
  unfolding duration
  read_connect_timeout value =
      if is_empty value
      then ok (some (record { secs = 60; nanos = 0 }))
      else (do d ← duration value; ok (some d))

  unfoldable pub integer : String → Result ℕ (ConfigError x)
  integer value = map_err (λ e. invalid_integer e value) (parse_uint u32_max value)

  unfoldable pub read_u32 : String → Result (Option ℕ) (ConfigError x)
  unfolding integer
  read_u32 = optional integer

  header : String → Result HeaderValue (ConfigError x)
  header value = map_err (λ e. invalid_user_agent e value) (header_from_str value)

  unfoldable pub read_user_agent : String → Result (Option HeaderValue) (ConfigError x)
  unfolding header
  read_user_agent = optional header

  pub rate_format : String → String
  rate_format rate_limit =
      "Rate limit should be in the format `number/duration`, e.g. `100/1s`, but got `"
      <> (rate_limit <> "`")

  pub rate_zero : String → String
  rate_zero rate_limit =
      "`GrpcClient__RateLimit="
      <> (rate_limit
          <> "` has a zero count or duration. Both have to be above zero, as in `100/1s`; leave it empty for no rate limit")

  -- The two halves of a rate limit; the error of the second quotes the whole option.
  unfoldable pub rate_halves : String → String → String → Result (ℕ × Duration) (ConfigError x)
  unfolding rate_zero
  rate_halves rate_limit count period = do
    limit ← map_err (λ e. invalid_rate_limit_count e count) (parse_uint u64_max count)
    d ← map_err (λ e. invalid_duration e rate_limit) (parse_duration period)
    if limit == 0 || is_zero d
        then err (incompatible_options (rate_zero rate_limit))
        else ok (limit, d)

  unfoldable pub rate_parts : String → List String → Result (ℕ × Duration) (ConfigError x)
  unfolding rate_halves rate_format
  rate_parts rate_limit (count ∷ period ∷ []) = rate_halves rate_limit count period
  rate_parts rate_limit _ = err (incompatible_options (rate_format rate_limit))

  unfoldable pub read_rate_limit : String → Result (Option (ℕ × Duration)) (ConfigError x)
  unfolding rate_parts
  read_rate_limit = optional (λ rate_limit. rate_parts rate_limit (split rate_limit b'/'))
