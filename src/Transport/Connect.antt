-- ===== src/Transport/Connect.antt =====
-- packages/rust/armonik-transport/src/connect.rs: `connect` and `https_connector`. What rustls,
-- hyper and tonic do is a parameter; the calls on their builders set the fields of two records.
pub mod Fields
pub mod Panics
pub mod Exact
pub mod Hosts
mod Tests
use armoni_k_api.Common.{
  ℕ, String, Bool, true, false, not, Option, none, some, List, [], ◌∷◌, unwrap_or,
}
use armoni_k_api.Common.Outcome.{Result, ok, err, ◌>>=◌, map_err}
use armoni_k_api.Transport.External.{External, Duration}
use armoni_k_api.Transport.Error.{ConfigError}
use armoni_k_api.Transport.Config.{ClientConfig}

-- How the certificate of the server is verified.
pub data Verifier (Store : Type 0) : Type 0 where
  insecure : Verifier Store
  roots : Store → Verifier Store

pub record HttpsConnector (x : External) (Store ServerName : Type 0) : Type 0 where
  pub verifier : Verifier Store
  pub client_auth : Option (List x.CertificateDer × x.PrivateKeyDer)
  pub https_or_http : Bool
  -- `FixedServerNameResolver`
  pub server_name : Option ServerName
  pub enforce_http : Bool
  pub nodelay : Bool
  pub keepalive : Option Duration
  pub keepalive_interval : Option Duration
  pub keepalive_retries : Option ℕ
  pub connect_timeout : Option Duration
  pub http1 : Bool
  pub http2 : Bool

-- `tonic::transport::Endpoint`
pub record Endpoint (x : External) : Type 0 where
  pub address : x.Uri
  pub origin : Option x.Uri
  pub timeout : Option Duration
  pub rate_limit : Option (ℕ × Duration)
  pub http2_keep_alive_interval : Option Duration
  pub keep_alive_timeout : Option Duration
  pub keep_alive_while_idle : Bool
  pub http2_max_header_list_size : Option ℕ
  pub user_agent : Option x.HeaderValue

-- A call that fails, or that panics.
pub data Fault (E : Type 0) : Type 0 where
  error : E → Fault E
  panic : String → Fault E

pub record Stack (x : External) : Type 1 where
  pub TlsError : Type 0
  pub TransportError : Type 0
  pub ServerName : Type 0
  pub InvalidDnsName : Type 0
  pub RootCertStore : Type 0
  pub Channel : Type 0
  -- `with_safe_default_protocol_versions`, under the provider of the process
  pub safe_protocols : Result (Unit {0}) TlsError
  -- `RootCertStore::empty()`, and `add`
  pub root_store : x.CertificateDer → Result RootCertStore TlsError
  pub native_roots : Result RootCertStore x.IoError
  -- `with_client_auth_cert`
  pub check_identity : List x.CertificateDer → x.PrivateKeyDer → Result (Unit {0}) TlsError
  pub parse_server_name : String → Result ServerName InvalidDnsName
  pub connect_with_connector :
      Endpoint x → HttpsConnector x RootCertStore ServerName → Result Channel (Fault TransportError)

pub data ConnectionError (x : External) (s : Stack x) : Type 0 where
  config_error : ConfigError x → ConnectionError x s
  transport : x.Uri → s.TransportError → ConnectionError x s
  tls : x.Uri → s.TlsError → ConnectionError x s
  io : x.IoError → ConnectionError x s

module _ (x : External) (s : Stack x) where
  abbrev pub Connector : Type 0
  Connector = HttpsConnector x s.RootCertStore s.ServerName

  abbrev pub Connecting {ℓ} : Type ℓ → Type ℓ
  Connecting A = Result A (Fault (ConnectionError x s))

  tls_error : x.Uri → s.TlsError → Fault (ConnectionError x s)
  tls_error endpoint e = error (tls endpoint e)

  -- `allow_unsafe_connection` comes before `cacert`.
  pub choose_verifier :
      x.Uri → Bool → Option x.CertificateDer → Connecting (Verifier s.RootCertStore)
  choose_verifier endpoint true cacert = ok insecure
  choose_verifier endpoint false (some cert) = do
    store ← map_err (tls_error endpoint) (s.root_store cert)
    ok (roots store)
  choose_verifier endpoint false none = do
    store ← map_err (λ e. error (io e)) s.native_roots
    ok (roots store)

  pub choose_identity :
      x.Uri
      → Option (x.CertificateDer × x.PrivateKeyDer)
      → Connecting (Option (List x.CertificateDer × x.PrivateKeyDer))
  choose_identity endpoint none = ok none
  choose_identity endpoint (some (cert, key)) = do
    _ ← map_err (tls_error endpoint) (s.check_identity (cert ∷ []) key)
    ok (some (cert ∷ [], key))

  -- `expect` panics if the host of the override target is no server name.
  pub choose_server_name : Option x.Uri → Connecting (Option s.ServerName)
  choose_server_name none = ok none
  choose_server_name (some target) = elim (s.parse_server_name (unwrap_or "" (x.host target))) [
    | ok name ↦ ok (some name)
    | err _ ↦ err (panic "A valid URI host should be a valid ServerName")
  ]

  pub https_connector : ClientConfig x → Connecting Connector
  unfolding tls_error choose_verifier choose_identity choose_server_name
  https_connector config = do
    _ ← map_err (tls_error config.endpoint) s.safe_protocols
    verifier ← choose_verifier config.endpoint config.allow_unsafe_connection config.cacert
    client_auth ← choose_identity config.endpoint config.identity
    server_name ← choose_server_name config.override_target
    ok (record {
      verifier = verifier;
      client_auth = client_auth;
      https_or_http = true;
      server_name = server_name;
      enforce_http = false;
      nodelay = not config.tcp_nagle_algorithm;
      keepalive = config.tcp_keepalive;
      keepalive_interval = config.tcp_keepalive_interval;
      keepalive_retries = config.tcp_keepalive_retries;
      connect_timeout = config.connect_timeout;
      http1 = true;
      http2 = true;
    })

  -- The calls on `tonic::transport::Endpoint`: an option that is absent leaves tonic's default.
  -- A user agent that is a header value is taken without a check that could fail.
  pub transport_endpoint : ClientConfig x → Endpoint x
  transport_endpoint config = record {
    address = config.endpoint;
    origin = config.override_target;
    timeout = config.timeout;
    rate_limit = config.rate_limit;
    http2_keep_alive_interval = config.http2_keep_alive_interval;
    keep_alive_timeout = config.http2_keep_alive_timeout;
    keep_alive_while_idle = config.http2_keep_alive_while_idle;
    http2_max_header_list_size = config.http2_max_header_list_size;
    user_agent = config.user_agent;
  }

  pub transport_fault : x.Uri → Fault s.TransportError → Fault (ConnectionError x s)
  transport_fault endpoint (error e) = error (transport endpoint e)
  transport_fault endpoint (panic m) = panic m

  pub connect : ClientConfig x → Connecting s.Channel
  unfolding transport_endpoint transport_fault
  connect config = do
    https ← https_connector config
    map_err (transport_fault config.endpoint)
        (s.connect_with_connector (transport_endpoint config) https)
