-- ===== src/Transport/Toy.antt =====
-- Concrete functions in place of the other crates, for the tests: a URI is its three parts, and
-- each parser refuses one text.
use armoni_k_api.Common.{
  ℕ, String, ap, sym, Bool, true, false, ◌||◌, ◌==◌, Option, none, some, List, [], ◌∷◌, ◌=s=◌,
  if◌then◌else◌,
}
use armoni_k_api.Common.Outcome.{Result, ok, err, ok-injective}
use armoni_k_api.Transport.Env.{Env, not_present}
use armoni_k_api.Transport.External.{External, Duration, is_zero}
use armoni_k_api.Transport.Override.{BuildsParts}
use armoni_k_api.Transport.Args.{ClientConfigArgs, default_args}
use armoni_k_api.Transport.Config.{ClientConfig}
use armoni_k_api.Transport.Connect.{Stack, Endpoint, Fault, panic}

pub record ToyUri : Type 0 where
  pub scheme : Option String
  pub authority : Option String
  pub path : Option String

abbrev pub uri_of : String → ToyUri
uri_of s = record { scheme = some "http"; authority = some s; path = some "/" }

-- A text is a host unless it is `whole`, and a URI unless it is `bad`.
abbrev pub toy_authority : String → Result String String
toy_authority s = if s =s= "whole" then err s else ok s

abbrev pub toy_uri : String → Result ToyUri String
toy_uri s = if s =s= "bad" then err s else ok (uri_of s)

abbrev pub seconds : ℕ → Duration
seconds n = record { secs = n; nanos = 0 }

abbrev pub toy_duration : String → Result Duration String
toy_duration s = if s =s= "2s" then ok (seconds 2) else if s =s= "0s" then ok (seconds 0) else err s

abbrev pub toy_read : String → Result String String
toy_read path = if path =s= "missing" then err path else ok path

abbrev pub toy_bytes : String → Result (List ℕ) String
toy_bytes path = if path =s= "missing" then err path else ok (1 ∷ 2 ∷ [])

abbrev pub toy_build : Option String → Option String → Option String → Result ToyUri String
toy_build s a p = ok (record { scheme = s; authority = a; path = p })

abbrev pub toy : External
toy = record {
  IoError = String;
  read_to_string = toy_read;
  read = toy_bytes;
  PemError = String;
  CertificateDer = String;
  PrivateKeyDer = List ℕ;
  cert_from_pem = ok;
  key_from_pem = ok;
  Uri = ToyUri;
  Scheme = String;
  Authority = String;
  PathAndQuery = String;
  InvalidUri = String;
  HttpError = String;
  parse_uri = toy_uri;
  parse_authority = toy_authority;
  uri_to_string = λ _. "uri";
  scheme = λ u. u.scheme;
  authority = λ u. u.authority;
  path_and_query = λ u. u.path;
  host = λ u. u.authority;
  build_uri = toy_build;
  HeaderValue = String;
  InvalidHeaderValue = String;
  header_from_str = ok;
  DurationError = String;
  parse_duration = toy_duration;
}

pub toy-BuildsParts : BuildsParts toy
toy-BuildsParts = record {
  built_scheme = λ s a p u h. sym (ap (λ (v : ToyUri). v.scheme) (ok-injective {E = String} h));
  built_authority =
      λ s a p u h. sym (ap (λ (v : ToyUri). v.authority) (ok-injective {E = String} h));
  built_path = λ s a p u h. sym (ap (λ (v : ToyUri). v.path) (ok-injective {E = String} h));
}

-- A TLS stack that refuses the name `no.server`, and a transport that connects unless the rate limit
-- has a zero half, on which it panics.
abbrev pub toy_server_name : String → Result String String
toy_server_name s = if s =s= "no.server" then err s else ok s

abbrev pub zero_half : Option (ℕ × Duration) → Bool
zero_half none = false
zero_half (some (n, d)) = n == 0 || is_zero d

abbrev pub toy_connect : Endpoint toy → Result String (Fault String)
toy_connect e = if zero_half e.rate_limit then err (panic "rate") else ok "channel"

abbrev pub toy_stack : Stack toy
toy_stack = record {
  TlsError = String;
  TransportError = String;
  ServerName = String;
  InvalidDnsName = String;
  RootCertStore = String;
  Channel = String;
  safe_protocols = ok tt;
  root_store = ok;
  native_roots = ok "system";
  check_identity = λ _ _. ok tt;
  parse_server_name = toy_server_name;
  connect_with_connector = λ e _. toy_connect e;
}

-- An environment with an endpoint, a rate limit and one boolean.
abbrev pub variables : Env
variables name =
    if name =s= "GrpcClient__Endpoint"
    then ok "server"
    else if name =s= "GrpcClient__RateLimit"
    then ok "100/2s"
    else if name =s= "GrpcClient__AllowUnsafeConnection"
    then ok "yes"
    else err not_present

-- The options that they give.
abbrev pub options : ClientConfigArgs
options = record default_args {
  endpoint = "server";
  rate_limit = "100/2s";
  allow_unsafe_connection = true;
}

-- The same with a certificate and an override target.
abbrev pub full_options : ClientConfigArgs
full_options = record options { cert_pem = "cert"; key_pem = "key"; override_target_name = "other" }

abbrev pub config : ClientConfig toy
config = record {
  endpoint = uri_of "server";
  allow_unsafe_connection = true;
  identity = some ("cert", 1 ∷ 2 ∷ []);
  cacert = none;
  override_target = some (uri_of "other");
  connect_timeout = some (seconds 60);
  timeout = none;
  rate_limit = some (100, seconds 2);
  tcp_keepalive = none;
  tcp_keepalive_interval = none;
  tcp_keepalive_retries = none;
  tcp_nagle_algorithm = false;
  http2_keep_alive_interval = none;
  http2_keep_alive_timeout = none;
  http2_keep_alive_while_idle = false;
  http2_max_header_list_size = none;
  user_agent = none;
}

-- The same with an override target that is no server name.
abbrev pub bad_options : ClientConfigArgs
bad_options = record full_options { override_target_name = "no.server" }

abbrev pub bad_config : ClientConfig toy
bad_config = record config { override_target = some (uri_of "no.server") }
