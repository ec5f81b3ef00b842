-- ===== src/Transport/External.antt =====
-- What armonik-transport takes from other crates and from the file system: URIs and header values
-- (hyper), durations (humantime), PEM (rustls). All of it is a parameter.
use armoni_k_api.Common.{ℕ, String, Bool, ◌&&◌, Option, List, ◌==◌}
use armoni_k_api.Common.Outcome.{Result}

-- `std::time::Duration`.
pub record Duration : Type 0 where
  pub secs : ℕ
  pub nanos : ℕ

abbrev pub is_zero : Duration → Bool
is_zero d = d.secs == 0 && d.nanos == 0

pub record External : Type 1 where
  -- `std::fs`
  pub IoError : Type 0
  pub read_to_string : String → Result String IoError
  pub read : String → Result (List ℕ) IoError
  -- `rustls::pki_types`
  pub PemError : Type 0
  pub CertificateDer : Type 0
  pub PrivateKeyDer : Type 0
  pub cert_from_pem : String → Result CertificateDer PemError
  pub key_from_pem : List ℕ → Result PrivateKeyDer PemError
  -- `hyper::http::uri`
  pub Uri : Type 0
  pub Scheme : Type 0
  pub Authority : Type 0
  pub PathAndQuery : Type 0
  pub InvalidUri : Type 0
  pub HttpError : Type 0
  pub parse_uri : String → Result Uri InvalidUri
  pub parse_authority : String → Result Authority InvalidUri
  pub uri_to_string : Uri → String
  pub scheme : Uri → Option Scheme
  pub authority : Uri → Option Authority
  pub path_and_query : Uri → Option PathAndQuery
  pub host : Uri → Option String
  pub build_uri : Option Scheme → Option Authority → Option PathAndQuery → Result Uri HttpError
  -- `hyper::http::HeaderValue`
  pub HeaderValue : Type 0
  pub InvalidHeaderValue : Type 0
  pub header_from_str : String → Result HeaderValue InvalidHeaderValue
  -- `humantime::Duration`
  pub DurationError : Type 0
  pub parse_duration : String → Result Duration DurationError
