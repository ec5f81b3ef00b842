-- ===== src/Transport/Error.antt =====
-- packages/rust/armonik-transport/src/config.rs: `ConfigError`. Backtraces and source locations
-- are left out.
use armoni_k_api.Common.{String}
use armoni_k_api.Common.Text.{ParseIntError}
use armoni_k_api.Transport.Env.{ReadEnvError}
use armoni_k_api.Transport.External.{External}

pub data ConfigError (x : External) : Type 0 where
  env : ReadEnvError → ConfigError x
  tls : x.PemError → ConfigError x
  -- the source, then the text that the message quotes
  uri : x.InvalidUri → String → ConfigError x
  http : x.HttpError → String → ConfigError x
  io : x.IoError → String → ConfigError x
  incompatible_options : String → ConfigError x
  invalid_duration : x.DurationError → String → ConfigError x
  invalid_rate_limit_count : ParseIntError → String → ConfigError x
  invalid_integer : ParseIntError → String → ConfigError x
  invalid_user_agent : x.InvalidHeaderValue → String → ConfigError x
