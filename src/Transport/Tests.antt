-- ===== src/Transport/Tests.antt =====
-- The theorems on options and configurations at concrete inputs.
use armoni_k_api.Common.{Bool, String, ◌≡◌, ◌↔◌, refl, true, false, some, none, [], ◌∷◌}
use armoni_k_api.Common.Outcome.{ok, err}
use armoni_k_api.Common.Text.{split, parse_uint}
use armoni_k_api.Transport.Env.{
  contains_iff, read_env, read_env_bool, not_boolean, spellings, OneOf, read_env_bool-iff_spelling,
  read_env_bool_unknown, Env,
}
use armoni_k_api.Transport.Error.{incompatible_options}
use armoni_k_api.Transport.Args.{from_env, ClientConfigArgs}
use armoni_k_api.Transport.Args.Reads.{Reads, from_env-iff-Reads}
use armoni_k_api.Transport.Options.{
  read_cacert, read_identity, read_endpoint, read_override_target, read_connect_timeout,
  read_duration, read_rate_limit, read_u32, read_user_agent, half_identity, load_identity,
  override_uri, override_parts, rate_parts, rate_halves,
}
use armoni_k_api.Transport.RateLimit.{IsRate, read_rate_limit-iff-IsRate}
use armoni_k_api.Transport.Identity.{Loads, read_identity-iff-Loads}
use armoni_k_api.Transport.Override.{override_host, override_whole_uri}
use armoni_k_api.Transport.Config.{from_config_args}
use armoni_k_api.Transport.Config.Accepts.{Accepts, from_config_args-iff-Accepts}
use armoni_k_api.Transport.Accepted.{
  IsUsable, from_config_args-IsUsable, from_config_args-half_identity,
}
use armoni_k_api.Transport.Toy

env_read : from_env Toy.toy Toy.variables ≡ ok Toy.options
unfolding from_env read_env read_env_bool
env_read = refl

pub accepted : from_config_args Toy.toy Toy.full_options ≡ ok Toy.config
unfolding from_config_args read_cacert read_identity load_identity read_endpoint
    read_override_target override_uri override_parts read_connect_timeout read_duration
    read_rate_limit rate_parts rate_halves read_u32 read_user_agent split parse_uint
accepted = refl

pub bad_accepted : from_config_args Toy.toy Toy.bad_options ≡ ok Toy.bad_config
unfolding from_config_args read_cacert read_identity load_identity read_endpoint
    read_override_target override_uri override_parts read_connect_timeout read_duration
    read_rate_limit rate_parts rate_halves read_u32 read_user_agent split parse_uint
bad_accepted = refl

from_config_args-iff-Accepts_example :
    (from_config_args Toy.toy Toy.full_options ≡ ok Toy.config)
    ↔ Accepts Toy.toy Toy.full_options Toy.config
from_config_args-iff-Accepts_example =
    from_config_args-iff-Accepts Toy.toy Toy.full_options Toy.config

from_config_args-IsUsable_example : IsUsable Toy.toy Toy.config
from_config_args-IsUsable_example =
    from_config_args-IsUsable Toy.toy Toy.full_options Toy.config accepted

-- A certificate without a key.
abbrev half_options : ClientConfigArgs
half_options = record Toy.options { cert_pem = "cert" }

no_cacert : read_cacert Toy.toy "" ≡ ok none
unfolding read_cacert
no_cacert = refl

from_config_args-half_identity_example :
    from_config_args Toy.toy half_options
    ≡ err (incompatible_options (half_identity Toy.toy "cert" ""))
from_config_args-half_identity_example =
    from_config_args-half_identity Toy.toy half_options none no_cacert (λ h. cc)

from_env-iff-Reads_example :
    (from_env Toy.toy Toy.variables ≡ ok Toy.options) ↔ Reads Toy.toy Toy.variables Toy.options
from_env-iff-Reads_example = from_env-iff-Reads Toy.toy Toy.variables Toy.options

read_env_bool-iff_spelling_example :
    (read_env_bool Toy.variables "GrpcClient__AllowUnsafeConnection" ≡ ok true) ↔ (
      (value : String) × (read_env Toy.variables "GrpcClient__AllowUnsafeConnection" ≡ ok value)
      × OneOf value (spellings true))
read_env_bool-iff_spelling_example =
    read_env_bool-iff_spelling Toy.variables "GrpcClient__AllowUnsafeConnection" true

abbrev maybe : Env
maybe name = ok "maybe"

no_spelling : (b : Bool) → ¬ OneOf "maybe" (spellings b)
no_spelling true h = let e = (contains_iff "maybe" (spellings true)).1 h in cc
no_spelling false h = let e = (contains_iff "maybe" (spellings false)).1 h in cc

read_env_bool_unknown_example : read_env_bool maybe "flag" ≡ err (not_boolean "flag" "maybe")
read_env_bool_unknown_example =
    read_env_bool_unknown maybe "flag" "maybe" refl (no_spelling false) (no_spelling true)

read_rate_limit-iff-IsRate_example :
    (read_rate_limit Toy.toy "100/2s" ≡ ok (some (100, Toy.seconds 2)))
    ↔ IsRate Toy.toy "100/2s" 100 (Toy.seconds 2)
read_rate_limit-iff-IsRate_example = read_rate_limit-iff-IsRate Toy.toy "100/2s" 100 (Toy.seconds 2)

read_identity-iff-Loads_example :
    (read_identity Toy.toy "cert" "key" ≡ ok (some ("cert", 1 ∷ 2 ∷ [])))
    ↔ Loads Toy.toy "cert" "key" "cert" (1 ∷ 2 ∷ [])
read_identity-iff-Loads_example = read_identity-iff-Loads Toy.toy "cert" "key" "cert" (1 ∷ 2 ∷ [])

overridden :
    read_override_target Toy.toy (Toy.uri_of "server") "other" ≡ ok (some (Toy.uri_of "other"))
unfolding read_override_target override_uri override_parts
overridden = refl

overridden_whole :
    read_override_target Toy.toy (Toy.uri_of "server") "whole" ≡ ok (some (Toy.uri_of "whole"))
unfolding read_override_target override_uri override_parts
overridden_whole = refl

override_host_example :
    (Toy.toy.scheme (Toy.uri_of "other") ≡ Toy.toy.scheme (Toy.uri_of "server"))
    × (Toy.toy.authority (Toy.uri_of "other") ≡ some "other")
    × (Toy.toy.path_and_query (Toy.uri_of "other") ≡ some "/")
override_host_example =
    override_host Toy.toy Toy.toy-BuildsParts (Toy.uri_of "server") "other" (Toy.uri_of "other")
      "other" "/" refl refl overridden

override_whole_uri_example :
    (Toy.toy.scheme (Toy.uri_of "whole") ≡ Toy.toy.scheme (Toy.uri_of "server"))
    × (Toy.toy.authority (Toy.uri_of "whole") ≡ some "whole")
    × (Toy.toy.path_and_query (Toy.uri_of "whole") ≡ some "/")
override_whole_uri_example =
    override_whole_uri Toy.toy Toy.toy-BuildsParts (Toy.uri_of "server") "whole"
      (Toy.uri_of "whole") "whole" (Toy.uri_of "whole") "/" refl refl refl overridden_whole
