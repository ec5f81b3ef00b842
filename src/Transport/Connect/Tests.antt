-- ===== src/Transport/Connect/Tests.antt =====
-- The theorems on connections at concrete configurations.
use armoni_k_api.Common.{ℕ, [], ◌∷◌, ◌≡◌, ◌↔◌, ◌<◌, refl, true, false, some, none, arith, Option}
use armoni_k_api.Common.Outcome.{ok, err}
use armoni_k_api.Transport.External.{Duration, is_zero}
use armoni_k_api.Transport.Connect.{Connector, insecure, panic, https_connector, connect}
use armoni_k_api.Transport.Connect.Fields.{
  IsConfigured, https_connector-IsConfigured, insecure-iff-allowed,
}
use armoni_k_api.Transport.Connect.Panics.{AssertsRateOnly, NeverPanics, connect-NeverPanics}
use armoni_k_api.Transport.Connect.Hosts.{expected, ReachesName, BadHost, connect-panics_iff}
use armoni_k_api.Transport.Tests.{accepted, bad_accepted}
use armoni_k_api.Transport.Toy

abbrev connector : Connector Toy.toy Toy.toy_stack
connector = record {
  verifier = insecure;
  client_auth = some ("cert" ∷ [], 1 ∷ 2 ∷ []);
  https_or_http = true;
  server_name = some "other";
  enforce_http = false;
  nodelay = true;
  keepalive = none;
  keepalive_interval = none;
  keepalive_retries = none;
  connect_timeout = some (Toy.seconds 60);
  http1 = true;
  http2 = true;
}

built : https_connector Toy.toy Toy.toy_stack Toy.config ≡ ok connector
unfolding https_connector
built = refl

https_connector-IsConfigured_example : IsConfigured Toy.toy Toy.toy_stack Toy.config connector
https_connector-IsConfigured_example =
    https_connector-IsConfigured Toy.toy Toy.toy_stack Toy.config connector built

insecure-iff-allowed_example :
    (connector.verifier ≡ insecure) ↔ (Toy.config.allow_unsafe_connection ≡ true)
insecure-iff-allowed_example = insecure-iff-allowed Toy.toy Toy.toy_stack Toy.config connector built

nonzero_half :
    (r : Option (ℕ × Duration))
    → ((n : ℕ) (d : Duration) → r ≡ some (n, d) → (0 < n) × (is_zero d ≡ false))
    → Toy.zero_half r ≡ false
nonzero_half none h = refl
nonzero_half (some (n, d)) h = let (positive, nonzero) = h n d refl in ground arith

toy-AssertsRateOnly : AssertsRateOnly Toy.toy Toy.toy_stack
toy-AssertsRateOnly e h m positive = let z = nonzero_half e.rate_limit positive in rw z (λ e. cc)

connect-NeverPanics_example :
    NeverPanics Toy.toy Toy.toy_stack (connect Toy.toy Toy.toy_stack Toy.config)
connect-NeverPanics_example =
    connect-NeverPanics Toy.toy Toy.toy_stack toy-AssertsRateOnly Toy.full_options Toy.config
      accepted ("other", refl)

-- The options of the same with a host that is no server name are accepted.
connect-panics_iff_example :
    (connect Toy.toy Toy.toy_stack Toy.bad_config ≡ err (panic expected)) ↔ (
      (expected ≡ expected)
      × ReachesName Toy.toy Toy.toy_stack Toy.bad_config
      × BadHost Toy.toy Toy.toy_stack Toy.bad_config.override_target)
connect-panics_iff_example =
    connect-panics_iff Toy.toy Toy.toy_stack toy-AssertsRateOnly Toy.bad_options Toy.bad_config
      bad_accepted expected

bad_connect : connect Toy.toy Toy.toy_stack Toy.bad_config ≡ err (panic expected)
bad_connect =
    (connect-panics_iff Toy.toy Toy.toy_stack toy-AssertsRateOnly Toy.bad_options Toy.bad_config
        bad_accepted expected).1
      (
        refl,
        record { protocols = refl; verifies = (insecure, refl); presents = (_, (refl, refl)) },
        (Toy.uri_of "no.server", refl, "no.server", refl),
      )
