-- ===== src/Client/HealthChecks/Calls.antt =====
-- packages/rust/armonik/src/client/health_checks.rs: the bodies of `impl_call!`, which send a request as it is.
use armoni_k_api.Rpc.Calls.{RequestError, Call}
use armoni_k_api.Rpc.Unary.{client_call}
use armoni_k_api.Server.HealthChecks.{HealthChecksWire}
use armoni_k_api.Objects.HealthChecks.{Health, health_from}

module _ {S : Type 0} (stub : HealthChecksWire S) where
  unfoldable pub check : (Unit {0}) → Call S RequestError Health
  check = client_call (λ u. u) health_from stub.check_health
