-- ===== src/Client/HealthChecks.antt =====
-- packages/rust/armonik/src/client/health_checks.rs: the client of the service, over a stub that is generated code.
pub mod Calls
pub mod Served
use armoni_k_api.Common.{ℤ, String, Bool, Option, List, map}
use armoni_k_api.Common.Outcome.{Result, map_ok}
use armoni_k_api.Rpc.Calls.{RequestError, Call, then_result}
use armoni_k_api.Server.HealthChecks.{HealthChecksWire}
use armoni_k_api.Client.HealthChecks.Calls as Calls
use armoni_k_api.Objects.HealthChecks.{ServiceHealth, Health, V3Health}

module _ {S : Type 0} (stub : HealthChecksWire S) where
  unfoldable pub check : Call S RequestError (List ServiceHealth)
  check = then_result (map_ok (λ (r : Health). r.services)) (Calls.check stub tt)
