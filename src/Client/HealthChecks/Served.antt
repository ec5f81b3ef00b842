-- ===== src/Client/HealthChecks/Served.antt =====
-- The calls of packages/rust/armonik/src/client/health_checks.rs against the server of packages/rust/armonik/src/server/health_checks.rs.
use armoni_k_api.Common.{◌≡◌, refl, List}
use armoni_k_api.Common.Outcome.{map_ok}
use armoni_k_api.Rpc.Calls.{RequestError, grpc, Call, then_result, finish}
use armoni_k_api.Rpc.Unary.{part_served}
use armoni_k_api.Server.HealthChecks.{HealthChecksWire, HealthChecksService, serve}
use armoni_k_api.Client.HealthChecks as Client
use armoni_k_api.Client.HealthChecks.Calls as Calls
use armoni_k_api.Objects.HealthChecks.{ServiceHealth, health_into, health_from, health_back}

-- A call of the client with its arguments, and what it can return.
pub data HealthChecksCall : Type 0 where
  check : HealthChecksCall

pub data HealthChecksAnswer : Type 0 where
  checked : List ServiceHealth → HealthChecksAnswer

module _ {S : Type 0} (stub : HealthChecksWire S) where
  unfoldable pub perform : HealthChecksCall → Call S RequestError HealthChecksAnswer
  perform HealthChecksCall.check = then_result (map_ok checked) (Client.check stub)

module _ {S Context : Type 0} (service : HealthChecksService S Context) (context : Context) where
  -- The handler of the call, run once on the arguments, with its error wrapped.
  unfoldable pub handle : HealthChecksCall → Call S RequestError HealthChecksAnswer
  handle HealthChecksCall.check = finish (λ r. checked r.services) grpc (service.check tt context)

  -- The same for the client of health checks.
  pub perform-serve_health_checks :
      (call : HealthChecksCall) (s : S) → perform (serve service context) call s ≡ handle call s
  unfolding perform handle serve Client.check Calls.check
  perform-serve_health_checks HealthChecksCall.check s =
      part_served (λ u. u) (λ u. u) health_into health_from (λ _. refl) health_back
        (λ r. r.services) checked service.check context tt s
