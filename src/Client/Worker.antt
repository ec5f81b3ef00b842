-- ===== src/Client/Worker.antt =====
-- packages/rust/armonik/src/client/worker.rs: the client of the service, over a stub that is generated code.
pub mod Calls
pub mod Served
use armoni_k_api.Common.{ℤ, String, Bool, Option, List, map}
use armoni_k_api.Common.Outcome.{Result, map_ok}
use armoni_k_api.Rpc.Calls.{RequestError, Call, then_result}
use armoni_k_api.Server.Worker.{WorkerWire}
use armoni_k_api.Client.Worker.Calls as Calls
use armoni_k_api.Objects.DataChunk.{Output}
use armoni_k_api.Objects.Worker.{
  Serving, V3HealthCheckReply, ProcessRequest, V3ProcessRequest, ProcessResponse, V3ProcessResponse,
}

module _ {S : Type 0} (stub : WorkerWire S) where
  unfoldable pub health_check : Call S RequestError Serving
  health_check = Calls.health_check stub tt

  unfoldable pub process : ProcessRequest → Call S RequestError Output
  process request =
      then_result (map_ok (λ (r : ProcessResponse). r.output)) (Calls.process stub request)
