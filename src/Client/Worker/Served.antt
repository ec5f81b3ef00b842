-- ===== src/Client/Worker/Served.antt =====
-- The calls of packages/rust/armonik/src/client/worker.rs against the server of packages/rust/armonik/src/server/worker.rs.
use armoni_k_api.Common.{◌≡◌, refl}
use armoni_k_api.Common.Outcome.{map_ok}
use armoni_k_api.Rpc.Calls.{RequestError, grpc, Call, then_result, finish}
use armoni_k_api.Rpc.Unary.{call_served, part_served}
use armoni_k_api.Server.Worker.{WorkerWire, WorkerService, serve}
use armoni_k_api.Client.Worker as Client
use armoni_k_api.Client.Worker.Calls as Calls
use armoni_k_api.Objects.DataChunk.{Output}
use armoni_k_api.Objects.Worker.{
  Serving, ProcessRequest, serving_into, serving_from, process_request_into, process_request_from,
  process_response_into, process_response_from, serving_back, process_request_back,
  process_response_back,
}

-- A call of the client with its arguments, and what it can return.
pub data WorkerCall : Type 0 where
  health_check : WorkerCall
  process : ProcessRequest → WorkerCall

pub data WorkerAnswer : Type 0 where
  checked : Serving → WorkerAnswer
  processed : Output → WorkerAnswer

module _ {S : Type 0} (stub : WorkerWire S) where
  unfoldable pub perform : WorkerCall → Call S RequestError WorkerAnswer
  perform WorkerCall.health_check = then_result (map_ok checked) (Client.health_check stub)
  perform (WorkerCall.process request) =
      then_result (map_ok processed) (Client.process stub request)

module _ {S Context : Type 0} (service : WorkerService S Context) (context : Context) where
  -- The handler of the call, run once on the arguments, with its error wrapped.
  unfoldable pub handle : WorkerCall → Call S RequestError WorkerAnswer
  handle WorkerCall.health_check = finish checked grpc (service.health_check tt context)
  handle (WorkerCall.process request) =
      finish (λ r. processed r.output) grpc (service.process request context)

  -- The same for the client of workers.
  pub perform-serve_worker :
      (call : WorkerCall) (s : S) → perform (serve service context) call s ≡ handle call s
  unfolding perform handle serve Client.health_check Calls.health_check Client.process Calls.process
  perform-serve_worker WorkerCall.health_check s =
      call_served (λ u. u) (λ u. u) serving_into serving_from (λ _. refl) serving_back checked
        service.health_check context tt s
  perform-serve_worker (WorkerCall.process request) s =
      part_served process_request_into process_request_from process_response_into
        process_response_from process_request_back process_response_back (λ r. r.output) processed
        service.process context request s
