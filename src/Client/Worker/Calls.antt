-- ===== src/Client/Worker/Calls.antt =====
-- packages/rust/armonik/src/client/worker.rs: the bodies of `impl_call!`, which send a request as it is.
use armoni_k_api.Rpc.Calls.{RequestError, Call}
use armoni_k_api.Rpc.Unary.{client_call}
use armoni_k_api.Server.Worker.{WorkerWire}
use armoni_k_api.Objects.Worker.{
  Serving, ProcessRequest, ProcessResponse, serving_from, process_request_into,
  process_response_from,
}

module _ {S : Type 0} (stub : WorkerWire S) where
  unfoldable pub health_check : (Unit {0}) → Call S RequestError Serving
  health_check = client_call (λ u. u) serving_from stub.health_check

  unfoldable pub process : ProcessRequest → Call S RequestError ProcessResponse
  process = client_call process_request_into process_response_from stub.process
