-- ===== src/Server/Worker.antt =====
-- packages/rust/armonik/src/server/worker.rs: the trait of the handlers, and the server that is made of them.
use armoni_k_api.Rpc.Calls.{Status, Call}
use armoni_k_api.Rpc.Unary.{unary}
use armoni_k_api.Objects.Worker.{
  Serving, V3HealthCheckReply, ProcessRequest, V3ProcessRequest, ProcessResponse, V3ProcessResponse,
  serving_into, process_request_from, process_response_into,
}

-- The calls of the generated service, of its client as of its server.
pub record WorkerWire (S : Type 0) : Type 0 where
  pub health_check : (Unit {0}) → Call S Status V3HealthCheckReply
  pub process : V3ProcessRequest → Call S Status V3ProcessResponse

-- The trait of the handlers.
pub record WorkerService (S Context : Type 0) : Type 0 where
  pub health_check : (Unit {0}) → Context → Call S Status Serving
  pub process : ProcessRequest → Context → Call S Status ProcessResponse

-- The server of the handlers, for calls that come with the given context.
unfoldable pub serve : {S Context : Type 0} → WorkerService S Context → Context → WorkerWire S
serve service context = record {
  health_check = λ w. unary (λ u. u) serving_into service.health_check w context;
  process = λ w. unary process_request_from process_response_into service.process w context;
}
