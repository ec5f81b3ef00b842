-- ===== src/Server/Agent.antt =====
-- packages/rust/armonik/src/server/agent.rs: the trait of the handlers, and the server that is made of them.
use armoni_k_api.Rpc.Calls.{Status, Call}
use armoni_k_api.Rpc.Unary.{unary}
use armoni_k_api.Common.{List}
use armoni_k_api.Common.Outcome.{Result}
use armoni_k_api.Objects.Agent.CreateTasks as CreateTasks
use armoni_k_api.Rpc.Streams.{stream_client}
use armoni_k_api.Objects.Agent.CreateMetadata.{
  MetadataRequest, V3MetadataRequest, MetadataResponse, V3MetadataResponse, metadata_request_from,
  metadata_response_into,
}
use armoni_k_api.Objects.Agent.CreateResults.{
  CreateRequest, V3CreateRequest, CreateResponse, V3CreateResponse, create_request_from,
  create_response_into,
}
use armoni_k_api.Objects.Agent.NotifyResultData.{Request, V3Request, request_from}
use armoni_k_api.Objects.Agent.SubmitTasks.{
  SubmitRequest, V3SubmitRequest, SubmitResponse, V3SubmitResponse, submit_request_from,
  submit_response_into,
}
use armoni_k_api.Objects.Agent.Requests.{
  DataRequest, V3DataRequest, DataResponse, V3DataResponse, NotifyResponse, V3NotifyResponse,
  data_request_from, data_response_into, notify_response_into,
}

-- The calls of the generated service, of its client as of its server.
pub record AgentWire (S : Type 0) : Type 0 where
  pub create_results_meta_data : V3MetadataRequest → Call S Status V3MetadataResponse
  pub create_results : V3CreateRequest → Call S Status V3CreateResponse
  pub notify_result_data : V3Request → Call S Status V3NotifyResponse
  pub submit_tasks : V3SubmitRequest → Call S Status V3SubmitResponse
  pub get_resource_data : V3DataRequest → Call S Status V3DataResponse
  pub get_common_data : V3DataRequest → Call S Status V3DataResponse
  pub get_direct_data : V3DataRequest → Call S Status V3DataResponse
  -- The stream of the requests as it arrives.
  pub create_task :
      List (Result CreateTasks.V3Request Status) → Call S Status CreateTasks.V3Response

-- The trait of the handlers.
pub record AgentService (S Context : Type 0) : Type 0 where
  pub create_results_metadata : MetadataRequest → Context → Call S Status MetadataResponse
  pub create_results : CreateRequest → Context → Call S Status CreateResponse
  pub notify_result_data : Request → Context → Call S Status NotifyResponse
  pub submit_tasks : SubmitRequest → Context → Call S Status SubmitResponse
  pub get_resource_data : DataRequest → Context → Call S Status DataResponse
  pub get_common_data : DataRequest → Context → Call S Status DataResponse
  pub get_direct_data : DataRequest → Context → Call S Status DataResponse
  pub create_tasks :
      List (Result CreateTasks.Request Status) → Context → Call S Status CreateTasks.Response

-- The server of the handlers, for calls that come with the given context.
unfoldable pub serve : {S Context : Type 0} → AgentService S Context → Context → AgentWire S
serve service context = record {
  create_results_meta_data = λ w.
      unary metadata_request_from metadata_response_into service.create_results_metadata w context;
  create_results =
      λ w. unary create_request_from create_response_into service.create_results w context;
  notify_result_data =
      λ w. unary request_from notify_response_into service.notify_result_data w context;
  submit_tasks = λ w. unary submit_request_from submit_response_into service.submit_tasks w context;
  get_resource_data =
      λ w. unary data_request_from data_response_into service.get_resource_data w context;
  get_common_data =
      λ w. unary data_request_from data_response_into service.get_common_data w context;
  get_direct_data =
      λ w. unary data_request_from data_response_into service.get_direct_data w context;
  create_task = λ requests.
      stream_client CreateTasks.request_from CreateTasks.response_into service.create_tasks requests
        context;
}
