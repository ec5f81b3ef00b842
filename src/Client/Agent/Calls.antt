-- ===== src/Client/Agent/Calls.antt =====
-- packages/rust/armonik/src/client/agent.rs: the bodies of `impl_call!`, which send a request as it is.
use armoni_k_api.Rpc.Calls.{RequestError, Call}
use armoni_k_api.Rpc.Unary.{client_call}
use armoni_k_api.Server.Agent.{AgentWire}
use armoni_k_api.Objects.Agent.CreateMetadata.{
  MetadataRequest, MetadataResponse, metadata_request_into, metadata_response_from,
}
use armoni_k_api.Objects.Agent.CreateResults.{
  CreateRequest, CreateResponse, create_request_into, create_response_from,
}
use armoni_k_api.Objects.Agent.NotifyResultData.{Request, request_into}
use armoni_k_api.Objects.Agent.SubmitTasks.{
  SubmitRequest, SubmitResponse, submit_request_into, submit_response_from,
}
use armoni_k_api.Objects.Agent.Requests.{
  DataRequest, DataResponse, NotifyResponse, data_request_into, data_response_from,
  notify_response_from,
}

module _ {S : Type 0} (stub : AgentWire S) where
  unfoldable pub create_results_metadata : MetadataRequest → Call S RequestError MetadataResponse
  create_results_metadata =
      client_call metadata_request_into metadata_response_from stub.create_results_meta_data

  unfoldable pub create_results : CreateRequest → Call S RequestError CreateResponse
  create_results = client_call create_request_into create_response_from stub.create_results

  unfoldable pub notify_result_data : Request → Call S RequestError NotifyResponse
  notify_result_data = client_call request_into notify_response_from stub.notify_result_data

  unfoldable pub submit_tasks : SubmitRequest → Call S RequestError SubmitResponse
  submit_tasks = client_call submit_request_into submit_response_from stub.submit_tasks

  unfoldable pub get_resource_data : DataRequest → Call S RequestError DataResponse
  get_resource_data = client_call data_request_into data_response_from stub.get_resource_data

  unfoldable pub get_common_data : DataRequest → Call S RequestError DataResponse
  get_common_data = client_call data_request_into data_response_from stub.get_common_data

  unfoldable pub get_direct_data : DataRequest → Call S RequestError DataResponse
  get_direct_data = client_call data_request_into data_response_from stub.get_direct_data
