-- ===== src/Client/Agent.antt =====
-- packages/rust/armonik/src/client/agent.rs: the client of the service, over a stub that is generated code.
pub mod Calls
pub mod Served
pub mod Streamed
use armoni_k_api.Common.{ℤ, String, Bool, Option, List, map}
use armoni_k_api.Common.Outcome.{Result, map_ok}
use armoni_k_api.Rpc.Calls.{RequestError, Call, then_result}
use armoni_k_api.Server.Agent.{AgentWire}
use armoni_k_api.Client.Agent.Calls as Calls
use armoni_k_api.Objects.DataChunk.{Bytes}
use armoni_k_api.Objects.TaskOptions.{TaskOptions}
use armoni_k_api.Objects.Agent.Metadata.{ResultMetaData}
use armoni_k_api.Objects.Agent.CreateMetadata.{
  MetadataRequest, V3MetadataRequest, MetadataResponse, V3MetadataResponse, named,
}
use armoni_k_api.Objects.Agent.CreateResults.{
  CreateRequest, V3CreateRequest, CreateResponse, V3CreateResponse, item_of,
}
use armoni_k_api.Objects.Agent.NotifyResultData.{Request, V3Request}
use armoni_k_api.Objects.Agent.SubmitTasks.{
  RequestItem, ResponseItem, SubmitRequest, V3SubmitRequest, SubmitResponse, V3SubmitResponse,
}
use armoni_k_api.Objects.Agent.Requests.{
  DataRequest, V3DataRequest, DataResponse, V3DataResponse, NotifyResponse, V3NotifyResponse,
}

module _ {S : Type 0} (stub : AgentWire S) where
  unfoldable pub create_results_metadata :
      String → String → List String → Call S RequestError (List ResultMetaData)
  create_results_metadata token session_id names =
      then_result (map_ok (λ (r : MetadataResponse). r.results)) (
        Calls.create_results_metadata stub (record {
          communication_token = token;
          session_id = session_id;
          results = map named names;
        }))

  unfoldable pub create_results :
      String → String → List (String × Bytes) → Call S RequestError (List ResultMetaData)
  create_results token session_id results =
      then_result (map_ok (λ (r : CreateResponse). r.results)) (
        Calls.create_results stub (record {
          communication_token = token;
          session_id = session_id;
          results = map item_of results;
        }))

  unfoldable pub notify_result_data :
      String → String → List String → Call S RequestError (List String)
  notify_result_data token session_id result_ids =
      then_result (map_ok (λ (r : NotifyResponse). r.result_ids)) (
        Calls.notify_result_data stub (record {
          communication_token = token;
          session_id = session_id;
          result_ids = result_ids;
        }))

  unfoldable pub submit_tasks :
      String
      → String
      → Option TaskOptions
      → List RequestItem
      → Call S RequestError (List ResponseItem)
  submit_tasks token session_id task_options items =
      then_result (map_ok (λ (r : SubmitResponse). r.items)) (
        Calls.submit_tasks stub (record {
          communication_token = token;
          session_id = session_id;
          task_options = task_options;
          items = items;
        }))
