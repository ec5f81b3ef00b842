-- ===== src/Client/Agent/Served.antt =====
-- The calls of packages/rust/armonik/src/client/agent.rs against the server of packages/rust/armonik/src/server/agent.rs.
use armoni_k_api.Common.{String, Option, List, map}
use armoni_k_api.Common.Outcome.{map_ok}
use armoni_k_api.Rpc.Calls.{RequestError, grpc, Call, then_result, finish}
use armoni_k_api.Server.Agent.{AgentWire, AgentService}
use armoni_k_api.Client.Agent as Client
use armoni_k_api.Client.Agent.Calls as Calls
use armoni_k_api.Objects.DataChunk.{Bytes}
use armoni_k_api.Objects.TaskOptions.{TaskOptions}
use armoni_k_api.Objects.Agent.Metadata.{ResultMetaData}
use armoni_k_api.Objects.Agent.CreateMetadata.{named}
use armoni_k_api.Objects.Agent.CreateResults.{item_of}
use armoni_k_api.Objects.Agent.SubmitTasks.{RequestItem, ResponseItem}
use armoni_k_api.Objects.Agent.Requests.{DataRequest, DataResponse}
use armoni_k_api.Objects.Agent.NotifyResultData.{request_read}

-- A call of the client with its arguments, and what it can return.
pub data AgentCall : Type 0 where
  create_results_metadata : String → String → List String → AgentCall
  create_results : String → String → List (String × Bytes) → AgentCall
  notify_result_data : String → String → List String → AgentCall
  submit_tasks : String → String → Option TaskOptions → List RequestItem → AgentCall
  get_resource_data : DataRequest → AgentCall
  get_common_data : DataRequest → AgentCall
  get_direct_data : DataRequest → AgentCall

pub data AgentAnswer : Type 0 where
  created : List ResultMetaData → AgentAnswer
  notified : List String → AgentAnswer
  submitted : List ResponseItem → AgentAnswer
  found : DataResponse → AgentAnswer

module _ {S : Type 0} (stub : AgentWire S) where
  unfoldable pub perform : AgentCall → Call S RequestError AgentAnswer
  perform (AgentCall.create_results_metadata token session_id names) =
      then_result (map_ok created) (Client.create_results_metadata stub token session_id names)
  perform (AgentCall.create_results token session_id results) =
      then_result (map_ok created) (Client.create_results stub token session_id results)
  perform (AgentCall.notify_result_data token session_id result_ids) =
      then_result (map_ok notified) (Client.notify_result_data stub token session_id result_ids)
  perform (AgentCall.submit_tasks token session_id task_options items) =
      then_result (map_ok submitted) (Client.submit_tasks stub token session_id task_options items)
  perform (AgentCall.get_resource_data request) =
      then_result (map_ok found) (Calls.get_resource_data stub request)
  perform (AgentCall.get_common_data request) =
      then_result (map_ok found) (Calls.get_common_data stub request)
  perform (AgentCall.get_direct_data request) =
      then_result (map_ok found) (Calls.get_direct_data stub request)

module _ {S Context : Type 0} (service : AgentService S Context) (context : Context) where
  -- The handler of the call, run once on the arguments, with its error wrapped; a notification of no
  -- result has no session.
  unfoldable pub handle : AgentCall → Call S RequestError AgentAnswer
  handle (AgentCall.create_results_metadata token session_id names) =
      finish (λ r. created r.results) grpc
        (service.create_results_metadata
          (record {
            communication_token = token;
            session_id = session_id;
            results = map named names;
          })
          context)
  handle (AgentCall.create_results token session_id results) =
      finish (λ r. created r.results) grpc
        (service.create_results
          (record {
            communication_token = token;
            session_id = session_id;
            results = map item_of results;
          })
          context)
  handle (AgentCall.notify_result_data token session_id result_ids) =
      finish (λ r. notified r.result_ids) grpc
        (service.notify_result_data
          (request_read (record {
            communication_token = token;
            session_id = session_id;
            result_ids = result_ids;
          }))
          context)
  handle (AgentCall.submit_tasks token session_id task_options items) =
      finish (λ r. submitted r.items) grpc
        (service.submit_tasks
          (record {
            communication_token = token;
            session_id = session_id;
            task_options = task_options;
            items = items;
          })
          context)
  handle (AgentCall.get_resource_data request) =
      finish found grpc (service.get_resource_data request context)
  handle (AgentCall.get_common_data request) =
      finish found grpc (service.get_common_data request context)
  handle (AgentCall.get_direct_data request) =
      finish found grpc (service.get_direct_data request context)
