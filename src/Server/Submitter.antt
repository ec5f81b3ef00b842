-- ===== src/Server/Submitter.antt =====
-- packages/rust/armonik/src/server/submitter.rs: the trait of the handlers, and the server that is made of them.
use armoni_k_api.Rpc.Calls.{Status, Call, unimplemented}
use armoni_k_api.Rpc.Unary.{unary}
use armoni_k_api.Common.HashMap.{Iteration}
use armoni_k_api.Common.{List}
use armoni_k_api.Common.Outcome.{Result, err}
use armoni_k_api.Objects.Submitter.CreateTasks.{
  LargeRequest, V3LargeRequest, large_from, SmallRequest, V3SmallRequest, Response, V3Response,
  small_from, response_into,
}
use armoni_k_api.Objects.Submitter.TryGetResult.{
  V3ResultRequest, result_request_from, V3ResultReply, reply_into, ResultRequest, ResultReply,
}
use armoni_k_api.Rpc.Streams.{stream_client, stream_server}
use armoni_k_api.Objects.DataChunk.{Output, V3Output, output_into}
use armoni_k_api.Objects.Count.{Count, V3Count, count_into}
use armoni_k_api.Objects.Submitter.TaskFilter.{V3TaskFilter}
use armoni_k_api.Objects.Submitter.SessionFilter.{V3SessionFilter}
use armoni_k_api.Objects.Submitter.Sessions.{
  CreateRequest, V3CreateRequest, CreateReply, V3CreateReply, CancelRequest, V3CancelRequest,
  Configuration, V3Configuration, SessionsRequest, SessionIds, V3SessionIds, create_request_from,
  create_reply_into, cancel_request_from, configuration_into, sessions_request_from,
  session_ids_into,
}
use armoni_k_api.Objects.Submitter.Wait.{
  CompletionRequest, V3CompletionRequest, AvailabilityRequest, V3AvailabilityRequest, Availability,
  V3Availability, completion_request_from, availability_request_from, availability_into,
}
use armoni_k_api.Objects.Submitter.TaskStatuses.{
  TaskStatusRequest, V3TaskStatusRequest, TaskStatuses, V3TaskStatuses, task_status_request_from,
  task_statuses_into,
}
use armoni_k_api.Objects.Submitter.ResultStatuses.{
  ResultStatusRequest, V3ResultStatusRequest, ResultStatuses, V3ResultStatuses,
  result_status_request_from, result_statuses_into,
}
use armoni_k_api.Client.Submitter.{TaskOutputRequest, V3TaskOutputRequest, output_request_from}
use armoni_k_api.Client.Submitter.Filtered.{
  FilterRequest, TaskIds, V3TaskIdList, filter_request_from, ids_reply_into,
}

-- The calls of the generated service, of its client as of its server.
pub record SubmitterWire (S : Type 0) : Type 0 where
  pub get_service_configuration : (Unit {0}) → Call S Status V3Configuration
  pub create_session : V3CreateRequest → Call S Status V3CreateReply
  pub cancel_session : V3CancelRequest → Call S Status ((Unit {0}))
  pub create_small_tasks : V3SmallRequest → Call S Status V3Response
  pub list_tasks : V3TaskFilter → Call S Status V3TaskIdList
  pub list_sessions : V3SessionFilter → Call S Status V3SessionIds
  pub count_tasks : V3TaskFilter → Call S Status V3Count
  pub try_get_task_output : V3TaskOutputRequest → Call S Status V3Output
  pub wait_for_availability : V3AvailabilityRequest → Call S Status V3Availability
  pub wait_for_completion : V3CompletionRequest → Call S Status V3Count
  pub cancel_tasks : V3TaskFilter → Call S Status ((Unit {0}))
  pub get_task_status : V3TaskStatusRequest → Call S Status V3TaskStatuses
  pub get_result_status : V3ResultStatusRequest → Call S Status V3ResultStatuses
  -- The stream of the large tasks as it arrives.
  pub create_large_tasks : List (Result V3LargeRequest Status) → Call S Status V3Response
  pub try_get_result_stream : V3ResultRequest → Call S Status (List (Result V3ResultReply Status))

-- The trait of the handlers.
pub record SubmitterService (S Context : Type 0) : Type 0 where
  pub get_service_configuration : (Unit {0}) → Context → Call S Status Configuration
  pub create_session : CreateRequest → Context → Call S Status CreateReply
  pub cancel_session : CancelRequest → Context → Call S Status ((Unit {0}))
  pub create_small_tasks : SmallRequest → Context → Call S Status Response
  pub list_tasks : FilterRequest → Context → Call S Status TaskIds
  pub list_sessions : SessionsRequest → Context → Call S Status SessionIds
  pub count_tasks : FilterRequest → Context → Call S Status Count
  pub try_get_task_output : TaskOutputRequest → Context → Call S Status Output
  pub wait_for_availability : AvailabilityRequest → Context → Call S Status Availability
  pub wait_for_completion : CompletionRequest → Context → Call S Status Count
  pub cancel_tasks : FilterRequest → Context → Call S Status ((Unit {0}))
  pub task_status : TaskStatusRequest → Context → Call S Status TaskStatuses
  pub result_status : ResultStatusRequest → Context → Call S Status ResultStatuses
  pub try_get_result : ResultRequest → Context → Call S Status (List (Result ResultReply Status))
  pub create_large_tasks : List (Result LargeRequest Status) → Context → Call S Status Response

-- The server of the handlers, for calls that come with the given context.
unfoldable pub serve :
    Iteration → {S Context : Type 0} → SubmitterService S Context → Context → SubmitterWire S
serve it service context = record {
  get_service_configuration =
      λ w. unary (λ u. u) configuration_into service.get_service_configuration w context;
  create_session =
      λ w. unary create_request_from create_reply_into service.create_session w context;
  cancel_session = λ w. unary cancel_request_from (λ u. u) service.cancel_session w context;
  create_small_tasks = λ w. unary small_from response_into service.create_small_tasks w context;
  list_tasks = λ w. unary filter_request_from ids_reply_into service.list_tasks w context;
  list_sessions = λ w. unary sessions_request_from session_ids_into service.list_sessions w context;
  count_tasks = λ w. unary filter_request_from (count_into it) service.count_tasks w context;
  try_get_task_output =
      λ w. unary output_request_from output_into service.try_get_task_output w context;
  wait_for_availability = λ w.
      unary availability_request_from availability_into service.wait_for_availability w context;
  wait_for_completion =
      λ w. unary completion_request_from (count_into it) service.wait_for_completion w context;
  cancel_tasks = λ w. unary filter_request_from (λ u. u) service.cancel_tasks w context;
  get_task_status =
      λ w. unary task_status_request_from (task_statuses_into it) service.task_status w context;
  get_result_status = λ w.
      unary result_status_request_from (result_statuses_into it) service.result_status w context;
  create_large_tasks = λ requests.
      stream_client large_from response_into service.create_large_tasks requests context;
  try_get_result_stream =
      λ w. stream_server result_request_from reply_into service.try_get_result w context;
}

-- The call that no service implements, whatever its request.
unfoldable pub watch_results : {S Req Resp : Type 0} → Req → Call S Status Resp
watch_results _ s = (
  err (record { code = unimplemented; message = "Submitter::WatchResults is not implemented" }),
  s,
)
