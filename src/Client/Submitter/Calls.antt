-- ===== src/Client/Submitter/Calls.antt =====
-- packages/rust/armonik/src/client/submitter.rs: the bodies of `impl_call!`, which send a request as it is.
use armoni_k_api.Rpc.Calls.{RequestError, Call}
use armoni_k_api.Rpc.Unary.{client_call}
use armoni_k_api.Server.Submitter.{SubmitterWire}
use armoni_k_api.Objects.Count.{Count, count_from}
use armoni_k_api.Objects.Submitter.Sessions.{
  CreateRequest, CreateReply, CancelRequest, Configuration, SessionsRequest, SessionIds,
  create_request_into, create_reply_from, cancel_request_into, configuration_from,
  sessions_request_into, session_ids_from,
}
use armoni_k_api.Objects.Submitter.Wait.{
  CompletionRequest, AvailabilityRequest, Availability, completion_request_into,
  availability_request_into, availability_from,
}
use armoni_k_api.Objects.Submitter.TaskStatuses.{
  TaskStatusRequest, TaskStatuses, task_status_request_into, task_statuses_from,
}
use armoni_k_api.Objects.Submitter.ResultStatuses.{
  ResultStatusRequest, ResultStatuses, result_status_request_into, result_statuses_from,
}
use armoni_k_api.Client.Submitter.Filtered.{FilterRequest, filter_request_into}

module _ {S : Type 0} (stub : SubmitterWire S) where
  unfoldable pub get_service_configuration : (Unit {0}) → Call S RequestError Configuration
  get_service_configuration = client_call (λ u. u) configuration_from stub.get_service_configuration

  unfoldable pub create_session : CreateRequest → Call S RequestError CreateReply
  create_session = client_call create_request_into create_reply_from stub.create_session

  unfoldable pub cancel_session : CancelRequest → Call S RequestError ((Unit {0}))
  cancel_session = client_call cancel_request_into (λ u. u) stub.cancel_session

  unfoldable pub list_sessions : SessionsRequest → Call S RequestError SessionIds
  list_sessions = client_call sessions_request_into session_ids_from stub.list_sessions

  unfoldable pub count_tasks : FilterRequest → Call S RequestError Count
  count_tasks = client_call filter_request_into count_from stub.count_tasks

  unfoldable pub wait_for_availability : AvailabilityRequest → Call S RequestError Availability
  wait_for_availability =
      client_call availability_request_into availability_from stub.wait_for_availability

  unfoldable pub wait_for_completion : CompletionRequest → Call S RequestError Count
  wait_for_completion = client_call completion_request_into count_from stub.wait_for_completion

  unfoldable pub task_status : TaskStatusRequest → Call S RequestError TaskStatuses
  task_status = client_call task_status_request_into task_statuses_from stub.get_task_status

  unfoldable pub result_status : ResultStatusRequest → Call S RequestError ResultStatuses
  result_status = client_call result_status_request_into result_statuses_from stub.get_result_status
