-- ===== src/Client/Submitter/Asked.antt =====
-- The calls of packages/rust/armonik/src/client/submitter.rs as data: how the client performs one over a
-- stub, and what the handlers of a service answer to it.
use armoni_k_api.Common.{ℤ, String, Bool, Option, List, map}
use armoni_k_api.Common.Outcome.{Result, map_ok, map_err, ◌>>=◌}
use armoni_k_api.Rpc.Calls.{RequestError, grpc, Call, then_result, finish}
use armoni_k_api.Server.Submitter.{SubmitterWire, SubmitterService}
use armoni_k_api.Client.Submitter.Plain as Client
use armoni_k_api.Common.HashMap.{Iteration, HashMap}
use armoni_k_api.Client.Submitter as Submitter
use armoni_k_api.Client.Submitter.{
  judge_creation, judge_output, TaskOutputRequest, V3TaskOutputRequest, Done, done,
  output_request_into, output_request_from,
}
use armoni_k_api.Client.Submitter.Filtered as Filtered
use armoni_k_api.Client.Submitter.Fetched as Fetched
use armoni_k_api.Client.Submitter.Fetched.{try_get_result-stream_server}
use armoni_k_api.Objects.Enums.TaskStatus as StatusCodes
use armoni_k_api.Objects.Enums.ResultStatus as ResultCodes
use armoni_k_api.Objects.TaskOptions.{TaskOptions}
use armoni_k_api.Objects.Submitter.TaskFilter.{TaskFilter}
use armoni_k_api.Objects.Submitter.SessionFilter.{SessionFilter}
use armoni_k_api.Objects.Submitter.CreateTasks as CreateTasks
use armoni_k_api.Objects.Submitter.CreateTasks.{
  TaskRequest, SmallRequest, V3SmallRequest, Response, V3Response, small_from, response_into,
}
use armoni_k_api.Objects.Submitter.TryGetResult.{ResultReply}
use armoni_k_api.Objects.Submitter.Sessions.{Configuration, sessions_request_read}
use armoni_k_api.Objects.Submitter.Wait.{Availability, completion_request_read}
use armoni_k_api.Client.Submitter.Filtered.{
  FilterRequest, TaskIds, V3TaskIdList, filter_request_into, filter_request_from, ids_reply_into,
  ids_reply_from, filter_request_read, filter_request_back,
}
use armoni_k_api.Objects.Submitter.TaskStatuses.{task_statuses_read}
use armoni_k_api.Objects.Submitter.ResultStatuses.{result_statuses_read}
use armoni_k_api.Objects.Count.{count_read}

-- A call of the client with its arguments, and what it can return.
pub data SubmitterCall : Type 0 where
  get_service_configuration : SubmitterCall
  create_session : List String → TaskOptions → SubmitterCall
  cancel_session : String → SubmitterCall
  create_small_tasks : String → Option TaskOptions → List TaskRequest → SubmitterCall
  list_tasks : TaskFilter → SubmitterCall
  list_sessions : SessionFilter → SubmitterCall
  count_tasks : TaskFilter → SubmitterCall
  try_get_task_output : String → String → SubmitterCall
  wait_for_availability : String → String → SubmitterCall
  wait_for_completion : TaskFilter → Bool → Bool → SubmitterCall
  cancel_tasks : TaskFilter → SubmitterCall
  task_status : List String → SubmitterCall
  result_status : String → List String → SubmitterCall
  try_get_result : String → String → SubmitterCall

pub data SubmitterAnswer : Type 0 where
  configured : Configuration → SubmitterAnswer
  created : String → SubmitterAnswer
  finished : Done → SubmitterAnswer
  submitted : List CreateTasks.Status → SubmitterAnswer
  listed : List String → SubmitterAnswer
  counted : HashMap StatusCodes.TaskStatus ℤ → SubmitterAnswer
  waited : Availability → SubmitterAnswer
  tasks_are : HashMap String StatusCodes.TaskStatus → SubmitterAnswer
  results_are : HashMap String ResultCodes.ResultStatus → SubmitterAnswer
  fetched : List (Result ResultReply RequestError) → SubmitterAnswer

module _ {S : Type 0} (stub : SubmitterWire S) where
  unfoldable pub perform : SubmitterCall → Call S RequestError SubmitterAnswer
  perform SubmitterCall.get_service_configuration =
      then_result (map_ok configured) (Client.get_service_configuration stub)
  perform (SubmitterCall.create_session partitions default_task_options) =
      then_result (map_ok created) (Client.create_session stub partitions default_task_options)
  perform (SubmitterCall.cancel_session session_id) =
      then_result (map_ok finished) (Client.cancel_session stub session_id)
  perform (SubmitterCall.create_small_tasks session_id task_options tasks) =
      then_result (map_ok submitted)
        (Submitter.create_small_tasks stub.create_small_tasks session_id task_options tasks)
  perform (SubmitterCall.list_tasks filter) =
      then_result (map_ok listed) (Filtered.list_tasks stub.list_tasks filter)
  perform (SubmitterCall.list_sessions filter) =
      then_result (map_ok listed) (Client.list_sessions stub filter)
  perform (SubmitterCall.count_tasks filter) =
      then_result (map_ok counted) (Client.count_tasks stub filter)
  perform (SubmitterCall.try_get_task_output session_id task_id) =
      then_result (map_ok finished)
        (Submitter.try_get_task_output stub.try_get_task_output session_id task_id)
  perform (SubmitterCall.wait_for_availability session_id result_id) =
      then_result (map_ok waited) (Client.wait_for_availability stub session_id result_id)
  perform
        (SubmitterCall.wait_for_completion filter stop_on_first_task_error
          stop_on_first_task_cancellation) =
      then_result (map_ok counted) (
        Client.wait_for_completion stub filter stop_on_first_task_error
          stop_on_first_task_cancellation)
  perform (SubmitterCall.cancel_tasks filter) =
      then_result (map_ok finished) (Filtered.cancel_tasks stub.cancel_tasks filter)
  perform (SubmitterCall.task_status task_ids) =
      then_result (map_ok tasks_are) (Client.task_status stub task_ids)
  perform (SubmitterCall.result_status session_id result_ids) =
      then_result (map_ok results_are) (Client.result_status stub session_id result_ids)
  perform (SubmitterCall.try_get_result session_id result_id) =
      then_result (map_ok fetched)
        (Fetched.try_get_result stub.try_get_result_stream session_id result_id)

module _ (it : Iteration) {S Context : Type 0} (service : SubmitterService S Context)
    (context : Context) where
  -- The handler of the call, run once on the arguments, with its error wrapped; a filter on tasks or
  -- sessions is the opposite one.
  unfoldable pub handle : SubmitterCall → Call S RequestError SubmitterAnswer
  handle SubmitterCall.get_service_configuration =
      finish configured grpc (service.get_service_configuration tt context)
  handle (SubmitterCall.create_session partitions default_task_options) =
      finish (λ r. created r.session_id) grpc
        (service.create_session
          (record { default_task_options = default_task_options; partition_ids = partitions })
          context)
  handle (SubmitterCall.cancel_session session_id) =
      finish (λ r. finished done) grpc
        (service.cancel_session (record { session_id = session_id }) context)
  handle (SubmitterCall.create_small_tasks session_id task_options tasks) = λ s.
      let reply =
        service.create_small_tasks
          (record { session_id = session_id; task_options = task_options; task_requests = tasks })
          context s in
      (map_ok submitted (map_err grpc reply.0 >>= judge_creation), reply.1)
  handle (SubmitterCall.list_tasks filter) =
      finish (λ r. listed r.task_ids) grpc
        (service.list_tasks (filter_request_read (record { filter = filter })) context)
  handle (SubmitterCall.list_sessions filter) =
      finish (λ r. listed r.session_ids) grpc
        (service.list_sessions (sessions_request_read (record { filter = filter })) context)
  handle (SubmitterCall.count_tasks filter) =
      finish (λ r. counted (count_read it r).values) grpc
        (service.count_tasks (filter_request_read (record { filter = filter })) context)
  handle (SubmitterCall.try_get_task_output session_id task_id) = λ s.
      let reply =
        service.try_get_task_output (record { session_id = session_id; task_id = task_id }) context
          s in
      (map_ok finished (map_err grpc reply.0 >>= judge_output), reply.1)
  handle (SubmitterCall.wait_for_availability session_id result_id) = finish waited grpc (
      service.wait_for_availability (record { session_id = session_id; result_id = result_id })
        context)
  handle
        (SubmitterCall.wait_for_completion filter stop_on_first_task_error
          stop_on_first_task_cancellation) =
      finish (λ r. counted (count_read it r).values) grpc
        (service.wait_for_completion
          (completion_request_read (record {
            filter = filter;
            stop_on_first_task_error = stop_on_first_task_error;
            stop_on_first_task_cancellation = stop_on_first_task_cancellation;
          }))
          context)
  handle (SubmitterCall.cancel_tasks filter) =
      finish (λ r. finished done) grpc
        (service.cancel_tasks (filter_request_read (record { filter = filter })) context)
  handle (SubmitterCall.task_status task_ids) =
      finish (λ r. tasks_are (task_statuses_read it r).statuses) grpc
        (service.task_status (record { task_ids = task_ids }) context)
  handle (SubmitterCall.result_status session_id result_ids) =
      finish (λ r. results_are (result_statuses_read it r).statuses) grpc
        (service.result_status (record { session_id = session_id; result_ids = result_ids })
          context)
  handle (SubmitterCall.try_get_result session_id result_id) =
      finish (λ items. fetched (map (map_err grpc) items)) grpc
        (service.try_get_result (record { session_id = session_id; result_id = result_id }) context)
