-- ===== src/Client/Submitter/Answered.antt =====
-- The calls of packages/rust/armonik/src/client/submitter.rs against the server of packages/rust/armonik/src/server/submitter.rs.
use armoni_k_api.Common.{◌≡◌, refl, ap, ◌∙◌, map}
use armoni_k_api.Common.Outcome.{map_ok, map_err, ◌>>=◌, map_ok-map_ok}
use armoni_k_api.Rpc.Calls.{grpc}
use armoni_k_api.Rpc.Unary.{call_served, part_served, part_read_served, client_call-unary}
use armoni_k_api.Server.Submitter.{SubmitterService, serve}
use armoni_k_api.Client.Submitter.Plain as Client
use armoni_k_api.Client.Submitter.Calls as Calls
use armoni_k_api.Common.HashMap.{Iteration}
use armoni_k_api.Client.Submitter as Submitter
use armoni_k_api.Client.Submitter.{
  judge_creation, judge_output, TaskOutputRequest, V3TaskOutputRequest, Done, done,
  output_request_into, output_request_from,
}
use armoni_k_api.Client.Submitter.Filtered as Filtered
use armoni_k_api.Client.Submitter.Fetched.{try_get_result-stream_server}
use armoni_k_api.Client.Submitter.Served.{create_small_tasks-unary}
use armoni_k_api.Client.Submitter.Filtered.{
  FilterRequest, TaskIds, V3TaskIdList, filter_request_into, filter_request_from, ids_reply_into,
  ids_reply_from, filter_request_read, filter_request_back,
}
use armoni_k_api.Objects.Submitter.Sessions.{
  create_request_into, create_request_from, create_reply_into, create_reply_from,
  cancel_request_into, cancel_request_from, configuration_into, configuration_from,
  sessions_request_into, sessions_request_from, session_ids_into, session_ids_from,
  create_request_back, create_reply_back, cancel_request_back, configuration_back,
  sessions_request_back, session_ids_back, sessions_request_read,
}
use armoni_k_api.Objects.Submitter.Wait.{
  completion_request_into, completion_request_from, availability_request_into,
  availability_request_from, availability_into, availability_from, completion_request_back,
  availability_request_back, availability_back, completion_request_read,
}
use armoni_k_api.Objects.Submitter.TaskStatuses.{
  task_status_request_into, task_status_request_from, task_statuses_into, task_statuses_from,
  task_status_request_back, task_statuses_back, task_statuses_read,
}
use armoni_k_api.Objects.Submitter.ResultStatuses.{
  result_status_request_into, result_status_request_from, result_statuses_into,
  result_statuses_from, result_status_request_back, result_statuses_back, result_statuses_read,
}
use armoni_k_api.Objects.Count.{count_into, count_from, count_back, count_read}
use armoni_k_api.Objects.DataChunk.{output_into, output_from, output_from-output_into}
use armoni_k_api.Client.Submitter.Asked.{
  SubmitterCall, configured, created, finished, submitted, listed, counted, waited, tasks_are,
  results_are, fetched, perform, handle,
}

module _ (it : Iteration) {S Context : Type 0} (service : SubmitterService S Context)
    (context : Context) where
  -- Every call of the client of the submitter but one with a stream of requests, against a server, runs its
  -- own handler, once, on the arguments that were given, and returns the part of the answer that the
  -- client promises, or the error. Every filter reaches its handler with the opposite statuses, and maps
  -- are collected from their entries again.
  pub perform-serve_submitter :
      (call : SubmitterCall) (s : S)
      → perform (serve it service context) call s ≡ handle it service context call s
  unfolding perform handle serve Client.get_service_configuration Calls.get_service_configuration
      Client.create_session Calls.create_session Client.cancel_session Calls.cancel_session
      Client.list_sessions Calls.list_sessions Client.count_tasks Calls.count_tasks
      Client.wait_for_availability Calls.wait_for_availability Client.wait_for_completion
      Calls.wait_for_completion Client.task_status Calls.task_status Client.result_status
      Calls.result_status Filtered.list_tasks ids_reply_into ids_reply_from
      Submitter.try_get_task_output output_request_into output_request_from Filtered.cancel_tasks
  perform-serve_submitter SubmitterCall.get_service_configuration s =
      call_served (λ u. u) (λ u. u) configuration_into configuration_from (λ _. refl)
        configuration_back configured service.get_service_configuration context tt s
  perform-serve_submitter (SubmitterCall.create_session partitions default_task_options) s =
      part_served create_request_into create_request_from create_reply_into create_reply_from
        create_request_back create_reply_back (λ r. r.session_id) created service.create_session
        context (record { default_task_options = default_task_options; partition_ids = partitions })
        s
  perform-serve_submitter (SubmitterCall.cancel_session session_id) s =
      part_served cancel_request_into cancel_request_from (λ u. u) (λ u. u) cancel_request_back
        (λ _. refl) (λ r. done) finished service.cancel_session context
        (record { session_id = session_id }) s
  perform-serve_submitter (SubmitterCall.create_small_tasks session_id task_options tasks) s =
      ap (λ c. (map_ok submitted c.0, c.1))
        (create_small_tasks-unary context service.create_small_tasks session_id task_options tasks
          s)
  perform-serve_submitter (SubmitterCall.list_tasks filter) s =
      part_read_served filter_request_into filter_request_from ids_reply_into ids_reply_from
        filter_request_read (λ r. r) filter_request_back (λ _. refl) (λ r. r.task_ids) listed
        service.list_tasks context (record { filter = filter }) s
  perform-serve_submitter (SubmitterCall.list_sessions filter) s =
      part_read_served sessions_request_into sessions_request_from session_ids_into session_ids_from
        sessions_request_read (λ r. r) sessions_request_back session_ids_back (λ r. r.session_ids)
        listed service.list_sessions context (record { filter = filter }) s
  perform-serve_submitter (SubmitterCall.count_tasks filter) s =
      part_read_served filter_request_into filter_request_from (count_into it) count_from
        filter_request_read (count_read it) filter_request_back (count_back it) (λ r. r.values)
        counted service.count_tasks context (record { filter = filter }) s
  perform-serve_submitter (SubmitterCall.try_get_task_output session_id task_id) s =
      ap (λ c. (map_ok finished (c.0 >>= judge_output), c.1))
        (client_call-unary output_request_into output_request_from output_into output_from
          (λ _. refl) output_from-output_into service.try_get_task_output context
          (record { session_id = session_id; task_id = task_id }) s)
  perform-serve_submitter (SubmitterCall.wait_for_availability session_id result_id) s =
      call_served availability_request_into availability_request_from availability_into
        availability_from availability_request_back availability_back waited
        service.wait_for_availability context
        (record { session_id = session_id; result_id = result_id }) s
  perform-serve_submitter
        (SubmitterCall.wait_for_completion filter stop_on_first_task_error
          stop_on_first_task_cancellation)
        s =
      part_read_served completion_request_into completion_request_from (count_into it) count_from
        completion_request_read (count_read it) completion_request_back (count_back it)
        (λ r. r.values) counted service.wait_for_completion context
        (record {
          filter = filter;
          stop_on_first_task_error = stop_on_first_task_error;
          stop_on_first_task_cancellation = stop_on_first_task_cancellation;
        })
        s
  perform-serve_submitter (SubmitterCall.cancel_tasks filter) s =
      part_read_served filter_request_into filter_request_from (λ u. u) (λ u. u) filter_request_read
        (λ r. r) filter_request_back (λ _. refl) (λ r. done) finished service.cancel_tasks context
        (record { filter = filter }) s
  perform-serve_submitter (SubmitterCall.task_status task_ids) s =
      part_read_served task_status_request_into task_status_request_from (task_statuses_into it)
        task_statuses_from (λ r. r) (task_statuses_read it) task_status_request_back
        (task_statuses_back it) (λ r. r.statuses) tasks_are service.task_status context
        (record { task_ids = task_ids }) s
  perform-serve_submitter (SubmitterCall.result_status session_id result_ids) s =
      part_read_served result_status_request_into result_status_request_from
        (result_statuses_into it) result_statuses_from (λ r. r) (result_statuses_read it)
        result_status_request_back (result_statuses_back it) (λ r. r.statuses) results_are
        service.result_status context (record { session_id = session_id; result_ids = result_ids })
        s
  perform-serve_submitter (SubmitterCall.try_get_result session_id result_id) s =
      let reply =
        service.try_get_result (record { session_id = session_id; result_id = result_id }) context
          s in
      ap (λ c. (map_ok fetched c.0, c.1))
        (try_get_result-stream_server context service.try_get_result session_id result_id s)
      ∙ ap (λ r. (r, reply.1)) (map_ok-map_ok fetched (map (map_err grpc)) (map_err grpc reply.0))
