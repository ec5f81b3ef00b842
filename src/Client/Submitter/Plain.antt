-- ===== src/Client/Submitter/Plain.antt =====
-- packages/rust/armonik/src/client/submitter.rs: the client of the service, over a stub that is generated code.
use armoni_k_api.Common.{ℤ, String, Bool, List}
use armoni_k_api.Common.Outcome.{map_ok}
use armoni_k_api.Rpc.Calls.{RequestError, Call, then_result}
use armoni_k_api.Server.Submitter.{SubmitterWire}
use armoni_k_api.Client.Submitter.Calls as Calls
use armoni_k_api.Common.HashMap.{HashMap}
use armoni_k_api.Objects.Enums.TaskStatus as StatusCodes
use armoni_k_api.Objects.Enums.ResultStatus as ResultCodes
use armoni_k_api.Objects.TaskOptions.{TaskOptions}
use armoni_k_api.Objects.Count.{Count}
use armoni_k_api.Objects.Submitter.TaskFilter.{TaskFilter}
use armoni_k_api.Objects.Submitter.SessionFilter.{SessionFilter}
use armoni_k_api.Objects.Submitter.Sessions.{CreateReply, Configuration, SessionIds}
use armoni_k_api.Objects.Submitter.Wait.{Availability}
use armoni_k_api.Objects.Submitter.TaskStatuses.{TaskStatuses}
use armoni_k_api.Objects.Submitter.ResultStatuses.{ResultStatuses}
use armoni_k_api.Client.Submitter.{Done, done}

module _ {S : Type 0} (stub : SubmitterWire S) where
  unfoldable pub get_service_configuration : Call S RequestError Configuration
  get_service_configuration = Calls.get_service_configuration stub tt

  unfoldable pub create_session : List String → TaskOptions → Call S RequestError String
  create_session partitions default_task_options =
      then_result (map_ok (λ (r : CreateReply). r.session_id)) (
        Calls.create_session stub
          (record { default_task_options = default_task_options; partition_ids = partitions }))

  unfoldable pub cancel_session : String → Call S RequestError Done
  cancel_session session_id =
      then_result (map_ok (λ (r : (Unit {0})). done))
        (Calls.cancel_session stub (record { session_id = session_id }))

  unfoldable pub list_sessions : SessionFilter → Call S RequestError (List String)
  list_sessions filter =
      then_result (map_ok (λ (r : SessionIds). r.session_ids))
        (Calls.list_sessions stub (record { filter = filter }))

  unfoldable pub count_tasks : TaskFilter → Call S RequestError (HashMap StatusCodes.TaskStatus ℤ)
  count_tasks filter =
      then_result (map_ok (λ (r : Count). r.values))
        (Calls.count_tasks stub (record { filter = filter }))

  unfoldable pub wait_for_availability : String → String → Call S RequestError Availability
  wait_for_availability session_id result_id =
      Calls.wait_for_availability stub (record { session_id = session_id; result_id = result_id })

  unfoldable pub wait_for_completion :
      TaskFilter → Bool → Bool → Call S RequestError (HashMap StatusCodes.TaskStatus ℤ)
  wait_for_completion filter stop_on_first_task_error stop_on_first_task_cancellation =
      then_result (map_ok (λ (r : Count). r.values)) (
        Calls.wait_for_completion stub (record {
          filter = filter;
          stop_on_first_task_error = stop_on_first_task_error;
          stop_on_first_task_cancellation = stop_on_first_task_cancellation;
        }))

  unfoldable pub task_status :
      List String → Call S RequestError (HashMap String StatusCodes.TaskStatus)
  task_status task_ids =
      then_result (map_ok (λ (r : TaskStatuses). r.statuses))
        (Calls.task_status stub (record { task_ids = task_ids }))

  unfoldable pub result_status :
      String → List String → Call S RequestError (HashMap String ResultCodes.ResultStatus)
  result_status session_id result_ids =
      then_result (map_ok (λ (r : ResultStatuses). r.statuses))
        (Calls.result_status stub (record { session_id = session_id; result_ids = result_ids }))
