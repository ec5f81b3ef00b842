-- ===== src/Objects/Tests.antt =====
-- The theorems on messages at concrete values.
use armoni_k_api.Common.{
  ℤ, pos, negsuc, ◌==◌, ◌≡◌, ◌≢◌, ◌↔◌, refl, sym, ap, ◌∙◌, Bool, true, false, not, none, [], ◌∷◌,
}
use armoni_k_api.Objects.Enums.TaskStatus as TaskCodes
use armoni_k_api.Objects.Enums.TaskStatus.{TaskStatus}
use armoni_k_api.Objects.Enums.SessionStatus as SessionCodes
use armoni_k_api.Objects.Enums.SessionStatus.{SessionStatus}
use armoni_k_api.Objects.Enums.ResultStatus as ResultCodes
use armoni_k_api.Objects.Enums.ResultStatus.{ResultStatus}
use armoni_k_api.Objects.Enums.Statuses.{statuses_back}
use armoni_k_api.Objects.DataChunk
use armoni_k_api.Objects.TaskOptions.{TaskOptions, default_task_options, options_eq}
use armoni_k_api.Objects.TaskOptions.Equality.{options_eq_iff}
use armoni_k_api.Objects.Submitter.TaskFilter
use armoni_k_api.Objects.Submitter.TaskFilter.Inverted.{
  v3_selects-statuses_into, filter_from-filter_into,
}
use armoni_k_api.Objects.Submitter.SessionFilter
use armoni_k_api.Objects.Submitter.SessionFilter.Inverted.{session_statuses_inverted}
use armoni_k_api.Objects.Submitter.CreateTasks as Large
use armoni_k_api.Objects.Agent.CreateTasks
use armoni_k_api.Objects.Agent.NotifyResultData as Notify
use armoni_k_api.Objects.Enums.FilterNumberOperator.{greater_than}
use armoni_k_api.Objects.Enums.SortDirection.{asc}
use armoni_k_api.Objects.Filters.Formula.{FieldFilter}
use armoni_k_api.Objects.Results.Field.{Field}
use armoni_k_api.Objects.Results.Filter.{ResultCondition, number}
use armoni_k_api.Objects.Results.ListResults.{ListRequest}
use armoni_k_api.Objects.Tasks.Summary

abbrev completed_only : TaskFilter.TaskFilterStatuses
completed_only = TaskFilter.include (TaskStatus.completed ∷ [])

v3_selects-statuses_into_example :
    TaskFilter.v3_selects (TaskFilter.statuses_into completed_only) TaskStatus.completed
    ≡ not (TaskFilter.selects completed_only TaskStatus.completed)
v3_selects-statuses_into_example = v3_selects-statuses_into completed_only TaskStatus.completed

abbrev task_filter : TaskFilter.TaskFilter
task_filter = record { ids = TaskFilter.sessions ("session" ∷ []); statuses = completed_only }

filter_from-filter_into_example :
    TaskFilter.filter_from (TaskFilter.filter_into task_filter)
    ≡ record task_filter { statuses = TaskFilter.opposite completed_only }
filter_from-filter_into_example = filter_from-filter_into task_filter

abbrev not_running : SessionFilter.SessionFilterStatuses
not_running = SessionFilter.exclude (SessionStatus.running ∷ [])

session_statuses_inverted_example :
    SessionFilter.v3_selects (SessionFilter.statuses_into not_running) SessionStatus.running
    ≡ not (SessionFilter.selects not_running SessionStatus.running)
session_statuses_inverted_example = session_statuses_inverted not_running SessionStatus.running

abbrev other_options : TaskOptions
other_options = record default_task_options { options = ("key", "value") ∷ [] }

options_eq_iff_example :
    (options_eq default_task_options other_options ≡ true)
    ↔ (record default_task_options { options = other_options.options } ≡ other_options)
options_eq_iff_example = options_eq_iff default_task_options other_options

abbrev request : CreateTasks.Request
request = CreateTasks.data_chunk "token" (DataChunk.DataChunk.chunk (1 ∷ 2 ∷ []))

abbrev response : CreateTasks.Response
response = CreateTasks.statuses "token" (CreateTasks.Status.error "no quota" ∷ [])

response_from-response_into_example :
    CreateTasks.response_from (CreateTasks.response_into response) ≡ response
response_from-response_into_example = CreateTasks.response_from-response_into response

abbrev large : Large.LargeRequest
large = Large.data_chunk DataChunk.complete

abbrev result_a : Notify.ResultIdentifier
result_a = record { session_id = "s"; result_id = "a" }

abbrev result_b : Notify.ResultIdentifier
result_b = record { session_id = "other"; result_id = "b" }

request_from_first_example :
    Notify.request_from (record { ids = result_a ∷ result_b ∷ []; communication_token = "token" })
    ≡ record { communication_token = "token"; session_id = "s"; result_ids = "a" ∷ "b" ∷ [] }
request_from_first_example = Notify.request_from_first "token" result_a (result_b ∷ [])

abbrev notification : Notify.Request
notification = record {
  communication_token = "token";
  session_id = "s";
  result_ids = "a" ∷ "b" ∷ [];
}

request_back_example :
    Notify.request_from (Notify.request_into notification)
    ≡ record notification { session_id = "s" }
request_back_example = Notify.request_back notification

abbrev summary : Summary.Summary
summary = record {
  task_id = "task";
  session_id = "session";
  owner_pod_id = "pod";
  initial_task_id = "task";
  count_parent_task_ids = pos 1;
  count_data_dependencies = pos 2;
  count_expected_output_ids = pos 1;
  count_retry_of_ids = pos 0;
  status = TaskStatus.error;
  status_message = "failed";
  options = default_task_options;
  created_at = none;
  submitted_at = none;
  received_at = none;
  acquired_at = none;
  fetched_at = none;
  started_at = none;
  processed_at = none;
  ended_at = none;
  creation_to_end_duration = none;
  processing_to_end_duration = none;
  received_to_end_duration = none;
  pod_ttl = none;
  output = Summary.Output.error "";
  pod_hostname = "host";
  payload_id = "payload";
  created_by = "";
}

summary_from-summary_into_example :
    Summary.summary_from (Summary.summary_into summary)
    ≡ record summary { output = Summary.Output.success }
summary_from-summary_into_example = Summary.summary_from-summary_into summary

statuses_back_example :
    (TaskCodes.as_i32 TaskStatus.paused ≡ TaskCodes.v3_as_i32 (TaskCodes.into_v3 TaskStatus.paused))
    × (TaskCodes.from_i32 (TaskCodes.as_i32 TaskStatus.paused) ≡ TaskStatus.paused)
    × (SessionCodes.as_i32 SessionStatus.purged
        ≡ SessionCodes.v3_as_i32 (SessionCodes.into_v3 SessionStatus.purged))
    × (SessionCodes.from_i32 (SessionCodes.as_i32 SessionStatus.purged) ≡ SessionStatus.purged)
    × (ResultCodes.as_i32 ResultStatus.not_found
        ≡ ResultCodes.v3_as_i32 (ResultCodes.into_v3 ResultStatus.not_found))
    × (ResultCodes.from_i32 (ResultCodes.as_i32 ResultStatus.not_found) ≡ ResultStatus.not_found)
statuses_back_example = statuses_back TaskStatus.paused SessionStatus.purged ResultStatus.not_found

-- The number 99 is no code.
abbrev is_99 : ℤ → Bool
is_99 (pos n) = n == 99
is_99 (negsuc n) = false

no_task : (t : TaskStatus) → is_99 (TaskCodes.as_i32 t) ≡ false
unfolding TaskCodes.as_i32
no_task TaskStatus.unspecified = refl
no_task _ = refl

no_session : (s : SessionStatus) → is_99 (SessionCodes.as_i32 s) ≡ false
unfolding SessionCodes.as_i32
no_session SessionStatus.unspecified = refl
no_session _ = refl

no_result : (r : ResultStatus) → is_99 (ResultCodes.as_i32 r) ≡ false
unfolding ResultCodes.as_i32
no_result ResultStatus.unspecified = refl
no_result _ = refl

not_99 : (v : ℤ) → is_99 v ≡ false → v ≢ pos 99
not_99 v h e = let contrary : true ≡ false = sym (ap is_99 e) ∙ h in cc

abbrev big : FieldFilter Field ResultCondition
big = record {
  field = Field.size;
  condition = number (record { value = pos 9; operator = greater_than });
}

abbrev page : ListRequest
page = record {
  page = pos 1;
  page_size = pos 50;
  filters = record { disjuncts = record { conjuncts = big ∷ [] } ∷ [] };
  sort = record { field = Field.name; direction = asc };
}
