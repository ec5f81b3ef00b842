-- ===== src/Objects/Tasks/Summary.antt =====
-- packages/rust/armonik/src/objects/tasks/summary.rs and output.rs: the summary of a task.
use armoni_k_api.Common.{
  ℤ, String, ◌≡◌, refl, Bool, true, false, Option, some, map_or, if◌then◌else◌,
}
use armoni_k_api.Common.Text.{is_empty}
use armoni_k_api.Objects.Enums.TaskStatus.{TaskStatus, as_i32, from_i32, coded}
use armoni_k_api.Objects.TaskOptions.{
  ProtoDuration, TaskOptions, V3TaskOptions, default_task_options, options_into, options_from,
}

-- `prost_types::Timestamp`
pub record Timestamp : Type 0 where
  pub seconds : ℤ
  pub nanos : ℤ

pub data Output : Type 0 where
  success : Output
  error : String → Output

-- `v3::tasks::task_detailed::Output`
pub record V3Output : Type 0 where
  pub success : Bool
  pub error : String

unfoldable pub output_into : Output → V3Output
output_into Output.success = record { success = true; error = "" }
output_into (Output.error message) = record { success = false; error = message }

unfoldable pub output_from : V3Output → Output
output_from w = if w.success then Output.success else Output.error w.error

pub output_from-output_into : (o : Output) → output_from (output_into o) ≡ o
unfolding output_from output_into
output_from-output_into Output.success = refl
output_from-output_into (Output.error message) = refl

pub record Summary : Type 0 where
  pub task_id : String
  pub session_id : String
  pub owner_pod_id : String
  pub initial_task_id : String
  pub count_parent_task_ids : ℤ
  pub count_data_dependencies : ℤ
  pub count_expected_output_ids : ℤ
  pub count_retry_of_ids : ℤ
  pub status : TaskStatus
  pub status_message : String
  pub options : TaskOptions
  pub created_at : Option Timestamp
  pub submitted_at : Option Timestamp
  pub received_at : Option Timestamp
  pub acquired_at : Option Timestamp
  pub fetched_at : Option Timestamp
  pub started_at : Option Timestamp
  pub processed_at : Option Timestamp
  pub ended_at : Option Timestamp
  pub creation_to_end_duration : Option ProtoDuration
  pub processing_to_end_duration : Option ProtoDuration
  pub received_to_end_duration : Option ProtoDuration
  pub pod_ttl : Option Timestamp
  pub output : Output
  pub pod_hostname : String
  pub payload_id : String
  pub created_by : String

-- `v3::tasks::TaskSummary`
pub record V3TaskSummary : Type 0 where
  pub id : String
  pub session_id : String
  pub owner_pod_id : String
  pub initial_task_id : String
  pub count_parent_task_ids : ℤ
  pub count_data_dependencies : ℤ
  pub count_expected_output_ids : ℤ
  pub count_retry_of_ids : ℤ
  pub status : ℤ
  pub status_message : String
  pub options : Option V3TaskOptions
  pub created_at : Option Timestamp
  pub submitted_at : Option Timestamp
  pub received_at : Option Timestamp
  pub acquired_at : Option Timestamp
  pub fetched_at : Option Timestamp
  pub started_at : Option Timestamp
  pub processed_at : Option Timestamp
  pub ended_at : Option Timestamp
  pub creation_to_end_duration : Option ProtoDuration
  pub processing_to_end_duration : Option ProtoDuration
  pub received_to_end_duration : Option ProtoDuration
  pub pod_ttl : Option Timestamp
  pub error : String
  pub pod_hostname : String
  pub payload_id : String
  pub created_by : String

-- The output of a summary is its error text alone, empty for a success.
error_of : Output → String
error_of Output.success = ""
error_of (Output.error message) = message

output_of : String → Output
output_of message = if is_empty message then Output.success else Output.error message

unfoldable pub summary_into : Summary → V3TaskSummary
unfolding error_of
summary_into value = record {
  id = value.task_id;
  session_id = value.session_id;
  owner_pod_id = value.owner_pod_id;
  initial_task_id = value.initial_task_id;
  count_parent_task_ids = value.count_parent_task_ids;
  count_data_dependencies = value.count_data_dependencies;
  count_expected_output_ids = value.count_expected_output_ids;
  count_retry_of_ids = value.count_retry_of_ids;
  status = as_i32 value.status;
  status_message = value.status_message;
  options = some (options_into value.options);
  created_at = value.created_at;
  submitted_at = value.submitted_at;
  received_at = value.received_at;
  acquired_at = value.acquired_at;
  fetched_at = value.fetched_at;
  started_at = value.started_at;
  processed_at = value.processed_at;
  ended_at = value.ended_at;
  creation_to_end_duration = value.creation_to_end_duration;
  processing_to_end_duration = value.processing_to_end_duration;
  received_to_end_duration = value.received_to_end_duration;
  pod_ttl = value.pod_ttl;
  error = error_of value.output;
  pod_hostname = value.pod_hostname;
  payload_id = value.payload_id;
  created_by = value.created_by;
}

unfoldable pub summary_from : V3TaskSummary → Summary
unfolding output_of
summary_from value = record {
  task_id = value.id;
  session_id = value.session_id;
  owner_pod_id = value.owner_pod_id;
  initial_task_id = value.initial_task_id;
  count_parent_task_ids = value.count_parent_task_ids;
  count_data_dependencies = value.count_data_dependencies;
  count_expected_output_ids = value.count_expected_output_ids;
  count_retry_of_ids = value.count_retry_of_ids;
  status = from_i32 value.status;
  status_message = value.status_message;
  options = map_or default_task_options options_from value.options;
  created_at = value.created_at;
  submitted_at = value.submitted_at;
  received_at = value.received_at;
  acquired_at = value.acquired_at;
  fetched_at = value.fetched_at;
  started_at = value.started_at;
  processed_at = value.processed_at;
  ended_at = value.ended_at;
  creation_to_end_duration = value.creation_to_end_duration;
  processing_to_end_duration = value.processing_to_end_duration;
  received_to_end_duration = value.received_to_end_duration;
  pod_ttl = value.pod_ttl;
  output = output_of value.error;
  pod_hostname = value.pod_hostname;
  payload_id = value.payload_id;
  created_by = value.created_by;
}

-- What a summary's output is read back as: an error with an empty message looks like a success.
abbrev pub output_kept : Output → Output
output_kept Output.success = Output.success
output_kept (Output.error message) =
    if is_empty message then Output.success else Output.error message

output_of-error_of : (o : Output) → output_of (error_of o) ≡ output_kept o
unfolding output_of error_of
output_of-error_of Output.success = refl
output_of-error_of (Output.error message) = refl

-- A summary is read back from its message with every field as it was, but for an error with an empty
-- message, which is read back as a success.
pub summary_from-summary_into :
    (s : Summary) → summary_from (summary_into s) ≡ record s { output = output_kept s.output }
unfolding summary_from summary_into options_from options_into
summary_from-summary_into s = λ i. record {
  task_id = s.task_id;
  session_id = s.session_id;
  owner_pod_id = s.owner_pod_id;
  initial_task_id = s.initial_task_id;
  count_parent_task_ids = s.count_parent_task_ids;
  count_data_dependencies = s.count_data_dependencies;
  count_expected_output_ids = s.count_expected_output_ids;
  count_retry_of_ids = s.count_retry_of_ids;
  status = coded.known s.status i;
  status_message = s.status_message;
  options = s.options;
  created_at = s.created_at;
  submitted_at = s.submitted_at;
  received_at = s.received_at;
  acquired_at = s.acquired_at;
  fetched_at = s.fetched_at;
  started_at = s.started_at;
  processed_at = s.processed_at;
  ended_at = s.ended_at;
  creation_to_end_duration = s.creation_to_end_duration;
  processing_to_end_duration = s.processing_to_end_duration;
  received_to_end_duration = s.received_to_end_duration;
  pod_ttl = s.pod_ttl;
  output = output_of-error_of s.output i;
  pod_hostname = s.pod_hostname;
  payload_id = s.payload_id;
  created_by = s.created_by;
}
