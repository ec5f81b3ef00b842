-- ===== src/Objects/Tasks/Raw.antt =====
-- packages/rust/armonik/src/objects/tasks/raw.rs: a task with all its details.
use armoni_k_api.Common.{ℤ, String, ◌≡◌, Option, none, List, []}
use armoni_k_api.Objects.Convert.{to_option, from_option}
use armoni_k_api.Objects.Enums.TaskStatus as StatusCodes
use armoni_k_api.Objects.TaskOptions.{
  ProtoDuration, TaskOptions, V3TaskOptions, default_task_options, options_into, options_from,
  options_from-options_into,
}
use armoni_k_api.Objects.Tasks.Summary.{
  Timestamp, Output, V3Output, output_into, output_from, output_from-output_into,
}

pub record Raw : Type 0 where
  pub task_id : String
  pub session_id : String
  pub owner_pod_id : String
  pub initial_task_id : String
  pub parent_task_ids : List String
  pub data_dependencies : List String
  pub expected_output_ids : List String
  pub retry_of_ids : List String
  pub status : StatusCodes.TaskStatus
  pub status_message : String
  pub options : TaskOptions
  pub created_at : Option Timestamp
  pub submitted_at : Option Timestamp
  pub received_at : Option Timestamp
  pub acquired_at : Option Timestamp
  pub fetched_at : Option Timestamp
  pub started_at : Option Timestamp
  pub processed_at : Option Timestamp
  pub ended_at : Option Timestamp
  pub creation_to_end_duration : Option ProtoDuration
  pub processing_to_end_duration : Option ProtoDuration
  pub received_to_end_duration : Option ProtoDuration
  pub pod_ttl : Option Timestamp
  pub output : Output
  pub pod_hostname : String
  pub payload_id : String
  pub created_by : String

pub record V3TaskDetailed : Type 0 where
  pub id : String
  pub session_id : String
  pub owner_pod_id : String
  pub initial_task_id : String
  pub parent_task_ids : List String
  pub data_dependencies : List String
  pub expected_output_ids : List String
  pub retry_of_ids : List String
  pub status : ℤ
  pub status_message : String
  pub options : Option V3TaskOptions
  pub created_at : Option Timestamp
  pub submitted_at : Option Timestamp
  pub received_at : Option Timestamp
  pub acquired_at : Option Timestamp
  pub fetched_at : Option Timestamp
  pub started_at : Option Timestamp
  pub processed_at : Option Timestamp
  pub ended_at : Option Timestamp
  pub creation_to_end_duration : Option ProtoDuration
  pub processing_to_end_duration : Option ProtoDuration
  pub received_to_end_duration : Option ProtoDuration
  pub pod_ttl : Option Timestamp
  pub output : Option V3Output
  pub pod_hostname : String
  pub payload_id : String
  pub created_by : String

abbrev pub default_raw : Raw
default_raw = record {
  task_id = "";
  session_id = "";
  owner_pod_id = "";
  initial_task_id = "";
  parent_task_ids = [];
  data_dependencies = [];
  expected_output_ids = [];
  retry_of_ids = [];
  status = StatusCodes.default;
  status_message = "";
  options = default_task_options;
  created_at = none;
  submitted_at = none;
  received_at = none;
  acquired_at = none;
  fetched_at = none;
  started_at = none;
  processed_at = none;
  ended_at = none;
  creation_to_end_duration = none;
  processing_to_end_duration = none;
  received_to_end_duration = none;
  pod_ttl = none;
  output = Output.success;
  pod_hostname = "";
  payload_id = "";
  created_by = "";
}

unfoldable pub raw_into : Raw → V3TaskDetailed
raw_into r = record {
  id = r.task_id;
  session_id = r.session_id;
  owner_pod_id = r.owner_pod_id;
  initial_task_id = r.initial_task_id;
  parent_task_ids = r.parent_task_ids;
  data_dependencies = r.data_dependencies;
  expected_output_ids = r.expected_output_ids;
  retry_of_ids = r.retry_of_ids;
  status = StatusCodes.as_i32 r.status;
  status_message = r.status_message;
  options = to_option options_into r.options;
  created_at = r.created_at;
  submitted_at = r.submitted_at;
  received_at = r.received_at;
  acquired_at = r.acquired_at;
  fetched_at = r.fetched_at;
  started_at = r.started_at;
  processed_at = r.processed_at;
  ended_at = r.ended_at;
  creation_to_end_duration = r.creation_to_end_duration;
  processing_to_end_duration = r.processing_to_end_duration;
  received_to_end_duration = r.received_to_end_duration;
  pod_ttl = r.pod_ttl;
  output = to_option output_into r.output;
  pod_hostname = r.pod_hostname;
  payload_id = r.payload_id;
  created_by = r.created_by;
}

unfoldable pub raw_from : V3TaskDetailed → Raw
raw_from w = record {
  task_id = w.id;
  session_id = w.session_id;
  owner_pod_id = w.owner_pod_id;
  initial_task_id = w.initial_task_id;
  parent_task_ids = w.parent_task_ids;
  data_dependencies = w.data_dependencies;
  expected_output_ids = w.expected_output_ids;
  retry_of_ids = w.retry_of_ids;
  status = StatusCodes.from_i32 w.status;
  status_message = w.status_message;
  options = from_option options_from default_task_options w.options;
  created_at = w.created_at;
  submitted_at = w.submitted_at;
  received_at = w.received_at;
  acquired_at = w.acquired_at;
  fetched_at = w.fetched_at;
  started_at = w.started_at;
  processed_at = w.processed_at;
  ended_at = w.ended_at;
  creation_to_end_duration = w.creation_to_end_duration;
  processing_to_end_duration = w.processing_to_end_duration;
  received_to_end_duration = w.received_to_end_duration;
  pod_ttl = w.pod_ttl;
  output = from_option output_from Output.success w.output;
  pod_hostname = w.pod_hostname;
  payload_id = w.payload_id;
  created_by = w.created_by;
}

pub raw_back : (r : Raw) → raw_from (raw_into r) ≡ r
unfolding raw_from raw_into
raw_back r = λ i. record {
  task_id = r.task_id;
  session_id = r.session_id;
  owner_pod_id = r.owner_pod_id;
  initial_task_id = r.initial_task_id;
  parent_task_ids = r.parent_task_ids;
  data_dependencies = r.data_dependencies;
  expected_output_ids = r.expected_output_ids;
  retry_of_ids = r.retry_of_ids;
  status = StatusCodes.coded.known r.status i;
  status_message = r.status_message;
  options = options_from-options_into r.options i;
  created_at = r.created_at;
  submitted_at = r.submitted_at;
  received_at = r.received_at;
  acquired_at = r.acquired_at;
  fetched_at = r.fetched_at;
  started_at = r.started_at;
  processed_at = r.processed_at;
  ended_at = r.ended_at;
  creation_to_end_duration = r.creation_to_end_duration;
  processing_to_end_duration = r.processing_to_end_duration;
  received_to_end_duration = r.received_to_end_duration;
  pod_ttl = r.pod_ttl;
  output = output_from-output_into r.output i;
  pod_hostname = r.pod_hostname;
  payload_id = r.payload_id;
  created_by = r.created_by;
}
