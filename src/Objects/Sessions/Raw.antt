-- ===== src/Objects/Sessions/Raw.antt =====
-- packages/rust/armonik/src/objects/sessions/raw.rs: a session.
use armoni_k_api.Common.{ℤ, String, ◌≡◌, Bool, false, Option, none, List, []}
use armoni_k_api.Objects.Convert.{to_option, from_option}
use armoni_k_api.Objects.Enums.SessionStatus as StatusCodes
use armoni_k_api.Objects.TaskOptions.{
  ProtoDuration, TaskOptions, V3TaskOptions, default_task_options, options_into, options_from,
  options_from-options_into,
}
use armoni_k_api.Objects.Tasks.Summary.{Timestamp}

pub record Raw : Type 0 where
  pub session_id : String
  pub status : StatusCodes.SessionStatus
  pub client_submission : Bool
  pub worker_submission : Bool
  pub partition_ids : List String
  pub default_task_options : TaskOptions
  pub created_at : Option Timestamp
  pub cancelled_at : Option Timestamp
  pub closed_at : Option Timestamp
  pub purged_at : Option Timestamp
  pub deleted_at : Option Timestamp
  pub duration : Option ProtoDuration

pub record V3Raw : Type 0 where
  pub session_id : String
  pub status : ℤ
  pub client_submission : Bool
  pub worker_submission : Bool
  pub partition_ids : List String
  pub options : Option V3TaskOptions
  pub created_at : Option Timestamp
  pub cancelled_at : Option Timestamp
  pub closed_at : Option Timestamp
  pub purged_at : Option Timestamp
  pub deleted_at : Option Timestamp
  pub duration : Option ProtoDuration

abbrev pub default_raw : Raw
default_raw = record {
  session_id = "";
  status = StatusCodes.default;
  client_submission = false;
  worker_submission = false;
  partition_ids = [];
  default_task_options = default_task_options;
  created_at = none;
  cancelled_at = none;
  closed_at = none;
  purged_at = none;
  deleted_at = none;
  duration = none;
}

unfoldable pub raw_into : Raw → V3Raw
raw_into r = record {
  session_id = r.session_id;
  status = StatusCodes.as_i32 r.status;
  client_submission = r.client_submission;
  worker_submission = r.worker_submission;
  partition_ids = r.partition_ids;
  options = to_option options_into r.default_task_options;
  created_at = r.created_at;
  cancelled_at = r.cancelled_at;
  closed_at = r.closed_at;
  purged_at = r.purged_at;
  deleted_at = r.deleted_at;
  duration = r.duration;
}

unfoldable pub raw_from : V3Raw → Raw
raw_from w = record {
  session_id = w.session_id;
  status = StatusCodes.from_i32 w.status;
  client_submission = w.client_submission;
  worker_submission = w.worker_submission;
  partition_ids = w.partition_ids;
  default_task_options = from_option options_from default_task_options w.options;
  created_at = w.created_at;
  cancelled_at = w.cancelled_at;
  closed_at = w.closed_at;
  purged_at = w.purged_at;
  deleted_at = w.deleted_at;
  duration = w.duration;
}

pub raw_back : (r : Raw) → raw_from (raw_into r) ≡ r
unfolding raw_from raw_into
raw_back r = λ i. record {
  session_id = r.session_id;
  status = StatusCodes.coded.known r.status i;
  client_submission = r.client_submission;
  worker_submission = r.worker_submission;
  partition_ids = r.partition_ids;
  default_task_options = options_from-options_into r.default_task_options i;
  created_at = r.created_at;
  cancelled_at = r.cancelled_at;
  closed_at = r.closed_at;
  purged_at = r.purged_at;
  deleted_at = r.deleted_at;
  duration = r.duration;
}
