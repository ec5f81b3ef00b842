-- ===== src/Objects/Events/Update.antt =====
-- packages/rust/armonik/src/objects/events: what can happen to the tasks and the results of a session.
use armoni_k_api.Common.{ℤ, String, ◌≡◌, refl, ap, Option, some, none, List}
use armoni_k_api.Objects.Enums.TaskStatus as TaskCodes
use armoni_k_api.Objects.Enums.ResultStatus as ResultCodes

pub record TaskStatusUpdate : Type 0 where
  pub task_id : String
  pub status : TaskCodes.TaskStatus

pub record V3TaskStatusUpdate : Type 0 where
  pub task_id : String
  pub status : ℤ

unfoldable pub task_status_update_into : TaskStatusUpdate → V3TaskStatusUpdate
task_status_update_into r = record { task_id = r.task_id; status = TaskCodes.as_i32 r.status }

unfoldable pub task_status_update_from : V3TaskStatusUpdate → TaskStatusUpdate
task_status_update_from w = record { task_id = w.task_id; status = TaskCodes.from_i32 w.status }

pub task_status_update_back :
    (r : TaskStatusUpdate) → task_status_update_from (task_status_update_into r) ≡ r
unfolding task_status_update_from task_status_update_into
task_status_update_back r =
    λ i. record { task_id = r.task_id; status = TaskCodes.coded.known r.status i }

pub record ResultStatusUpdate : Type 0 where
  pub result_id : String
  pub status : ResultCodes.ResultStatus

pub record V3ResultStatusUpdate : Type 0 where
  pub result_id : String
  pub status : ℤ

unfoldable pub result_status_update_into : ResultStatusUpdate → V3ResultStatusUpdate
result_status_update_into r = record {
  result_id = r.result_id;
  status = ResultCodes.as_i32 r.status;
}

unfoldable pub result_status_update_from : V3ResultStatusUpdate → ResultStatusUpdate
result_status_update_from w = record {
  result_id = w.result_id;
  status = ResultCodes.from_i32 w.status;
}

pub result_status_update_back :
    (r : ResultStatusUpdate) → result_status_update_from (result_status_update_into r) ≡ r
unfolding result_status_update_from result_status_update_into
result_status_update_back r =
    λ i. record { result_id = r.result_id; status = ResultCodes.coded.known r.status i }

pub record ResultOwnerUpdate : Type 0 where
  pub result_id : String
  pub previous_owner_id : String
  pub current_owner_id : String

pub record V3ResultOwnerUpdate : Type 0 where
  pub result_id : String
  pub previous_owner_id : String
  pub current_owner_id : String

unfoldable pub result_owner_update_into : ResultOwnerUpdate → V3ResultOwnerUpdate
result_owner_update_into r = record {
  result_id = r.result_id;
  previous_owner_id = r.previous_owner_id;
  current_owner_id = r.current_owner_id;
}

unfoldable pub result_owner_update_from : V3ResultOwnerUpdate → ResultOwnerUpdate
result_owner_update_from w = record {
  result_id = w.result_id;
  previous_owner_id = w.previous_owner_id;
  current_owner_id = w.current_owner_id;
}

pub result_owner_update_back :
    (r : ResultOwnerUpdate) → result_owner_update_from (result_owner_update_into r) ≡ r
unfolding result_owner_update_from result_owner_update_into
result_owner_update_back r = refl

pub record NewTask : Type 0 where
  pub task_id : String
  pub payload_id : String
  pub origin_task_id : String
  pub status : TaskCodes.TaskStatus
  pub expected_output_keys : List String
  pub data_dependencies : List String
  pub retry_of_ids : List String
  pub parent_task_ids : List String

pub record V3NewTask : Type 0 where
  pub task_id : String
  pub payload_id : String
  pub origin_task_id : String
  pub status : ℤ
  pub expected_output_keys : List String
  pub data_dependencies : List String
  pub retry_of_ids : List String
  pub parent_task_ids : List String

unfoldable pub new_task_into : NewTask → V3NewTask
new_task_into r = record {
  task_id = r.task_id;
  payload_id = r.payload_id;
  origin_task_id = r.origin_task_id;
  status = TaskCodes.as_i32 r.status;
  expected_output_keys = r.expected_output_keys;
  data_dependencies = r.data_dependencies;
  retry_of_ids = r.retry_of_ids;
  parent_task_ids = r.parent_task_ids;
}

unfoldable pub new_task_from : V3NewTask → NewTask
new_task_from w = record {
  task_id = w.task_id;
  payload_id = w.payload_id;
  origin_task_id = w.origin_task_id;
  status = TaskCodes.from_i32 w.status;
  expected_output_keys = w.expected_output_keys;
  data_dependencies = w.data_dependencies;
  retry_of_ids = w.retry_of_ids;
  parent_task_ids = w.parent_task_ids;
}

pub new_task_back : (r : NewTask) → new_task_from (new_task_into r) ≡ r
unfolding new_task_from new_task_into
new_task_back r = λ i. record {
  task_id = r.task_id;
  payload_id = r.payload_id;
  origin_task_id = r.origin_task_id;
  status = TaskCodes.coded.known r.status i;
  expected_output_keys = r.expected_output_keys;
  data_dependencies = r.data_dependencies;
  retry_of_ids = r.retry_of_ids;
  parent_task_ids = r.parent_task_ids;
}

pub record NewResult : Type 0 where
  pub result_id : String
  pub owner_id : String
  pub status : ResultCodes.ResultStatus

pub record V3NewResult : Type 0 where
  pub result_id : String
  pub owner_id : String
  pub status : ℤ

unfoldable pub new_result_into : NewResult → V3NewResult
new_result_into r = record {
  result_id = r.result_id;
  owner_id = r.owner_id;
  status = ResultCodes.as_i32 r.status;
}

unfoldable pub new_result_from : V3NewResult → NewResult
new_result_from w = record {
  result_id = w.result_id;
  owner_id = w.owner_id;
  status = ResultCodes.from_i32 w.status;
}

pub new_result_back : (r : NewResult) → new_result_from (new_result_into r) ≡ r
unfolding new_result_from new_result_into
new_result_back r = λ i. record {
  result_id = r.result_id;
  owner_id = r.owner_id;
  status = ResultCodes.coded.known r.status i;
}

pub data Update : Type 0 where
  invalid : Update
  task_status_update : TaskStatusUpdate → Update
  result_status_update : ResultStatusUpdate → Update
  result_owner_update : ResultOwnerUpdate → Update
  new_task : NewTask → Update
  new_result : NewResult → Update

pub data V3UpdateKind : Type 0 where
  v3_task_status_update : V3TaskStatusUpdate → V3UpdateKind
  v3_result_status_update : V3ResultStatusUpdate → V3UpdateKind
  v3_result_owner_update : V3ResultOwnerUpdate → V3UpdateKind
  v3_new_task : V3NewTask → V3UpdateKind
  v3_new_result : V3NewResult → V3UpdateKind

-- A message that is one of several holds an optional update.
abbrev pub V3Update : Type 0
V3Update = Option V3UpdateKind

unfoldable pub update_into : Update → V3Update
update_into invalid = none
update_into (task_status_update update) =
    some (v3_task_status_update (task_status_update_into update))
update_into (result_status_update update) =
    some (v3_result_status_update (result_status_update_into update))
update_into (result_owner_update update) =
    some (v3_result_owner_update (result_owner_update_into update))
update_into (new_task update) = some (v3_new_task (new_task_into update))
update_into (new_result update) = some (v3_new_result (new_result_into update))

unfoldable pub update_from : V3Update → Update
update_from (some (v3_task_status_update update)) =
    task_status_update (task_status_update_from update)
update_from (some (v3_result_status_update update)) =
    result_status_update (result_status_update_from update)
update_from (some (v3_result_owner_update update)) =
    result_owner_update (result_owner_update_from update)
update_from (some (v3_new_task update)) = new_task (new_task_from update)
update_from (some (v3_new_result update)) = new_result (new_result_from update)
update_from none = invalid

pub update_back : (u : Update) → update_from (update_into u) ≡ u
unfolding update_from update_into
update_back invalid = refl
update_back (task_status_update update) = ap task_status_update (task_status_update_back update)
update_back (result_status_update update) =
    ap result_status_update (result_status_update_back update)
update_back (result_owner_update update) = ap result_owner_update (result_owner_update_back update)
update_back (new_task update) = ap new_task (new_task_back update)
update_back (new_result update) = ap new_result (new_result_back update)
