-- ===== src/Objects/Submitter/TaskStatuses.antt =====
-- packages/rust/armonik/src/objects/submitter/task_status.rs: the status of each of some tasks.
use armoni_k_api.Common.{ℤ, String, ◌≡◌, refl, List, [], map, ◌=s=◌, map-map_retract}
use armoni_k_api.Common.HashMap.{HashMap, Iteration, collect}
use armoni_k_api.Objects.Enums.TaskStatus as StatusCodes

pub record TaskStatusRequest : Type 0 where
  pub task_ids : List String

pub record V3TaskStatusRequest : Type 0 where
  pub task_ids : List String

abbrev pub default_task_status_request : TaskStatusRequest
default_task_status_request = record { task_ids = [] }

unfoldable pub task_status_request_into : TaskStatusRequest → V3TaskStatusRequest
task_status_request_into r = record { task_ids = r.task_ids }

unfoldable pub task_status_request_from : V3TaskStatusRequest → TaskStatusRequest
task_status_request_from w = record { task_ids = w.task_ids }

pub task_status_request_back :
    (r : TaskStatusRequest) → task_status_request_from (task_status_request_into r) ≡ r
unfolding task_status_request_from task_status_request_into
task_status_request_back r = refl

pub record TaskStatuses : Type 0 where
  pub statuses : HashMap String StatusCodes.TaskStatus

pub record V3TaskStatusId : Type 0 where
  pub task_id : String
  pub status : ℤ

pub record V3TaskStatuses : Type 0 where
  pub id_statuses : List V3TaskStatusId

abbrev task_statuses_entry_into : String × StatusCodes.TaskStatus → V3TaskStatusId
task_statuses_entry_into (k, v) = record { task_id = k; status = StatusCodes.as_i32 v }

abbrev task_statuses_entry_from : V3TaskStatusId → String × StatusCodes.TaskStatus
task_statuses_entry_from w = (w.task_id, StatusCodes.from_i32 w.status)

task_statuses_entry_back :
    (e : String × StatusCodes.TaskStatus)
    → task_statuses_entry_from (task_statuses_entry_into e) ≡ e
task_statuses_entry_back e = λ i. (e.0, StatusCodes.coded.known e.1 i)

unfoldable pub task_statuses_into : Iteration → TaskStatuses → V3TaskStatuses
task_statuses_into it r = record {
  id_statuses = map task_statuses_entry_into (it.order r.statuses);
}

unfoldable pub task_statuses_from : V3TaskStatuses → TaskStatuses
task_statuses_from w = record {
  statuses = collect ◌=s=◌ (map task_statuses_entry_from w.id_statuses);
}

-- The map is collected again from its entries, in the order in which it was iterated over.
abbrev pub task_statuses_read : Iteration → TaskStatuses → TaskStatuses
task_statuses_read it r = record r { statuses = collect ◌=s=◌ (it.order r.statuses) }

pub task_statuses_back :
    (it : Iteration) (r : TaskStatuses)
    → task_statuses_from (task_statuses_into it r) ≡ task_statuses_read it r
unfolding task_statuses_from task_statuses_into
task_statuses_back it r = λ i. record {
  statuses = collect ◌=s=◌ (
      map-map_retract task_statuses_entry_into task_statuses_entry_from task_statuses_entry_back
        (it.order r.statuses) i);
}
