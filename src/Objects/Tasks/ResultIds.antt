-- ===== src/Objects/Tasks/ResultIds.antt =====
-- packages/rust/armonik/src/objects/tasks/get_result_ids.rs: the results of each of some tasks.
use armoni_k_api.Common.{String, ◌≡◌, refl, List, [], map, ◌=s=◌, map-map_retract}
use armoni_k_api.Common.HashMap.{HashMap, Iteration, collect}

pub record ResultIdsRequest : Type 0 where
  pub task_ids : List String

pub record V3ResultIdsRequest : Type 0 where
  pub task_id : List String

abbrev pub default_result_ids_request : ResultIdsRequest
default_result_ids_request = record { task_ids = [] }

unfoldable pub result_ids_request_into : ResultIdsRequest → V3ResultIdsRequest
result_ids_request_into r = record { task_id = r.task_ids }

unfoldable pub result_ids_request_from : V3ResultIdsRequest → ResultIdsRequest
result_ids_request_from w = record { task_ids = w.task_id }

pub result_ids_request_back :
    (r : ResultIdsRequest) → result_ids_request_from (result_ids_request_into r) ≡ r
unfolding result_ids_request_from result_ids_request_into
result_ids_request_back r = refl

pub record ResultIds : Type 0 where
  pub task_results : HashMap String (List String)

pub record V3MapTaskResult : Type 0 where
  pub task_id : String
  pub result_ids : List String

pub record V3ResultIds : Type 0 where
  pub task_results : List V3MapTaskResult

abbrev result_ids_entry_into : String × (List String) → V3MapTaskResult
result_ids_entry_into (k, v) = record { task_id = k; result_ids = v }

abbrev result_ids_entry_from : V3MapTaskResult → String × (List String)
result_ids_entry_from w = (w.task_id, w.result_ids)

unfoldable pub result_ids_into : Iteration → ResultIds → V3ResultIds
result_ids_into it r = record { task_results = map result_ids_entry_into (it.order r.task_results) }

unfoldable pub result_ids_from : V3ResultIds → ResultIds
result_ids_from w = record {
  task_results = collect ◌=s=◌ (map result_ids_entry_from w.task_results);
}

-- The map is collected again from its entries, in the order in which it was iterated over.
abbrev pub result_ids_read : Iteration → ResultIds → ResultIds
result_ids_read it r = record r { task_results = collect ◌=s=◌ (it.order r.task_results) }

pub result_ids_back :
    (it : Iteration) (r : ResultIds) → result_ids_from (result_ids_into it r) ≡ result_ids_read it r
unfolding result_ids_from result_ids_into
result_ids_back it r = λ i. record {
  task_results = collect ◌=s=◌ (
      map-map_retract result_ids_entry_into result_ids_entry_from (λ e. refl)
        (it.order r.task_results) i);
}
