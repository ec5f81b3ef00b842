-- ===== src/Client/Tasks.antt =====
-- packages/rust/armonik/src/client/tasks.rs: the client of the service, over a stub that is generated code.
pub mod Calls
pub mod Served
use armoni_k_api.Common.{ℤ, String, Bool, Option, List, map}
use armoni_k_api.Common.Outcome.{map_ok}
use armoni_k_api.Rpc.Calls.{RequestError, Call, then_result}
use armoni_k_api.Server.Tasks.{TasksWire}
use armoni_k_api.Client.Tasks.Calls as Calls
use armoni_k_api.Common.HashMap.{Iteration, collect, HashMap}
use armoni_k_api.Objects.TaskOptions.{TaskOptions}
use armoni_k_api.Objects.StatusCount.{StatusCount}
use armoni_k_api.Objects.Filters.Formula.{FieldFilter}
use armoni_k_api.Objects.Tasks.Summary.{Summary}
use armoni_k_api.Objects.Tasks.Field.{Field}
use armoni_k_api.Objects.Tasks.Filter.{TaskFilter, TaskCondition, alternatives}
use armoni_k_api.Objects.Tasks.Raw.{Raw}
use armoni_k_api.Objects.Tasks.ListRequests.{Sort, ListRequest, V3ListRequest}
use armoni_k_api.Objects.Tasks.Listed.{
  ListResponse, V3ListResponse, DetailedResponse, V3DetailedResponse, CancelRequest,
  V3CancelRequest, CancelResponse, V3CancelResponse,
}
use armoni_k_api.Objects.Tasks.Requests.{
  GetRequest, V3GetRequest, GetResponse, V3GetResponse, CountRequest, V3CountRequest, CountResponse,
  V3CountResponse,
}
use armoni_k_api.Objects.Tasks.Submit.{
  RequestItem, ResponseItem, SubmitRequest, V3SubmitRequest, SubmitResponse, V3SubmitResponse,
}
use armoni_k_api.Objects.Tasks.ResultIds.{
  ResultIdsRequest, V3ResultIdsRequest, ResultIds, V3ResultIds,
}

module _ {S : Type 0} (stub : TasksWire S) where
  unfoldable pub list :
      List (List (FieldFilter Field TaskCondition))
      → Sort
      → Bool
      → ℤ
      → ℤ
      → Call S RequestError ListResponse
  list filters sort with_errors page page_size = Calls.list stub (record {
    page = page;
    page_size = page_size;
    filters = alternatives filters;
    sort = sort;
    with_errors = with_errors;
  })

  unfoldable pub list_detailed :
      List (List (FieldFilter Field TaskCondition))
      → Sort
      → Bool
      → ℤ
      → ℤ
      → Call S RequestError DetailedResponse
  list_detailed filters sort with_errors page page_size = Calls.list_detailed stub (record {
    page = page;
    page_size = page_size;
    filters = alternatives filters;
    sort = sort;
    with_errors = with_errors;
  })

  unfoldable pub get : String → Call S RequestError Raw
  get task_id =
      then_result (map_ok (λ (r : GetResponse). r.task))
        (Calls.get stub (record { task_id = task_id }))

  unfoldable pub cancel : List String → Call S RequestError (List Summary)
  cancel task_ids =
      then_result (map_ok (λ (r : CancelResponse). r.tasks))
        (Calls.cancel stub (record { task_ids = task_ids }))

  unfoldable pub get_result_ids : List String → Call S RequestError (HashMap String (List String))
  get_result_ids task_ids =
      then_result (map_ok (λ (r : ResultIds). r.task_results))
        (Calls.get_result_ids stub (record { task_ids = task_ids }))

  unfoldable pub count_status : TaskFilter → Call S RequestError (List StatusCount)
  count_status filters =
      then_result (map_ok (λ (r : CountResponse). r.status))
        (Calls.count_status stub (record { filters = filters }))

  unfoldable pub submit :
      String → Option TaskOptions → List RequestItem → Call S RequestError (List ResponseItem)
  submit session_id task_options items = then_result (map_ok (λ (r : SubmitResponse). r.items)) (
      Calls.submit stub
        (record { session_id = session_id; task_options = task_options; items = items }))
