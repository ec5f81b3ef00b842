-- ===== src/Client/Tasks/Served.antt =====
-- The calls of packages/rust/armonik/src/client/tasks.rs against the server of packages/rust/armonik/src/server/tasks.rs.
use armoni_k_api.Common.{ℤ, String, ◌≡◌, Bool, Option, List}
use armoni_k_api.Common.Outcome.{map_ok}
use armoni_k_api.Rpc.Calls.{RequestError, grpc, Call, then_result, finish}
use armoni_k_api.Rpc.Unary.{call_served, part_served, read_served, part_read_served}
use armoni_k_api.Server.Tasks.{TasksWire, TasksService, serve}
use armoni_k_api.Client.Tasks as Client
use armoni_k_api.Client.Tasks.Calls as Calls
use armoni_k_api.Common.HashMap.{Iteration, HashMap}
use armoni_k_api.Objects.TaskOptions.{TaskOptions}
use armoni_k_api.Objects.StatusCount.{StatusCount}
use armoni_k_api.Objects.Filters.Formula.{FieldFilter}
use armoni_k_api.Objects.Tasks.Summary.{Summary}
use armoni_k_api.Objects.Tasks.Field.{Field}
use armoni_k_api.Objects.Tasks.Filter.{TaskFilter, TaskCondition, alternatives}
use armoni_k_api.Objects.Tasks.Raw.{Raw}
use armoni_k_api.Objects.Tasks.ListRequests.{
  Sort, list_request_into, list_request_from, list_request_back,
}
use armoni_k_api.Objects.Tasks.Listed.{
  ListResponse, DetailedResponse, list_response_into, list_response_from, detailed_response_into,
  detailed_response_from, cancel_request_into, cancel_request_from, cancel_response_into,
  cancel_response_from, list_response_back, detailed_response_back, cancel_request_back,
  cancel_response_back, list_response_read, cancel_response_read,
}
use armoni_k_api.Objects.Tasks.Submit.{
  RequestItem, ResponseItem, submit_request_into, submit_request_from, submit_response_into,
  submit_response_from, submit_request_back, submit_response_back,
}
use armoni_k_api.Objects.Tasks.Requests.{
  get_request_into, get_request_from, get_response_into, get_response_from, count_request_into,
  count_request_from, count_response_into, count_response_from, get_request_back, get_response_back,
  count_request_back, count_response_back,
}
use armoni_k_api.Objects.Tasks.ResultIds.{
  result_ids_request_into, result_ids_request_from, result_ids_into, result_ids_from,
  result_ids_request_back, result_ids_back, result_ids_read,
}

-- A call of the client with its arguments, and what it can return.
pub data TasksCall : Type 0 where
  list : List (List (FieldFilter Field TaskCondition)) → Sort → Bool → ℤ → ℤ → TasksCall
  list_detailed : List (List (FieldFilter Field TaskCondition)) → Sort → Bool → ℤ → ℤ → TasksCall
  get : String → TasksCall
  cancel : List String → TasksCall
  get_result_ids : List String → TasksCall
  count_status : TaskFilter → TasksCall
  submit : String → Option TaskOptions → List RequestItem → TasksCall

pub data TasksAnswer : Type 0 where
  listed : ListResponse → TasksAnswer
  detailed : DetailedResponse → TasksAnswer
  about : Raw → TasksAnswer
  cancelled : List Summary → TasksAnswer
  results_of : HashMap String (List String) → TasksAnswer
  counted : List StatusCount → TasksAnswer
  submitted : List ResponseItem → TasksAnswer

module _ {S : Type 0} (stub : TasksWire S) where
  unfoldable pub perform : TasksCall → Call S RequestError TasksAnswer
  perform (TasksCall.list filters sort with_errors page page_size) =
      then_result (map_ok listed) (Client.list stub filters sort with_errors page page_size)
  perform (TasksCall.list_detailed filters sort with_errors page page_size) =
      then_result (map_ok detailed)
        (Client.list_detailed stub filters sort with_errors page page_size)
  perform (TasksCall.get task_id) = then_result (map_ok about) (Client.get stub task_id)
  perform (TasksCall.cancel task_ids) = then_result (map_ok cancelled) (Client.cancel stub task_ids)
  perform (TasksCall.get_result_ids task_ids) =
      then_result (map_ok results_of) (Client.get_result_ids stub task_ids)
  perform (TasksCall.count_status filters) =
      then_result (map_ok counted) (Client.count_status stub filters)
  perform (TasksCall.submit session_id task_options items) =
      then_result (map_ok submitted) (Client.submit stub session_id task_options items)

module _ (it : Iteration) {S Context : Type 0} (service : TasksService S Context)
    (context : Context) where
  -- The handler of the call, run once on the arguments, with its error wrapped; a summary is read as its
  -- message has it.
  unfoldable pub handle : TasksCall → Call S RequestError TasksAnswer
  handle (TasksCall.list filters sort with_errors page page_size) =
      finish (λ r. listed (list_response_read r)) grpc
        (service.list
          (record {
            page = page;
            page_size = page_size;
            filters = alternatives filters;
            sort = sort;
            with_errors = with_errors;
          })
          context)
  handle (TasksCall.list_detailed filters sort with_errors page page_size) = finish detailed grpc (
      service.list_detailed
        (record {
          page = page;
          page_size = page_size;
          filters = alternatives filters;
          sort = sort;
          with_errors = with_errors;
        })
        context)
  handle (TasksCall.get task_id) =
      finish (λ r. about r.task) grpc (service.get (record { task_id = task_id }) context)
  handle (TasksCall.cancel task_ids) =
      finish (λ r. cancelled (cancel_response_read r).tasks) grpc
        (service.cancel (record { task_ids = task_ids }) context)
  handle (TasksCall.get_result_ids task_ids) =
      finish (λ r. results_of (result_ids_read it r).task_results) grpc
        (service.get_result_ids (record { task_ids = task_ids }) context)
  handle (TasksCall.count_status filters) =
      finish (λ r. counted r.status) grpc
        (service.count_status (record { filters = filters }) context)
  handle (TasksCall.submit session_id task_options items) =
      finish (λ r. submitted r.items) grpc
        (service.submit
          (record { session_id = session_id; task_options = task_options; items = items }) context)

  -- Every call of the client of tasks against a server runs its own handler, once, on the arguments
  -- that were given, and returns the part of the answer that the client promises, or the error: a
  -- summary with an empty error text as a success, a map collected from its entries again, and anything
  -- else as the handler gave it.
  pub perform-serve_tasks :
      (call : TasksCall) (s : S) → perform (serve it service context) call s ≡ handle call s
  unfolding perform handle serve Client.list Calls.list Client.list_detailed Calls.list_detailed
      Client.get Calls.get Client.cancel Calls.cancel Client.get_result_ids Calls.get_result_ids
      Client.count_status Calls.count_status Client.submit Calls.submit
  perform-serve_tasks (TasksCall.list filters sort with_errors page page_size) s =
      read_served list_request_into list_request_from list_response_into list_response_from (λ r. r)
        list_response_read list_request_back list_response_back listed service.list context
        (record {
          page = page;
          page_size = page_size;
          filters = alternatives filters;
          sort = sort;
          with_errors = with_errors;
        })
        s
  perform-serve_tasks (TasksCall.list_detailed filters sort with_errors page page_size) s =
      call_served list_request_into list_request_from detailed_response_into detailed_response_from
        list_request_back detailed_response_back detailed service.list_detailed context
        (record {
          page = page;
          page_size = page_size;
          filters = alternatives filters;
          sort = sort;
          with_errors = with_errors;
        })
        s
  perform-serve_tasks (TasksCall.get task_id) s =
      part_served get_request_into get_request_from get_response_into get_response_from
        get_request_back get_response_back (λ r. r.task) about service.get context
        (record { task_id = task_id }) s
  perform-serve_tasks (TasksCall.cancel task_ids) s =
      part_read_served cancel_request_into cancel_request_from cancel_response_into
        cancel_response_from (λ r. r) cancel_response_read cancel_request_back cancel_response_back
        (λ r. r.tasks) cancelled service.cancel context (record { task_ids = task_ids }) s
  perform-serve_tasks (TasksCall.get_result_ids task_ids) s =
      part_read_served result_ids_request_into result_ids_request_from (result_ids_into it)
        result_ids_from (λ r. r) (result_ids_read it) result_ids_request_back (result_ids_back it)
        (λ r. r.task_results) results_of service.get_result_ids context
        (record { task_ids = task_ids }) s
  perform-serve_tasks (TasksCall.count_status filters) s =
      part_served count_request_into count_request_from count_response_into count_response_from
        count_request_back count_response_back (λ r. r.status) counted service.count_status context
        (record { filters = filters }) s
  perform-serve_tasks (TasksCall.submit session_id task_options items) s =
      part_served submit_request_into submit_request_from submit_response_into submit_response_from
        submit_request_back submit_response_back (λ r. r.items) submitted service.submit context
        (record { session_id = session_id; task_options = task_options; items = items }) s
