-- ===== src/Server/Tasks.antt =====
-- packages/rust/armonik/src/server/tasks.rs: the trait of the handlers, and the server that is made of them.
use armoni_k_api.Rpc.Calls.{Status, Call}
use armoni_k_api.Rpc.Unary.{unary}
use armoni_k_api.Common.HashMap.{Iteration}
use armoni_k_api.Objects.Tasks.ListRequests.{ListRequest, V3ListRequest, list_request_from}
use armoni_k_api.Objects.Tasks.Listed.{
  ListResponse, V3ListResponse, DetailedResponse, V3DetailedResponse, CancelRequest,
  V3CancelRequest, CancelResponse, V3CancelResponse, list_response_into, detailed_response_into,
  cancel_request_from, cancel_response_into,
}
use armoni_k_api.Objects.Tasks.Requests.{
  GetRequest, V3GetRequest, GetResponse, V3GetResponse, CountRequest, V3CountRequest, CountResponse,
  V3CountResponse, get_request_from, get_response_into, count_request_from, count_response_into,
}
use armoni_k_api.Objects.Tasks.Submit.{
  SubmitRequest, V3SubmitRequest, SubmitResponse, V3SubmitResponse, submit_request_from,
  submit_response_into,
}
use armoni_k_api.Objects.Tasks.ResultIds.{
  ResultIdsRequest, V3ResultIdsRequest, ResultIds, V3ResultIds, result_ids_request_from,
  result_ids_into,
}

-- The calls of the generated service, of its client as of its server.
pub record TasksWire (S : Type 0) : Type 0 where
  pub list_tasks : V3ListRequest → Call S Status V3ListResponse
  pub list_tasks_detailed : V3ListRequest → Call S Status V3DetailedResponse
  pub get_task : V3GetRequest → Call S Status V3GetResponse
  pub cancel_tasks : V3CancelRequest → Call S Status V3CancelResponse
  pub get_result_ids : V3ResultIdsRequest → Call S Status V3ResultIds
  pub count_tasks_by_status : V3CountRequest → Call S Status V3CountResponse
  pub submit_tasks : V3SubmitRequest → Call S Status V3SubmitResponse

-- The trait of the handlers.
pub record TasksService (S Context : Type 0) : Type 0 where
  pub list : ListRequest → Context → Call S Status ListResponse
  pub list_detailed : ListRequest → Context → Call S Status DetailedResponse
  pub get : GetRequest → Context → Call S Status GetResponse
  pub cancel : CancelRequest → Context → Call S Status CancelResponse
  pub get_result_ids : ResultIdsRequest → Context → Call S Status ResultIds
  pub count_status : CountRequest → Context → Call S Status CountResponse
  pub submit : SubmitRequest → Context → Call S Status SubmitResponse

-- The server of the handlers, for calls that come with the given context.
unfoldable pub serve :
    Iteration → {S Context : Type 0} → TasksService S Context → Context → TasksWire S
serve it service context = record {
  list_tasks = λ w. unary list_request_from list_response_into service.list w context;
  list_tasks_detailed =
      λ w. unary list_request_from detailed_response_into service.list_detailed w context;
  get_task = λ w. unary get_request_from get_response_into service.get w context;
  cancel_tasks = λ w. unary cancel_request_from cancel_response_into service.cancel w context;
  get_result_ids =
      λ w. unary result_ids_request_from (result_ids_into it) service.get_result_ids w context;
  count_tasks_by_status =
      λ w. unary count_request_from count_response_into service.count_status w context;
  submit_tasks = λ w. unary submit_request_from submit_response_into service.submit w context;
}
