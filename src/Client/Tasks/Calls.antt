-- ===== src/Client/Tasks/Calls.antt =====
-- packages/rust/armonik/src/client/tasks.rs: the bodies of `impl_call!`, which send a request as it is.
use armoni_k_api.Rpc.Calls.{RequestError, Call}
use armoni_k_api.Rpc.Unary.{client_call}
use armoni_k_api.Server.Tasks.{TasksWire}
use armoni_k_api.Objects.Tasks.ListRequests.{ListRequest, list_request_into}
use armoni_k_api.Objects.Tasks.Listed.{
  ListResponse, DetailedResponse, CancelRequest, CancelResponse, list_response_from,
  detailed_response_from, cancel_request_into, cancel_response_from,
}
use armoni_k_api.Objects.Tasks.Requests.{
  GetRequest, GetResponse, CountRequest, CountResponse, get_request_into, get_response_from,
  count_request_into, count_response_from,
}
use armoni_k_api.Objects.Tasks.Submit.{
  SubmitRequest, SubmitResponse, submit_request_into, submit_response_from,
}
use armoni_k_api.Objects.Tasks.ResultIds.{
  ResultIdsRequest, ResultIds, result_ids_request_into, result_ids_from,
}

module _ {S : Type 0} (stub : TasksWire S) where
  unfoldable pub list : ListRequest → Call S RequestError ListResponse
  list = client_call list_request_into list_response_from stub.list_tasks

  unfoldable pub list_detailed : ListRequest → Call S RequestError DetailedResponse
  list_detailed = client_call list_request_into detailed_response_from stub.list_tasks_detailed

  unfoldable pub get : GetRequest → Call S RequestError GetResponse
  get = client_call get_request_into get_response_from stub.get_task

  unfoldable pub cancel : CancelRequest → Call S RequestError CancelResponse
  cancel = client_call cancel_request_into cancel_response_from stub.cancel_tasks

  unfoldable pub get_result_ids : ResultIdsRequest → Call S RequestError ResultIds
  get_result_ids = client_call result_ids_request_into result_ids_from stub.get_result_ids

  unfoldable pub count_status : CountRequest → Call S RequestError CountResponse
  count_status = client_call count_request_into count_response_from stub.count_tasks_by_status

  unfoldable pub submit : SubmitRequest → Call S RequestError SubmitResponse
  submit = client_call submit_request_into submit_response_from stub.submit_tasks
