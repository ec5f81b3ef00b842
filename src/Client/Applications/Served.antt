-- ===== src/Client/Applications/Served.antt =====
-- The calls of packages/rust/armonik/src/client/applications.rs against the server of packages/rust/armonik/src/server/applications.rs.
use armoni_k_api.Common.{ℤ, ◌≡◌, List}
use armoni_k_api.Common.Outcome.{map_ok}
use armoni_k_api.Rpc.Calls.{RequestError, grpc, Call, then_result, finish}
use armoni_k_api.Rpc.Unary.{call_served}
use armoni_k_api.Server.Applications.{ApplicationsWire, ApplicationsService, serve}
use armoni_k_api.Client.Applications as Client
use armoni_k_api.Client.Applications.Calls as Calls
use armoni_k_api.Objects.Filters.Formula.{FieldFilter}
use armoni_k_api.Objects.Applications.Field.{Field}
use armoni_k_api.Objects.Applications.Filter.{ApplicationCondition, alternatives}
use armoni_k_api.Objects.Applications.ListRequests.{
  Sort, ListResponse, list_request_into, list_request_from, list_response_into, list_response_from,
  list_request_back, list_response_back,
}

-- A call of the client with its arguments, and what it can return.
pub data ApplicationsCall : Type 0 where
  list : List (List (FieldFilter Field ApplicationCondition)) → Sort → ℤ → ℤ → ApplicationsCall

pub data ApplicationsAnswer : Type 0 where
  listed : ListResponse → ApplicationsAnswer

module _ {S : Type 0} (stub : ApplicationsWire S) where
  unfoldable pub perform : ApplicationsCall → Call S RequestError ApplicationsAnswer
  perform (ApplicationsCall.list filters sort page page_size) =
      then_result (map_ok listed) (Client.list stub filters sort page page_size)

module _ {S Context : Type 0} (service : ApplicationsService S Context) (context : Context) where
  -- The handler of the call, run once on the arguments, with its error wrapped.
  unfoldable pub handle : ApplicationsCall → Call S RequestError ApplicationsAnswer
  handle (ApplicationsCall.list filters sort page page_size) = finish listed grpc (
      service.list
        (record { page = page; page_size = page_size; filters = alternatives filters; sort = sort })
        context)

  -- The same for the client of applications.
  pub perform-serve_applications :
      (call : ApplicationsCall) (s : S) → perform (serve service context) call s ≡ handle call s
  unfolding perform handle serve Client.list Calls.list
  perform-serve_applications (ApplicationsCall.list filters sort page page_size) s =
      call_served list_request_into list_request_from list_response_into list_response_from
        list_request_back list_response_back listed service.list context
        (record { page = page; page_size = page_size; filters = alternatives filters; sort = sort })
        s
