-- ===== src/Client/Applications.antt =====
-- packages/rust/armonik/src/client/applications.rs: the client of the service, over a stub that is generated code.
pub mod Calls
pub mod Served
use armoni_k_api.Common.{ℤ, String, Bool, Option, List, map}
use armoni_k_api.Common.Outcome.{map_ok}
use armoni_k_api.Rpc.Calls.{RequestError, Call, then_result}
use armoni_k_api.Server.Applications.{ApplicationsWire}
use armoni_k_api.Client.Applications.Calls as Calls
use armoni_k_api.Objects.Filters.Formula.{FieldFilter}
use armoni_k_api.Objects.Applications.Field.{Field}
use armoni_k_api.Objects.Applications.Filter.{ApplicationCondition, alternatives}
use armoni_k_api.Objects.Applications.ListRequests.{
  Raw, Sort, ListRequest, V3ListRequest, ListResponse, V3ListResponse,
}

module _ {S : Type 0} (stub : ApplicationsWire S) where
  unfoldable pub list :
      List (List (FieldFilter Field ApplicationCondition))
      → Sort
      → ℤ
      → ℤ
      → Call S RequestError ListResponse
  list filters sort page page_size =
      Calls.list stub
        (record { page = page; page_size = page_size; filters = alternatives filters; sort = sort })
