-- ===== src/Client/Partitions.antt =====
-- packages/rust/armonik/src/client/partitions.rs: the client of the service, over a stub that is generated code.
pub mod Calls
pub mod Served
use armoni_k_api.Common.{ℤ, String, Bool, Option, List, map}
use armoni_k_api.Common.Outcome.{map_ok}
use armoni_k_api.Rpc.Calls.{RequestError, Call, then_result}
use armoni_k_api.Server.Partitions.{PartitionsWire}
use armoni_k_api.Client.Partitions.Calls as Calls
use armoni_k_api.Objects.Filters.Formula.{FieldFilter}
use armoni_k_api.Objects.Partitions.Field.{Field}
use armoni_k_api.Objects.Partitions.Filter.{PartitionCondition, alternatives}
use armoni_k_api.Objects.Partitions.ListRequests.{
  Raw, Sort, ListRequest, V3ListRequest, ListResponse, V3ListResponse, GetRequest, V3GetRequest,
  GetReply, V3GetReply,
}

module _ {S : Type 0} (stub : PartitionsWire S) where
  unfoldable pub list :
      List (List (FieldFilter Field PartitionCondition))
      → Sort
      → ℤ
      → ℤ
      → Call S RequestError ListResponse
  list filters sort page page_size =
      Calls.list stub
        (record { page = page; page_size = page_size; filters = alternatives filters; sort = sort })

  unfoldable pub get : String → Call S RequestError Raw
  get partition_id =
      then_result (map_ok (λ (r : GetReply). r.partition))
        (Calls.get stub (record { partition_id = partition_id }))
